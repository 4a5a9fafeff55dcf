-- ===== src/Auth/Serve/Handlers.antt =====
-- The handlers keep what the statements keep.
use controlplane.Prelude.{
  is_empty, text_or_empty, ℕ, arith, Bool, ◌||◌, refl, Option, none, some, List, [], ◌∷◌, Text, ltb,
  length,
}
use controlplane.Auth.Model.{
  User, RevokedToken, RefreshToken, State, Services, Config, Claims, Action, log, attempt,
  read_clock, compare_password,
}
use controlplane.Auth.Limiter.{Limiter, check, reset}
use controlplane.Auth.Users.{get_by_id, get_by_email, update_password, normalize_email}
use controlplane.Auth.Tokens.{
  revoke, validate_refresh_token, revoke_refresh_token, revoke_all_user_refresh_tokens, hash_token,
}
use controlplane.Auth.Session.{
  Response, refuse, failure, logged_out, answer_session, clear_auth_cookies,
}
use controlplane.Auth.Login.{
  register, login, refresh, RegisterRequest, LoginRequest, register_address, hashed, note_failure,
  log_in, answer_user, rotate, is_closed, or_else, min_password_len, creation_status, new_user,
}
use controlplane.Auth.Account.{
  logout, change_password, LogoutRequest, PasswordRequest, revoke_claims, revoke_given,
  renew_password, parsed, logout_token, number_or_zero,
}
use controlplane.Auth.Serve.{
  Request, registering, logging_in, refreshing, logging_out, changing_password, serve, serve_all,
}
use controlplane.Auth.Serve.Keeps.{
  log-Kept, Stable, Kept, Keeps, answer-Keeps, if-Keeps, attempt-Keeps, best_effort-Keeps,
  same-Keeps, revoke-Keeps, revoke_refresh_token-Keeps, revoke_all_user_refresh_tokens-Keeps,
  update_password-Keeps, validate_refresh_token-Keeps, create-Keeps, answer_session-Keeps,
}

module _ {v : Services} {n : ℕ} {Q : List RevokedToken → List RefreshToken → Type 0}
    (stable : Stable v n Q) where
  hashed-Keeps : (password : Text) → Keeps stable (hashed v password)
  hashed-Keeps password =
      same-Keeps stable (hashed v password) (λ s. refl) (λ s. refl) (λ s. omega arith)

  pub refuse-Keeps : (code : ℕ) → Keeps stable (refuse code)
  refuse-Keeps code = answer-Keeps stable (failure code)

  register_address-Keeps :
      (config : Config) (rq : RegisterRequest) (address : Option Text)
      → Keeps stable (register_address v config rq address)
  register_address-Keeps config rq none = refuse-Keeps 400
  register_address-Keeps config rq (some address) =
      if-Keeps stable (λ _. ltb (length rq.password) min_password_len) (refuse 400) _
        (refuse-Keeps 400)
        (attempt-Keeps stable (hashed v rq.password) (λ _. refuse 500) _ (hashed-Keeps rq.password)
          (λ _. refuse-Keeps 500)
          λ hash.
            attempt-Keeps stable _ (λ e. refuse (creation_status e)) _
              (create-Keeps stable (new_user (normalize_email v address) hash rq.display_name))
              (λ e. refuse-Keeps (creation_status e)) (answer_session-Keeps stable 201 config))

  register-Keeps :
      (config : Config) (header : Text) (rq : Option RegisterRequest)
      → Keeps stable (register v config header rq)
  unfolding register
  register-Keeps config header none = refuse-Keeps 400
  register-Keeps config header (some rq) =
      if-Keeps stable (λ _. is_closed config header rq) (refuse 403) _ (refuse-Keeps 403)
        (register_address-Keeps config rq (v.parse_address rq.email))

  note_failure-Keeps : (address : Text) → Keeps stable (note_failure v address)
  unfolding note_failure
  note_failure-Keeps address =
      same-Keeps stable (note_failure v address) (λ s. refl) (λ s. refl) (λ s. omega arith)

  log_in-Keeps :
      (config : Config) (address password : Text) (u : Option User)
      → Keeps stable (log_in v config address password u)
  unfolding log_in
  log_in-Keeps config address password none = note_failure-Keeps address
  log_in-Keeps config address password (some u) =
      if-Keeps stable (λ _. v.bcrypt_matches u.password_hash password)
        (λ s.
          answer_session 200 v config u
            (record (log compare_password s) { limiter = reset address s.limiter }))
        (λ s. note_failure v address (log compare_password s))
        (record {
          keeps = λ s k.
              (answer_session-Keeps stable 200 config u).keeps
                (record (log compare_password s) { limiter = reset address s.limiter })
                (log-Kept stable compare_password s k);
        })
        (record {
          keeps = λ s k.
              (note_failure-Keeps address).keeps (log compare_password s)
                (log-Kept stable compare_password s k);
        })

  answer_user-Keeps : (config : Config) (u : Option User) → Keeps stable (answer_user v config u)
  answer_user-Keeps config none = refuse-Keeps 401
  answer_user-Keeps config (some u) = answer_session-Keeps stable 200 config u

  get_by_id-Keeps : (id : ℕ) → Keeps stable (get_by_id v id)
  unfolding get_by_id
  get_by_id-Keeps id = same-Keeps stable (get_by_id v id) (λ s. refl) (λ s. refl) (λ s. omega arith)

  get_by_email-Keeps : (address : Text) → Keeps stable (get_by_email v address)
  unfolding get_by_email
  get_by_email-Keeps address =
      same-Keeps stable (get_by_email v address) (λ s. refl) (λ s. refl) (λ s. omega arith)

  pub found_user-Keeps :
      (config : Config) (user : ℕ)
      → Keeps stable (attempt (get_by_id v user) (λ _. refuse 401) (answer_user v config))
  found_user-Keeps config user =
      attempt-Keeps stable (get_by_id v user) (λ _. refuse 401) (answer_user v config)
        (get_by_id-Keeps user) (λ _. refuse-Keeps 401) (answer_user-Keeps config)

  rotate-Keeps :
      (config : Config) (hash : Text) (user : ℕ) → Keeps stable (rotate v config hash user)
  unfolding rotate
  rotate-Keeps config hash user =
      best_effort-Keeps stable (revoke_refresh_token v hash) _
        (revoke_refresh_token-Keeps stable hash) (found_user-Keeps config user)

  refresh-Keeps :
      (config : Config) (body cookie : Text) → Keeps stable (refresh v config body cookie)
  unfolding refresh
  refresh-Keeps config body cookie =
      if-Keeps stable (λ _. is_empty (or_else body cookie)) (refuse 400) _ (refuse-Keeps 400)
        (attempt-Keeps stable (validate_refresh_token v hash) (λ _. refuse 401)
          (rotate v config hash) (validate_refresh_token-Keeps stable hash) (λ _. refuse-Keeps 401)
          (rotate-Keeps config hash))
    where
      hash : Text
      hash = hash_token v (or_else body cookie)

  login-Keeps : (config : Config) (rq : Option LoginRequest) → Keeps stable (login v config rq)
  unfolding login
  login-Keeps config none = refuse-Keeps 400
  login-Keeps config (some rq) =
      if-Keeps stable (λ _. is_empty rq.email || is_empty rq.password) (refuse 400) _
        (refuse-Keeps 400)
        (if-Keeps stable (λ s. (checked s).0) (λ s. found (admitted s))
          (λ s. (failure 429, admitted s))
          (record {
            keeps = λ s k. found-Keeps.keeps (admitted s) (log-Kept stable read_clock s k);
          })
          (record { keeps = λ s k. log-Kept stable read_clock s k }))
    where
      address : Text
      address = normalize_email v rq.email

      checked : State → Bool × Limiter
      checked s = check (v.now (read_clock ∷ s.trace)) address s.limiter

      admitted : State → State
      admitted s = record (log read_clock s) { limiter = (checked s).1 }

      found : Action Response
      found =
          attempt (get_by_email v address) (λ _. refuse 500) (log_in v config address rq.password)

      found-Keeps : Keeps stable found
      found-Keeps =
          attempt-Keeps stable (get_by_email v address) (λ _. refuse 500)
            (log_in v config address rq.password) (get_by_email-Keeps address)
            (λ _. refuse-Keeps 500) (log_in-Keeps config address rq.password)

  revoke_claims-Keeps :
      (u : User) (claims : Option Claims) (rest : Action Response)
      → Keeps stable rest
      → Keeps stable (revoke_claims v u claims rest)
  unfolding revoke_claims
  revoke_claims-Keeps u none rest k = k
  revoke_claims-Keeps u (some claims) rest k =
      if-Keeps stable (λ _. is_empty (text_or_empty claims.jti)) rest _ k
        (best_effort-Keeps stable
          (revoke v (text_or_empty claims.jti) u.id (number_or_zero claims.exp)) rest
          (revoke-Keeps stable _ _ _) k)

  pub revoke_given-Keeps :
      (token : Text) (rest : Action Response)
      → Keeps stable rest
      → Keeps stable (revoke_given v token rest)
  unfolding revoke_given
  revoke_given-Keeps token rest k =
      if-Keeps stable (λ _. is_empty token) rest _ k
        (best_effort-Keeps stable (revoke_refresh_token v (hash_token v token)) rest
          (revoke_refresh_token-Keeps stable _) k)

  logout-Keeps :
      (config : Config) (u : Option User) (rq : LogoutRequest) → Keeps stable (logout v config u rq)
  unfolding logout
  logout-Keeps config none rq = refuse-Keeps 401
  logout-Keeps config (some u) rq = record {
    keeps = λ s k.
        (revoke_claims-Keeps u
            (parsed v config (logout_token rq.authorization rq.access_cookie) (log read_clock s)) _
            (revoke_given-Keeps (or_else rq.body_token rq.refresh_cookie) _
              (answer-Keeps stable (logged_out (clear_auth_cookies config))))).keeps
          (log read_clock s) (log-Kept stable read_clock s k);
  }

  renew_password-Keeps :
      (config : Config) (u : User) (password : Text)
      → Keeps stable (renew_password v config u password)
  unfolding renew_password
  renew_password-Keeps config u password =
      attempt-Keeps stable (hashed v password) (λ _. refuse 500) _ (hashed-Keeps password)
        (λ _. refuse-Keeps 500)
        λ hash.
          attempt-Keeps stable (update_password v u.id hash) (λ _. refuse 500) _
            (update_password-Keeps stable u.id hash) (λ _. refuse-Keeps 500)
            λ _.
              best_effort-Keeps stable (revoke_all_user_refresh_tokens v u.id) _
                (revoke_all_user_refresh_tokens-Keeps stable u.id)
                (answer_session-Keeps stable 200 config u)

  change_password-Keeps :
      (config : Config) (u : Option User) (rq : Option PasswordRequest)
      → Keeps stable (change_password v config u rq)
  unfolding change_password
  change_password-Keeps config none rq = refuse-Keeps 401
  change_password-Keeps config (some u) none = refuse-Keeps 400
  change_password-Keeps config (some u) (some rq) =
      if-Keeps stable (λ _. is_empty rq.old_password || is_empty rq.new_password) (refuse 400) _
        (refuse-Keeps 400)
        (if-Keeps stable (λ _. ltb (length rq.new_password) min_password_len) (refuse 400) _
          (refuse-Keeps 400)
          (if-Keeps stable (λ _. v.bcrypt_matches u.password_hash rq.old_password)
            (λ s. renew_password v config u rq.new_password (log compare_password s))
            (λ s. (failure 401, log compare_password s))
            (record {
              keeps = λ s k.
                  (renew_password-Keeps config u rq.new_password).keeps (log compare_password s)
                    (log-Kept stable compare_password s k);
            })
            (record { keeps = λ s k. log-Kept stable compare_password s k })))

  pub serve-Kept :
      (config : Config) (rq : Request) (s : State)
      → Kept stable s
      → Kept stable (serve v config rq s)
  unfolding serve
  serve-Kept config (registering header rq) s = (register-Keeps config header rq).keeps s
  serve-Kept config (logging_in rq) s = (login-Keeps config rq).keeps s
  serve-Kept config (refreshing body cookie) s = (refresh-Keeps config body cookie).keeps s
  serve-Kept config (logging_out u rq) s = (logout-Keeps config u rq).keeps s
  serve-Kept config (changing_password u rq) s = (change_password-Keeps config u rq).keeps s

  -- Whatever the requests are.
  pub serve_all-Kept :
      (config : Config) (rqs : List Request) (s : State)
      → Kept stable s
      → Kept stable (serve_all v config rqs s)
  unfolding serve_all
  serve_all-Kept config [] s k = k
  serve_all-Kept config (rq ∷ rest) s k =
      serve_all-Kept config rest (serve v config rq s) (serve-Kept config rq s k)
