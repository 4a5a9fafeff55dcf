-- ===== src/Auth/Account.antt =====
-- internal/auth/handler.go: `Logout`, `ChangePassword` and `Me`, and `hmacKeyfunc` of middleware.go.
-- The user is the one that the middleware has put into the context.
use controlplane.Prelude.{
  is_empty, text_or_empty, ℕ, Bool, ◌||◌, Option, none, some, Text, codes, text_eq, ltb, length,
  if◌then◌else◌, strip_prefix,
}
use controlplane.Auth.Model.{
  User, State, Services, Config, Claims, Action, log, attempt, best_effort, compare_password,
  read_clock,
}
use controlplane.Auth.Users.{update_password}
use controlplane.Auth.Tokens.{
  hash_token, revoke, revoke_refresh_token, revoke_all_user_refresh_tokens,
}
use controlplane.Auth.Session.{
  Response, failure, profile, logged_out, refuse, answer_session, clear_auth_cookies, to_user_view,
}
use controlplane.Auth.Login.{hashed, or_else, min_password_len}

-- The key for a token that is signed with HMAC; none for another method.
abbrev pub hmac_keyfunc : Text → Bool → Option Text
hmac_keyfunc secret is_hmac = if is_hmac then some secret else none

abbrev pub parsed : Services → Config → Text → State → Option Claims
parsed v config token s = v.parse_jwt (v.now s.trace) (hmac_keyfunc config.jwt_secret) token

abbrev pub number_or_zero : Option ℕ → ℕ
number_or_zero none = 0
number_or_zero (some n) = n

-- `strings.TrimPrefix(header, "Bearer ")`
abbrev pub trim_bearer : Text → Text
trim_bearer header = elim (strip_prefix (codes "Bearer ") header) [ none ↦ header | some t ↦ t ]

abbrev pub or_cookie : Text → Option Text → Text
or_cookie token none = token
or_cookie token (some c) = c

-- The token of the header, or else of the cookie.
abbrev pub logout_token : Text → Option Text → Text
logout_token header cookie =
    let token = trim_bearer header in
    if is_empty token || text_eq token header then or_cookie token cookie else token

unfoldable pub revoke_claims : Services → User → Option Claims → Action Response → Action Response
unfolding best_effort revoke
revoke_claims v u none rest s = rest s
revoke_claims v u (some claims) rest s =
    let jti = text_or_empty claims.jti in
    if is_empty jti
    then rest s
    else best_effort (revoke v jti u.id (number_or_zero claims.exp)) rest s

unfoldable pub revoke_given : Services → Text → Action Response → Action Response
unfolding best_effort revoke_refresh_token hash_token
revoke_given v token rest s =
    if is_empty token
    then rest s
    else best_effort (revoke_refresh_token v (hash_token v token)) rest s

pub record LogoutRequest : Type 0 where
  pub authorization : Text
  pub access_cookie : Option Text
  pub body_token : Text
  pub refresh_cookie : Text

unfoldable pub logout : Services → Config → Option User → LogoutRequest → Action Response
unfolding clear_auth_cookies revoke_claims revoke_given
logout v config none rq s = (failure 401, s)
logout v config (some u) rq s =
    let s' = log read_clock s in
    revoke_claims v u (parsed v config (logout_token rq.authorization rq.access_cookie) s')
      (revoke_given v (or_else rq.body_token rq.refresh_cookie)
        λ w. (logged_out (clear_auth_cookies config), w))
      s'

pub record PasswordRequest : Type 0 where
  pub old_password : Text
  pub new_password : Text

unfoldable pub renew_password : Services → Config → User → Text → Action Response
unfolding attempt best_effort update_password revoke_all_user_refresh_tokens answer_session
renew_password v config u password =
    attempt (hashed v password) (λ _. refuse 500)
      λ hash.
        attempt (update_password v u.id hash) (λ _. refuse 500)
          λ _. best_effort (revoke_all_user_refresh_tokens v u.id) (answer_session 200 v config u)

unfoldable pub change_password :
    Services → Config → Option User → Option PasswordRequest → Action Response
unfolding renew_password
change_password v config none rq s = (failure 401, s)
change_password v config (some u) none s = (failure 400, s)
change_password v config (some u) (some rq) s =
    let s' = log compare_password s in
    if is_empty rq.old_password || is_empty rq.new_password
    then (failure 400, s)
    else if ltb (length rq.new_password) min_password_len
    then (failure 400, s)
    else if v.bcrypt_matches u.password_hash rq.old_password
    then renew_password v config u rq.new_password s'
    else (failure 401, s')

unfoldable pub me : Option User → Action Response
unfolding to_user_view
me none s = (failure 401, s)
me (some u) s = (profile (to_user_view u), s)
