-- ===== src/Auth/Login.antt =====
-- internal/auth/handler.go: `Register`, `Login` and `Refresh`.
use controlplane.Prelude.{
  is_empty, ℕ, Bool, false, not, ◌||◌, Option, none, some, Text, text_eq, ltb, length,
  if◌then◌else◌,
}
use controlplane.World.{Result, ok, err, unavailable, unique_violation, Error}
use controlplane.Auth.Model.{
  User, State, Services, Config, Action, log, attempt, best_effort, hash_password, compare_password,
  read_clock,
}
use controlplane.Auth.Limiter.{check, record_failure, reset}
use controlplane.Auth.Users.{normalize_email, get_by_email, get_by_id, create}
use controlplane.Auth.Tokens.{hash_token, validate_refresh_token, revoke_refresh_token}
use controlplane.Auth.Session.{Response, failure, refuse, answer_session}

abbrev pub min_password_len : ℕ
min_password_len = 12

pub record RegisterRequest : Type 0 where
  pub email : Text
  pub password : Text
  pub display_name : Text
  pub registration_token : Text

-- A header or a cookie that stands in for an empty field of the body.
abbrev pub or_else : Text → Text → Text
or_else value instead = if is_empty value then instead else value

-- `subtle.ConstantTimeCompare(provided, registrationToken) != 1`
abbrev pub is_closed : Config → Text → RegisterRequest → Bool
is_closed config header rq =
    if is_empty config.registration_token
    then false
    else not (text_eq (or_else rq.registration_token header) config.registration_token)

abbrev pub hashed : Services → Text → Action (Result Text)
hashed v password s =
    let s' = log hash_password s in
    (if v.fails s'.trace then err unavailable else ok (v.bcrypt s'.trace password), s')

abbrev pub creation_status : Error → ℕ
creation_status unique_violation = 409
creation_status _ = 500

abbrev pub new_user : Text → Text → Text → User
new_user address hash name = record {
  id = 0;
  email = address;
  password_hash = hash;
  display_name = name;
}

-- From the parsed address on.
abbrev pub register_address : Services → Config → RegisterRequest → Option Text → Action Response
register_address v config rq none s = (failure 400, s)
register_address v config rq (some address) s =
    if ltb (length rq.password) min_password_len
    then (failure 400, s)
    else attempt (hashed v rq.password) (λ _. refuse 500)
        (λ hash.
          attempt (create v (new_user (normalize_email v address) hash rq.display_name))
            (λ e. refuse (creation_status e)) (answer_session 201 v config))
        s

-- `none` is a body that does not decode.
unfoldable pub register : Services → Config → Text → Option RegisterRequest → Action Response
unfolding attempt create answer_session normalize_email
register v config header none s = (failure 400, s)
register v config header (some rq) s =
    if is_closed config header rq
    then (failure 403, s)
    else register_address v config rq (v.parse_address rq.email) s

pub record LoginRequest : Type 0 where
  pub email : Text
  pub password : Text

unfoldable pub note_failure : Services → Text → Action Response
unfolding record_failure
note_failure v address s =
    let s' = log read_clock s in
    (failure 401, record s' { limiter = record_failure (v.now s'.trace) address s'.limiter })

unfoldable pub log_in : Services → Config → Text → Text → Option User → Action Response
unfolding answer_session reset note_failure
log_in v config address password none s = note_failure v address s
log_in v config address password (some u) s =
    let s' = log compare_password s in
    if v.bcrypt_matches u.password_hash password
    then answer_session 200 v config u (record s' { limiter = reset address s'.limiter })
    else note_failure v address s'

unfoldable pub login : Services → Config → Option LoginRequest → Action Response
unfolding attempt get_by_email check normalize_email log_in
login v config none s = (failure 400, s)
login v config (some rq) s =
    let address = normalize_email v rq.email in
    let s1 = log read_clock s in
    let (admitted, entries) = check (v.now s1.trace) address s1.limiter in
    let s2 : State = record s1 { limiter = entries } in
    if is_empty rq.email || is_empty rq.password
    then (failure 400, s)
    else if admitted
    then attempt (get_by_email v address) (λ _. refuse 500) (log_in v config address rq.password) s2
    else (failure 429, s2)

abbrev pub answer_user : Services → Config → Option User → Action Response
answer_user v config none = refuse 401
answer_user v config (some u) = answer_session 200 v config u

-- The old token is revoked, or its revocation has failed, and a pair is issued.
unfoldable pub rotate : Services → Config → Text → ℕ → Action Response
unfolding attempt best_effort revoke_refresh_token get_by_id answer_session
rotate v config hash user =
    best_effort (revoke_refresh_token v hash)
      (attempt (get_by_id v user) (λ _. refuse 401) (answer_user v config))

-- The field of the body as the decoder leaves it, whose error is ignored, and the cookie, empty if
-- there is none.
unfoldable pub refresh : Services → Config → Text → Text → Action Response
unfolding attempt hash_token validate_refresh_token rotate
refresh v config body cookie s =
    let token = or_else body cookie in
    let hash = hash_token v token in
    if is_empty token
    then (failure 400, s)
    else attempt (validate_refresh_token v hash) (λ _. refuse 401) (rotate v config hash) s
