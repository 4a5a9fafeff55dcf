-- ===== src/Tests/Auth.antt =====
-- Examples for internal/auth.
use controlplane.Prelude.{
  text_or_empty, ◌≤◌, ◌≡◌, refl, ap, true, false, none, some, [], ◌∷◌, codes, arith, length, Text,
  text_eq, strip_prefix, sym, Option,
}
use controlplane.Auth.Model.{Services, Config, State, User, Claims}
use controlplane.Auth.Limiter.{check, record_failure}
use controlplane.Auth.Limiter.Bound.{start, next, recorded, reachable-Fits}
use controlplane.Auth.Limiter.Lockout.{fail_all, check-fail_all}
use controlplane.Auth.Login.{refresh}
use controlplane.Auth.Session.{failure}
use controlplane.Auth.Serve.{logging_in, refreshing, serve_all}
use controlplane.Auth.Rotation.{refresh_once}
use controlplane.Auth.Account.{logout, LogoutRequest}
use controlplane.Auth.Gate.{jwt_auth}
use controlplane.Auth.Revocation.{logout-jwt_auth, is_denied}

abbrev address : Text
address = codes "a@b.c"

-- A failure recorded at second 7 of an empty limiter, then a sweep.
reachable-Fits_example : length (record_failure 7 address []) ≤ 10000
reachable-Fits_example =
    reachable-Fits (record_failure 7 address []) (next start (recorded 7 address []))

check-fail_all_example :
    check 60 address (fail_all (50 ∷ 40 ∷ 30 ∷ 20 ∷ 10 ∷ []) address [])
    ≡ (false, fail_all (50 ∷ 40 ∷ 30 ∷ 20 ∷ 10 ∷ []) address [])
check-fail_all_example =
    check-fail_all 60 50 (40 ∷ 30 ∷ 20 ∷ 10 ∷ []) address [] (omega arith) (omega arith)

abbrev some_claims : Claims
some_claims = record {
  sub = some (codes "5");
  email = none;
  jti = some (codes "j");
  exp = some 900;
  iat = some 0;
}

abbrev services : Services
services = record {
  fails = λ _. false;
  now = length;
  fresh_id = length;
  fresh_jti = λ h. length h ∷ [];
  fresh_secret = λ h. 1 ∷ length h ∷ [];
  sha256 = λ t. t;
  bcrypt = λ _ t. t;
  bcrypt_matches = λ _ _. true;
  parse_address = λ t. some t;
  trim_space = λ t. t;
  to_lower = λ t. t;
  sql_lower = λ t. t;
  sign = λ _ _. some (codes "jwt");
  parse_jwt = λ _ _ _. some some_claims;
  show_uuid = λ n. n ∷ [];
  parse_uuid = λ _. some 5;
}

abbrev config : Config
config = record { jwt_secret = codes "s"; registration_token = []; cookie_secure = true }

abbrev a_user : User
a_user = record { id = 5; email = address; password_hash = codes "p"; display_name = [] }

-- One user with one refresh token.
abbrev signed_in : State
signed_in = record {
  users = a_user ∷ [];
  revoked = [];
  refresh = record { user_id = 5; token_hash = 0 ∷ []; expires_at = 100; revoked_at = none } ∷ [];
  limiter = [];
  trace = [];
}

refresh_once_example :
    (refresh services config (0 ∷ []) [] (
      serve_all services config
        (refreshing (0 ∷ []) [] ∷ logging_in none ∷ [])
        (refresh services config (0 ∷ []) [] signed_in).1)).0
    ≡ failure 401
unfolding refresh text_eq
refresh_once_example =
    refresh_once services config (0 ∷ []) [] signed_in
      (refreshing (0 ∷ []) [] ∷ logging_in none ∷ [])
      (λ h longer same. absurd (ground (arith, same))) refl refl

abbrev leaving : LogoutRequest
leaving = record {
  authorization = codes "Bearer jwt";
  access_cookie = none;
  body_token = [];
  refresh_cookie = [];
}

abbrev jti_of : Option Claims → Text
jti_of none = []
jti_of (some c) = text_or_empty c.jti

logout-jwt_auth_example :
    is_denied
      (jwt_auth services config (codes "Bearer jwt") none (
        serve_all services config
          (logging_in none ∷ [])
          (logout services config (some a_user) leaving signed_in).1)).0
    ≡ true
unfolding strip_prefix text_eq
logout-jwt_auth_example =
    logout-jwt_auth services config a_user leaving signed_in some_claims (logging_in none ∷ [])
      (codes "Bearer jwt") none refl refl refl refl (λ w later e. ap jti_of (sym e))
