-- ===== src/Auth/Session.antt =====
-- internal/auth/handler.go: responses, cookies and token pairs.
use controlplane.Prelude.{ℕ, ◌+◌, ◌*◌, Bool, true, Option, none, some, List, [], ◌∷◌, Text, String}
use controlplane.World.{Result, ok, err, unavailable, Error}
use controlplane.Auth.Model.{
  User, Services, Config, Claims, Action, log, attempt, new_jti, read_clock,
}
use controlplane.Auth.Tokens.{generate_refresh_token, hash_token, create_refresh_token}

abbrev pub access_token_expiration : ℕ
access_token_expiration = 15 * 60

abbrev pub refresh_token_expiry : ℕ
refresh_token_expiry = 30 * 24 * 3600

pub record UserView : Type 0 where
  pub id : ℕ
  pub email : Text
  pub display_name : Text

unfoldable pub to_user_view : User → UserView
to_user_view u = record { id = u.id; email = u.email; display_name = u.display_name }

pub record AuthResponse : Type 0 where
  pub token : Text
  pub refresh_token : Text
  pub expires_in : ℕ
  pub user : UserView

pub data SameSite : Type 0 where
  lax strict : SameSite

-- `MaxAge`: seconds, or -1.
pub data MaxAge : Type 0 where
  seconds : ℕ → MaxAge
  at_once : MaxAge

pub record Cookie : Type 0 where
  pub name : String
  pub value : Text
  pub path : String
  pub http_only : Bool
  pub secure : Bool
  pub same_site : SameSite
  pub max_age : MaxAge

pub data Response : Type 0 where
  failure : ℕ → Response
  session : ℕ → List Cookie → AuthResponse → Response
  profile : UserView → Response
  logged_out : List Cookie → Response

abbrev pub refuse : ℕ → Action Response
refuse code s = (failure code, s)

abbrev pub auth_cookie : String → String → SameSite → Config → Text → MaxAge → Cookie
auth_cookie name path site config value age = record {
  name = name;
  value = value;
  path = path;
  http_only = true;
  secure = config.cookie_secure;
  same_site = site;
  max_age = age;
}

abbrev pub access_cookie : Config → Text → MaxAge → Cookie
access_cookie = auth_cookie "access_token" "/" lax

abbrev pub refresh_cookie : Config → Text → MaxAge → Cookie
refresh_cookie = auth_cookie "refresh_token" "/api/v1/auth/" strict

unfoldable pub set_auth_cookies : Config → Text → Text → List Cookie
set_auth_cookies config access refresh =
    access_cookie config access (seconds access_token_expiration)
    ∷ refresh_cookie config refresh (seconds refresh_token_expiry)
    ∷ []

unfoldable pub clear_auth_cookies : Config → List Cookie
clear_auth_cookies config = access_cookie config [] at_once ∷ refresh_cookie config [] at_once ∷ []

-- The claims of a token for `u` with the jti that was generated and the time that was read.
abbrev pub claims_of : Services → User → Text → ℕ → Claims
claims_of v u jti now = record {
  sub = some (v.show_uuid u.id);
  email = some u.email;
  jti = some jti;
  exp = some (now + access_token_expiration);
  iat = some now;
}

abbrev pub or_unavailable : {A : Type 0} → Option A → Result A
or_unavailable none = err unavailable
or_unavailable (some a) = ok a

unfoldable pub generate_access_token : Services → Config → User → Action (Result Text)
generate_access_token v config u s =
    let s1 = log read_clock s in
    let s2 = log new_jti s1 in
    (
      or_unavailable
          (v.sign config.jwt_secret (claims_of v u (v.fresh_jti s2.trace) (v.now s1.trace))),
      s2,
    )

abbrev pub pair_of : User → Text → Text → AuthResponse
pair_of u access refresh = record {
  token = access;
  refresh_token = refresh;
  expires_in = access_token_expiration;
  user = to_user_view u;
}

abbrev pub pass_on : {A : Type 0} → Error → Action (Result A)
pass_on e s = (err e, s)

-- The refresh token is stored as its hash.
unfoldable pub store_pair : Services → User → Text → Text → Action (Result AuthResponse)
unfolding attempt create_refresh_token hash_token
store_pair v u access refresh s =
    attempt
      (create_refresh_token v u.id (hash_token v refresh) (v.now s.trace + refresh_token_expiry))
      pass_on (λ _ s'. (ok (pair_of u access refresh), s')) s

unfoldable pub issue_refresh : Services → User → Text → Action (Result AuthResponse)
unfolding attempt generate_refresh_token store_pair
issue_refresh v u access = attempt (generate_refresh_token v) pass_on (store_pair v u access)

unfoldable pub issue_token_pair : Services → Config → User → Action (Result AuthResponse)
unfolding attempt generate_access_token issue_refresh
issue_token_pair v config u = attempt (generate_access_token v config u) pass_on (issue_refresh v u)

-- The end of the handlers that log in: the pair in the body and in the cookies.
unfoldable pub answer_session : ℕ → Services → Config → User → Action Response
unfolding attempt issue_token_pair set_auth_cookies
answer_session code v config u =
    attempt (issue_token_pair v config u) (λ _. refuse 500)
      λ pair s. (session code (set_auth_cookies config pair.token pair.refresh_token) pair, s)
