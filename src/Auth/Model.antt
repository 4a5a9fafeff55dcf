-- ===== src/Auth/Model.antt =====
-- The state of internal/auth and internal/user: the tables users, revoked_tokens and refresh_tokens,
-- the login limiter, and the history of the calls. `Services` answers what is not of the program:
-- the database server's failures, the clock, the random numbers, bcrypt, SHA-256, the JWT library,
-- the standard library's address parser and text functions. Times are in seconds.
use controlplane.Prelude.{ℕ, Bool, Option, List, ◌∷◌, Text, if◌then◌else◌}
use controlplane.World.{Result, ok, err, unavailable, Error}
use controlplane.Auth.Limiter.{Limiter}

pub record User : Type 0 where
  pub id : ℕ
  pub email : Text
  pub password_hash : Text
  pub display_name : Text

pub record RevokedToken : Type 0 where
  pub jti : Text
  pub user_id : ℕ
  pub expires_at : ℕ

pub record RefreshToken : Type 0 where
  pub user_id : ℕ
  pub token_hash : Text
  pub expires_at : ℕ
  pub revoked_at : Option ℕ

pub data Statement : Type 0 where
  user_by_id user_by_email user_update_password user_insert : Statement
  revoked_insert revoked_exists revoked_cleanup : Statement
  refresh_insert refresh_validate refresh_revoke refresh_revoke_all refresh_cleanup : Statement

pub data Call : Type 0 where
  sql : Statement → Call
  hash_password compare_password new_jti random_bytes read_clock : Call

pub record State : Type 0 where
  -- Oldest first, the order of `ORDER BY created_at`.
  pub users : List User
  pub revoked : List RevokedToken
  pub refresh : List RefreshToken
  pub limiter : Limiter
  pub trace : List Call

-- `jwt.MapClaims`, as far as the program reads it; a claim of another type is not there.
pub record Claims : Type 0 where
  pub sub : Option Text
  pub email : Option Text
  pub jti : Option Text
  pub exp : Option ℕ
  pub iat : Option ℕ

pub record Services : Type 0 where
  pub fails : List Call → Bool
  pub now : List Call → ℕ
  -- A generated user id, a generated jti, 32 random bytes in hexadecimal.
  pub fresh_id : List Call → ℕ
  pub fresh_jti : List Call → Text
  pub fresh_secret : List Call → Text
  -- SHA-256 in hexadecimal; bcrypt, which salts.
  pub sha256 : Text → Text
  pub bcrypt : List Call → Text → Text
  pub bcrypt_matches : Text → Text → Bool
  -- `mail.ParseAddress`, `strings.TrimSpace`, `strings.ToLower`, SQL `lower`.
  pub parse_address : Text → Option Text
  pub trim_space : Text → Text
  pub to_lower : Text → Text
  pub sql_lower : Text → Text
  -- `SignedString` with HS256. `jwt.Parse` at a time, which asks for the key of a token that is
  -- signed with HMAC, or not, and checks the signature and the expiry.
  pub sign : Text → Claims → Option Text
  pub parse_jwt : ℕ → (Bool → Option Text) → Text → Option Claims
  pub show_uuid : ℕ → Text
  pub parse_uuid : Text → Option ℕ

-- The fields of `Handler` that do not change.
pub record Config : Type 0 where
  pub jwt_secret : Text
  pub registration_token : Text
  pub cookie_secure : Bool

abbrev pub Action : Type 0 → Type 0
Action A = State → A × State

abbrev pub log : Call → State → State
log c s = record s { trace = c ∷ s.trace }

-- A statement that reads; a statement that writes.
unfoldable pub query : {A : Type 0} → Services → Statement → (State → A) → Action (Result A)
query v c f s =
    let s' = log (sql c) s in (if v.fails s'.trace then err unavailable else ok (f s'), s')

unfoldable pub exec : Services → Statement → (State → State) → Action (Result (Unit {0}))
exec v c f s =
    let s' = log (sql c) s in if v.fails s'.trace then (err unavailable, s') else (ok tt, f s')

-- `if err != nil { … }`, and then the rest.
unfoldable pub attempt :
    {A B : Type 0} → Action (Result A) → (Error → Action B) → (A → Action B) → Action B
attempt m bad good s = let (r, s') = m s in elim r [ ok a ↦ good a s' | err e ↦ bad e s' ]

-- An error that is logged only.
unfoldable pub best_effort : {B : Type 0} → Action (Result (Unit {0})) → Action B → Action B
unfolding attempt
best_effort m k = attempt m (λ _. k) λ _. k
