-- ===== src/Auth/Gate.antt =====
-- internal/auth/middleware.go: `JWTAuth`.
use controlplane.Prelude.{
  is_empty, text_or_empty, ℕ, Option, none, some, Text, codes, if◌then◌else◌, strip_prefix,
}
use controlplane.Auth.Model.{User, Services, Config, Claims, Action, log, attempt, read_clock}
use controlplane.Auth.Users.{get_by_id}
use controlplane.Auth.Tokens.{is_revoked}
use controlplane.Auth.Account.{parsed}

-- The request goes on with the user in its context, or is answered with a status.
pub data Verdict : Type 0 where
  denied : ℕ → Verdict
  admitted : User → Verdict

abbrev pub deny : ℕ → Action Verdict
deny code s = (denied code, s)

-- The header goes before the cookie.
abbrev pub request_token : Text → Option Text → Text
request_token header cookie = elim (strip_prefix (codes "Bearer ") header) [
  | none ↦ text_or_empty cookie
  | some t ↦ t
]

abbrev pub admit : Option User → Action Verdict
admit none s = (denied 401, s)
admit (some u) s = (admitted u, s)

unfoldable pub look_up : Services → Option ℕ → Action Verdict
unfolding attempt get_by_id
look_up v none = deny 401
look_up v (some id) = attempt (get_by_id v id) (λ _. deny 500) admit

unfoldable pub check_subject : Services → Option Text → Action Verdict
unfolding look_up
check_subject v none = deny 401
check_subject v (some sub) = look_up v (v.parse_uuid sub)

-- `tokenStore` is never nil: internal/server/server.go always makes one.
unfoldable pub check_claims : Services → Option Claims → Action Verdict
unfolding attempt is_revoked check_subject
check_claims v none = deny 401
check_claims v (some claims) =
    let jti = text_or_empty claims.jti in
    if is_empty jti
    then check_subject v claims.sub
    else attempt (is_revoked v jti) (λ _. deny 500)
        λ r. if r then deny 401 else check_subject v claims.sub

unfoldable pub jwt_auth : Services → Config → Text → Option Text → Action Verdict
unfolding check_claims
jwt_auth v config header cookie s =
    let token = request_token header cookie in
    let s' = log read_clock s in
    if is_empty token then (denied 401, s) else check_claims v (parsed v config token s') s'
