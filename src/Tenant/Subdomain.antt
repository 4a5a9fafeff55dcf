-- ===== src/Tenant/Subdomain.antt =====
-- internal/tenant/lifecycle.go: `ValidateSubdomain`. The pattern is matched by a function over the
-- bytes; Tenant/Pattern proves that it decides the pattern of the source.
use controlplane.Prelude.{
  ℕ, Bool, false, not, ◌&&◌, ◌||◌, Option, none, some, List, [], ◌∷◌, Text, String, codes, leb, ltb,
  ◌==◌, if◌then◌else◌, length, text_eq, map,
}
use controlplane.Table.{exists}
use controlplane.World.{Error, Status}

pub data FailureKind : Type 0 where
  internal invalid conflict : FailureKind

-- `LifecycleError`: the message, the status that it quotes if it does, and the cause.
pub record LifecycleError : Type 0 where
  pub kind : FailureKind
  pub message : String
  pub quoted : Option Status
  pub cause : Option Error

abbrev pub failure : FailureKind → String → Option Error → LifecycleError
failure kind message cause = record { kind = kind; message = message; quoted = none; cause = cause }

-- `[a-z0-9]` and `[a-z0-9-]`
unfoldable pub is_alnum : ℕ → Bool
is_alnum c = leb b'a' c && leb c b'z' || leb b'0' c && leb c b'9'

unfoldable pub is_label : ℕ → Bool
unfolding is_alnum
is_label c = is_alnum c || c == b'-'

-- `[a-z0-9-]*[a-z0-9]$`
unfoldable pub ends_label : Text → Bool
ends_label [] = false
ends_label (c ∷ []) = is_alnum c
ends_label (c ∷ d ∷ s) = is_label c && ends_label (d ∷ s)

-- `^[a-z0-9][a-z0-9-]*[a-z0-9]$`
unfoldable pub matches_subdomain : Text → Bool
unfolding ends_label
matches_subdomain [] = false
matches_subdomain (c ∷ s) = is_alnum c && ends_label s

abbrev pub reserved_subdomains : List String
reserved_subdomains =
    "www" ∷ "api" ∷ "admin" ∷ "app" ∷ "mail" ∷ "smtp" ∷ "ftp" ∷ "ns1" ∷ "ns2" ∷ "cdn" ∷ "static"
    ∷ "assets" ∷ "media" ∷ []

unfoldable pub is_reserved : Text → Bool
unfolding exists text_eq
is_reserved s = exists (text_eq s) (map codes reserved_subdomains)

unfoldable pub validate_subdomain : Text → Option LifecycleError
validate_subdomain s =
    if ltb 63 (length s) || not (matches_subdomain s)
    then (some (
        failure invalid "invalid subdomain: must be lowercase alphanumeric with hyphens, 2-63 chars"
          none))
    else if is_reserved s
    then some (failure invalid "subdomain is reserved" none)
    else none
