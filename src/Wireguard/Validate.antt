-- ===== src/Wireguard/Validate.antt =====
-- internal/wireguard/validate.go
use controlplane.Prelude.{
  ℕ, ◌/◌, ◌^◌, Bool, true, false, not, ◌&&◌, ◌||◌, Option, none, some, List, [], ◌∷◌, ◌++◌, ltb,
  ◌==◌, if◌then◌else◌, Text, is_empty, length,
}
use controlplane.World.{Prefix}
use controlplane.Wireguard.Model.{Services}

-- `strings.Split` on one byte: never empty.
unfoldable pub split_at : ℕ → Text → Text → List Text
split_at sep acc [] = acc ∷ []
split_at sep acc (c ∷ s) =
    let ended = acc ∷ split_at sep [] s in
    let longer = split_at sep (acc ++ c ∷ []) s in if c == sep then ended else longer

abbrev pub split : ℕ → Text → List Text
split sep = split_at sep []

-- `allowedSupernet.Contains`, for 10.10.0.0/16.
abbrev pub in_supernet : Prefix → Bool
in_supernet p = p.is4 && p.addr / 2 ^ 16 == 2570

abbrev pub supernet_bits : ℕ
supernet_bits = 16

-- The checks on one parsed part.
abbrev pub is_allowed_prefix : Option Prefix → Bool
is_allowed_prefix none = false
is_allowed_prefix (some p) =
    if p.bits == 0
    then false
    else if not (in_supernet p)
    then false
    else not (ltb p.bits supernet_bits)

-- The loop; an empty part is skipped.
unfoldable pub are_allowed : Services → List Text → Bool
are_allowed v [] = true
are_allowed v (part ∷ parts) =
    let cidr = v.trim_space part in
    let rest = are_allowed v parts in
    if is_empty cidr
    then rest
    else if is_allowed_prefix (v.env.parse_prefix cidr)
    then rest
    else false

-- `true` is a nil error. The byte 44 is the comma.
unfoldable pub validate_allowed_ips : Services → Text → Bool
unfolding are_allowed
validate_allowed_ips v s = are_allowed v (split 44 s)

abbrev pub is_key : Option Text → Bool
is_key none = false
is_key (some b) = length b == 32

unfoldable pub validate_public_key : Services → Text → Bool
validate_public_key v key = is_key (v.base64 key)

abbrev pub is_port : Option ℕ → Bool
is_port none = false
is_port (some port) = not (ltb port 1 || ltb 65535 port)

abbrev pub is_host_port : Services → Option (Text × Text) → Bool
is_host_port v none = false
is_host_port v (some (host, port)) = not (is_empty host) && is_port (v.atoi port)

-- A negative number is no port either.
unfoldable pub validate_endpoint : Services → Text → Bool
validate_endpoint v endpoint = is_host_port v (v.split_host_port endpoint)
