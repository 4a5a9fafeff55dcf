-- ===== src/Crypto.antt =====
-- internal/crypto/crypto.go: AES-256-GCM with the nonce in front, in hexadecimal. The standard library's
-- encoding and cipher are parameters; `aes.NewCipher` takes every key of 32 bytes, and `cipher.NewGCM`
-- every AES block.
pub mod RoundTrip
use controlplane.Prelude.{
  ℕ, Option, none, some, Text, ◌++◌, ◌==◌, ltb, if◌then◌else◌, length, take, drop,
}

pub record Gcm : Type 0 where
  -- `hex.DecodeString` and `hex.EncodeToString`.
  pub decode_hex : Text → Option Text
  pub encode_hex : Text → Text
  -- `gcm.NonceSize`, `gcm.Seal` without its prefix and `gcm.Open`, with the key and the nonce.
  pub nonce_size : ℕ
  pub seal : Text → Text → Text → Text
  pub unseal : Text → Text → Text → Option Text

-- The key that both functions decode first.
abbrev pub checked_key : Text → Option Text
checked_key key = if length key == 32 then some key else none

abbrev pub key_of : Gcm → Text → Option Text
key_of g hex_key = elim (g.decode_hex hex_key) [ none ↦ none | some key ↦ checked_key key ]

-- `nonce` is what `rand.Reader` gives, if it does.
abbrev pub seal_with : Gcm → Text → Option Text → Text → Option Text
seal_with g key none plaintext = none
seal_with g key (some nonce) plaintext = some (g.encode_hex (nonce ++ g.seal key nonce plaintext))

unfoldable pub encrypt : Gcm → Option Text → Text → Text → Option Text
encrypt g nonce plaintext hex_key = elim (key_of g hex_key) [
  | none ↦ none
  | some key ↦ seal_with g key nonce plaintext
]

abbrev pub unseal_bytes : Gcm → Text → Option Text → Option Text
unseal_bytes g key none = none
unseal_bytes g key (some bytes) =
    if ltb (length bytes) g.nonce_size
    then none
    else g.unseal key (take g.nonce_size bytes) (drop g.nonce_size bytes)

unfoldable pub decrypt : Gcm → Text → Text → Option Text
decrypt g hex_ciphertext hex_key = elim (key_of g hex_key) [
  | none ↦ none
  | some key ↦ unseal_bytes g key (g.decode_hex hex_ciphertext)
]
