-- ===== src/Crypto/RoundTrip.antt =====
-- `Decrypt` undoes `Encrypt`.
use controlplane.Prelude.{
  ℕ, ◌≤◌, ◌≡◌, refl, subst, ap, ◌∙◌, false, Option, none, some, [], ◌∷◌, Text, ◌++◌, ltb, length,
  take, drop, arith, if◌then◌else◌,
}
use controlplane.Crypto.{Gcm, checked_key, key_of, seal_with, encrypt, decrypt, unseal_bytes}

-- What the standard library documents.
pub record Documented (g : Gcm) : Type 0 where
  pub hex : (bytes : Text) → g.decode_hex (g.encode_hex bytes) ≡ some bytes
  pub opens :
      (key nonce plaintext : Text)
      → g.unseal key nonce (g.seal key nonce plaintext) ≡ some plaintext

take-append : (s t : Text) → take (length s) (s ++ t) ≡ s
take-append [] t = refl
take-append (c ∷ s) t = ap (λ r. c ∷ r) (take-append s t)

drop-append : (s t : Text) → drop (length s) (s ++ t) ≡ t
drop-append [] t = refl
drop-append (c ∷ s) t = drop-append s t

length-le-append : (s t : Text) → length s ≤ length (s ++ t)
length-le-append [] t = omega arith
length-le-append (c ∷ s) t = omega (arith, length-le-append s t)

long_enough : (s t : Text) → ltb (length (s ++ t)) (length s) ≡ false
long_enough s t = ground (arith, length-le-append s t)

-- The bytes that `Seal` appended are opened with the nonce in front of them.
unseal-seal :
    (g : Gcm)
    → Documented g
    → (key nonce plaintext : Text) → length nonce ≡ g.nonce_size
    → unseal_bytes g key (some (nonce ++ g.seal key nonce plaintext)) ≡ some plaintext
unseal-seal g documented key nonce plaintext size = subst Opened size opened
  where
    bytes : Text
    bytes = nonce ++ g.seal key nonce plaintext

    Opened : ℕ → Type 0
    Opened n =
        (if ltb (length bytes) n then none else g.unseal key (take n bytes) (drop n bytes))
        ≡ some plaintext

    opened : Opened (length nonce)
    opened =
        rw
          (
            long_enough nonce (g.seal key nonce plaintext),
            take-append nonce (g.seal key nonce plaintext),
            drop-append nonce (g.seal key nonce plaintext),
          )
          (documented.opens key nonce plaintext)

-- With a key of 32 bytes in hexadecimal and a nonce of the cipher's size, `Encrypt` gives a text that `Decrypt`
-- turns back into the plaintext, if the hexadecimal encoding and AES-GCM undo themselves as documented.
pub decrypt-encrypt :
    (g : Gcm)
    → Documented g
    → (hex_key key nonce plaintext : Text) → g.decode_hex hex_key ≡ some key
    → length key ≡ 32
    → length nonce ≡ g.nonce_size
    → (sealed : Text) × (encrypt g (some nonce) plaintext hex_key ≡ some sealed)
      × (decrypt g sealed hex_key ≡ some plaintext)
unfolding encrypt decrypt
decrypt-encrypt g documented hex_key key nonce plaintext decoded long size = (
  g.encode_hex (nonce ++ g.seal key nonce plaintext),
  ap
      (λ k. elim k as (λ _. Option Text) [
        | none ↦ none
        | some k' ↦ seal_with g k' (some nonce) plaintext
      ])
      valid,
  ap
        (λ k. elim k as (λ _. Option Text) [
          | none ↦ none
          | some k' ↦
              unseal_bytes g k' (g.decode_hex (g.encode_hex (nonce ++ g.seal key nonce plaintext)))
        ])
        valid
      ∙ ap (unseal_bytes g key) (documented.hex (nonce ++ g.seal key nonce plaintext))
      ∙ unseal-seal g documented key nonce plaintext size,
)
  where
    valid : key_of g hex_key ≡ some key
    valid =
        ap (λ o. elim o as (λ _. Option Text) [ none ↦ none | some k ↦ checked_key k ]) decoded
        ∙ rw long refl
