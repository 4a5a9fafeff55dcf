-- ===== src/Ipalloc/Broadcast.antt =====
-- The broadcast address is the last of the subnet.
use native.Mathlib.Nat.{mul-add-div, div-eq_of_lt, div-add-mod, pow-suc, mul-le-mul_left}
use native.Mathlib.Decide.{dec_lt}
use Prim.Native.Nat.add
use controlplane.Prelude.{ℕ, zero, suc, ◌+◌, ◌-◌, ◌*◌, ◌/◌, ◌^◌, ◌<◌, ◌≤◌, ◌≡◌, ap, sym, ◌∙◌, arith}
use controlplane.World.{Prefix}
use controlplane.Ipalloc.{set_bit, set_bits, last_addr, masked}

pub pow_pos : (n : ℕ) → 0 < 2 ^ n
pow_pos zero = omega arith
pow_pos (suc n) = omega (arith, pow-suc 2 n, pow_pos n)

-- The quotient by `m` of a number that is `m - 1` above a multiple of `m`.
div-below : (m q : ℕ) → 0 < m → (m * q + (m - 1)) / m ≡ q
div-below m q h =
    rw (mul-add-div h q (m - 1), div-eq_of_lt {n = m - 1} {m = m} (omega arith)) (omega arith)

set_bit-clear :
    (n q : ℕ) → set_bit (2 ^ n * (2 * q) + (2 ^ n - 1)) n ≡ 2 ^ n * (2 * q) + (2 ^ n - 1) + 2 ^ n
unfolding set_bit
set_bit-clear n q = rw (div-below (2 ^ n) (2 * q) (pow_pos n)) (ground arith)

regroup : (n q : ℕ) → 2 ^ suc n * q ≡ 2 ^ n * (2 * q)
regroup n q = omega (arith, ap (λ (t : ℕ). t * q) (pow-suc 2 n))

-- Setting the lowest `n` bits of a multiple of 2^n reaches the last number before the next one.
pub set_bits_lem : (n q : ℕ) → set_bits n (2 ^ n * q) ≡ 2 ^ n * q + (2 ^ n - 1)
unfolding set_bits
set_bits_lem zero q = omega arith
set_bits_lem (suc n) q =
    rw (regroup n q, set_bits_lem n (2 * q), set_bit-clear n q)
      (omega (arith, pow-suc 2 n, pow_pos n))

-- A masked address is a multiple of the size of its subnet.
pub masked_multiple : (p : Prefix) → masked p ≡ 2 ^ (32 - p.bits) * (p.addr / 2 ^ (32 - p.bits))
unfolding masked
masked_multiple p = omega (arith, div-add-mod p.addr (2 ^ (32 - p.bits)))

pub last_addr_lem : (p : Prefix) → last_addr (masked p) p.bits + 1 ≡ masked p + 2 ^ (32 - p.bits)
unfolding last_addr
last_addr_lem p =
    rw (masked_multiple p, set_bits_lem (32 - p.bits) (p.addr / 2 ^ (32 - p.bits)))
      (omega (arith, pow_pos (32 - p.bits)))

pow_add : (m n : ℕ) → 2 ^ (m + n) ≡ 2 ^ m * 2 ^ n
pow_add zero n = rw add.zero (omega arith)
pow_add (suc m) n = rw (add.suc, pow-suc 2 (m + n), pow-suc 2 m, pow_add m n) (omega arith)

block-le : (m c q : ℕ) → m * q < m * c → m * q + m ≤ m * c
block-le m c q h = elim (dec_lt q c) [
  | yes below ↦ omega (arith, mul-le-mul_left {m = q + 1} {n = c} m (omega arith))
  | no above ↦ absurd (omega (arith, mul-le-mul_left {m = c} {n = q} m (omega arith)))
]

pow-split : (k : ℕ) → k ≤ 32 → 2 ^ k * 2 ^ (32 - k) ≡ 4294967296
pow-split k h =
    let e : k + (32 - k) ≡ 32 = omega arith in sym (pow_add k (32 - k)) ∙ ap (λ (t : ℕ). 2 ^ t) e

-- A subnet of an address below 2^32 ends there.
pub masked-fits : (p : Prefix) → p.addr < 4294967296 → masked p + 2 ^ (32 - p.bits) ≤ 4294967296
masked-fits p h =
    let k : ℕ = 32 - p.bits in
    let split = pow-split k (omega arith) in
    let low : 2 ^ k * (p.addr / 2 ^ k) < 2 ^ k * 2 ^ (32 - k) =
      omega (arith, split, div-add-mod p.addr (2 ^ k)) in
    omega (arith, masked_multiple p, split, block-le (2 ^ k) (2 ^ (32 - k)) (p.addr / 2 ^ k) low)
