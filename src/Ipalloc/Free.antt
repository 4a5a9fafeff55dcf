-- ===== src/Ipalloc/Free.antt =====
-- What `Next` returns: the first address of the host range that is not taken, or an error when
-- every one is.
use controlplane.Prelude.{
  ℕ, zero, suc, ◌+◌, ◌-◌, ◌^◌, ◌≤◌, ◌<◌, ◌≡◌, refl, true, false, Option, none, some, List, arith,
  Text, Bool-cases, Option-cases, lt→ltb, ge→ltb, &&-false, ltb, subst, inl, inr,
}
use native.Mathlib.Decide.{ℕ_discrete, dec_lt}
use controlplane.World.{Env, Prefix, Result, ok, err, bad_cidr, exhausted}
use controlplane.Ipalloc.{masked, last_addr, in_use, next_from, next, next_in, if_ipv4}
use controlplane.Ipalloc.Broadcast.{last_addr_lem, masked-fits}

-- Every address from `low` below `high` is taken.
abbrev pub AllUsed : Env → List Text → ℕ → ℕ → Type 0
AllUsed env used low high = (a : ℕ) → low ≤ a → a < high → in_use (env.show_addr a) used ≡ true

-- `a` is the first address from `low` below `high` that is not taken.
abbrev pub IsFirstFree : Env → List Text → ℕ → ℕ → ℕ → Type 0
IsFirstFree env used low high a =
    (low ≤ a) × (a < high) × (in_use (env.show_addr a) used ≡ false) × AllUsed env used low a

-- The outcome of a search that tries each address from `low` below `high` in turn.
abbrev pub Searched : Env → List Text → ℕ → ℕ → Option Text → Type 0
Searched env used low high none = AllUsed env used low high
Searched env used low high (some s) =
    (a : ℕ) × (s ≡ env.show_addr a) × IsFirstFree env used low high a

-- One address that is taken, and then a search from the next one.
Searched-skip :
    (env : Env) (used : List Text) (low high : ℕ)
    → in_use (env.show_addr low) used ≡ true
    → (o : Option Text) → Searched env used (low + 1) high o
    → Searched env used low high o
Searched-skip env used low high h none rest = below high rest
  where
    below : (top : ℕ) → AllUsed env used (low + 1) top → AllUsed env used low top
    below top r a p q = elim (ℕ_discrete low a) [
      | yes e ↦ subst (λ x. in_use (env.show_addr x) used ≡ true) e h
      | no d ↦ r a (omega arith) q
    ]
Searched-skip env used low high h (some s) (a, e, (p, q, free, rest)) =
    (a, e, (omega arith, q, free, below a rest))
  where
    below : (top : ℕ) → AllUsed env used (low + 1) top → AllUsed env used low top
    below top r b p q = elim (ℕ_discrete low b) [
      | yes e ↦ subst (λ x. in_use (env.show_addr x) used ≡ true) e h
      | no d ↦ r b (omega arith) q
    ]

-- With fuel for every address below the broadcast address the search is complete.
pub next_from-Searched :
    (env : Env) (fuel candidate broadcast : ℕ) (used : List Text)
    → broadcast ≤ fuel + candidate
    → broadcast ≤ 4294967296
    → Searched env used candidate broadcast (next_from env fuel candidate broadcast used)
unfolding next_from
next_from-Searched env zero c b used f r = λ a p q. absurd (omega arith)
next_from-Searched env (suc fuel) c b used f r = elim (dec_lt c b) [
  | no high ↦
      rw (ge→ltb c b (omega arith), &&-false (ltb c 4294967296)) (λ a p q. absurd (omega arith))
  | yes low ↦
      rw (lt→ltb c 4294967296 (omega arith), lt→ltb c b low)
        (elim (Bool-cases (in_use (env.show_addr c) used)) [
          | inl taken ↦ rw taken (
              Searched-skip env used c b taken _
                (next_from-Searched env fuel (c + 1) b used (omega arith) r))
          | inr free ↦ rw free (c, refl, (omega arith, low, free, λ a p q. absurd (omega arith)))
        ])
]

-- The addresses from `low` below `high` are the host range of a subnet: without the network address,
-- the one after it and the broadcast address.
abbrev pub host_low : Prefix → ℕ
host_low p = masked p + 2

abbrev pub host_high : Prefix → ℕ
host_high p = masked p + 2 ^ (32 - p.bits) - 1

abbrev pub NextOf : Env → List Text → Prefix → Result Text → Type 0
NextOf env used p (ok s) =
    (a : ℕ) × (s ≡ env.show_addr a) × IsFirstFree env used (host_low p) (host_high p) a
NextOf env used p (err e) = (e ≡ exhausted) × AllUsed env used (host_low p) (host_high p)

pub next_in-NextOf :
    (env : Env) (used : List Text) (p : Prefix)
    → p.addr < 4294967296
    → NextOf env used p (next_in env p used)
next_in-NextOf env used p small = finish _ (
    next_from-Searched env top (host_low p) top used (omega arith)
      (omega (arith, last_addr_lem p, masked-fits p small)))
  where
    top : ℕ
    top = last_addr (masked p) p.bits

    same : host_high p ≡ top
    same = omega (arith, last_addr_lem p)

    finish :
        (o : Option Text)
        → Searched env used (host_low p) top o
        → NextOf env used p (elim o [ none ↦ err exhausted | some s ↦ ok s ])
    finish none h = rw same (refl, h)
    finish (some s) h = rw same h

-- `Next` on a subnet of IPv4 gives the first host address that is not taken, or fails with
-- `exhausted` and every host address is taken.
pub next-NextOf :
    (env : Env) (cidr : Text) (used : List Text) (p : Prefix)
    → env.parse_prefix cidr ≡ some p
    → p.is4 ≡ true
    → p.addr < 4294967296
    → NextOf env used p (next env cidr used)
unfolding next
next-NextOf env cidr used p parsed four small =
    rw (parsed, next, if_ipv4, four) (next_in-NextOf env used p small)

-- A text that is no IPv4 prefix is refused.
pub next-bad_cidr :
    (env : Env) (cidr : Text) (used : List Text)
    → ((p : Prefix) → env.parse_prefix cidr ≡ some p → p.is4 ≡ false)
    → next env cidr used ≡ err bad_cidr
unfolding next
next-bad_cidr env cidr used bad = elim (Option-cases (env.parse_prefix cidr)) [
  | inl e ↦ rw (e, next, if_ipv4)
  | inr (p, e) ↦ rw (e, next, if_ipv4, bad p e)
]
