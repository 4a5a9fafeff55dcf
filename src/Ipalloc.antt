-- ===== src/Ipalloc.antt =====
-- internal/ipalloc/ipalloc.go: the first free host address of a subnet. An address is a number
-- below 2^32; parsing a prefix and printing an address are `net/netip`'s, and come with `Env`.
pub mod Broadcast
pub mod Free
use controlplane.Prelude.{
  ℕ, zero, suc, ◌+◌, ◌-◌, ◌/◌, ◌%◌, ◌^◌, Bool, true, false, not, ◌&&◌, Option, none, some, List, [],
  ◌∷◌, ltb, ◌==◌, if◌then◌else◌, Text, text_eq,
}
use controlplane.World.{
  Env, World, Result, ok, err, bad_cidr, exhausted, unavailable, Prefix, sql, begin_tx, commit_tx,
  advisory_lock, used_ips, Action, on_ok, query,
}
use controlplane.Table.{exists}

-- `prefix.Masked().Addr()`: the host bits are cleared.
pub masked : Prefix → ℕ
masked p = p.addr - p.addr % 2 ^ (32 - p.bits)

-- `bytes[3-i/8] |= 1 << (i % 8)`: byte 3 - i/8 of the big-endian address holds its bit i.
pub set_bit : ℕ → ℕ → ℕ
set_bit a i = if a / 2 ^ i % 2 == 0 then a + 2 ^ i else a

-- The loop of `lastAddr`, for `i` from 0 below the number of host bits.
pub set_bits : ℕ → ℕ → ℕ
unfolding set_bit
set_bits zero a = a
set_bits (suc i) a = set_bit (set_bits i a) i

pub last_addr : ℕ → ℕ → ℕ
unfolding set_bits
last_addr network bits = set_bits (32 - bits) network

-- `used[s]`
unfoldable pub in_use : Text → List Text → Bool
unfolding exists
in_use s used = exists (text_eq s) used

-- The loop of `Next`. A candidate of 2^32 and above stands for the zero `Addr`, which is invalid.
pub next_from : Env → ℕ → ℕ → ℕ → List Text → Option Text
unfolding in_use
next_from env zero candidate broadcast used = none
next_from env (suc fuel) candidate broadcast used =
    let rest = next_from env fuel (candidate + 1) broadcast used in
    if ltb candidate 4294967296 && ltb candidate broadcast
    then (if not (in_use (env.show_addr candidate) used)
        then some (env.show_addr candidate)
        else rest)
    else none

-- The candidates stay below the broadcast address, which is fuel enough.
abbrev pub next_in : Env → Prefix → List Text → Result Text
next_in env p used =
    let network = masked p in
    let broadcast = last_addr network p.bits in
    elim (next_from env broadcast (network + 2) broadcast used) [
      | none ↦ err exhausted
      | some s ↦ ok s
    ]

-- The checks on a parsed prefix: there is one, and it is IPv4.
abbrev pub if_ipv4 : {A : Type 0} → Option Prefix → (Prefix → A) → A → A
if_ipv4 none good bad = bad
if_ipv4 (some p) good bad = if p.is4 then good p else bad

abbrev pub with_prefix : {A : Type 0} → Env → Text → (Prefix → A) → A → A
with_prefix env cidr = if_ipv4 (env.parse_prefix cidr)

unfoldable pub next : Env → Text → List Text → Result Text
unfolding next_from masked last_addr
next env cidr used = with_prefix env cidr (λ p. next_in env p used) (err bad_cidr)

-- `pgx.BeginTxFunc` commits what was done without an error; an error rolls it back, and there is nothing
-- to undo.
unfoldable pub commit : Env → Result Text → Action (Result Text)
unfolding on_ok query
commit env (err e) w = (err e, w)
commit env (ok addr) w =
    on_ok (query {A = Unit {0}} env commit_tx (λ _. tt)) (λ _ w'. (ok addr, w')) w

-- The transaction: its begin, the lock, the addresses that `list_used` reads, the choice, the commit.
abbrev pub in_transaction : Env → Text → (World → List Text) → Action (Result Text)
in_transaction env cidr list_used = on_ok (query {A = Unit {0}} env begin_tx (λ _. tt)) λ _.
    on_ok (query {A = Unit {0}} env advisory_lock (λ _. tt))
      λ _. on_ok (query env used_ips list_used) λ used w. commit env (next env cidr used) w

unfoldable pub allocate : Env → Text → (World → List Text) → Action (Result Text)
allocate env cidr list_used w =
    with_prefix env cidr (λ _. in_transaction env cidr list_used w) (err bad_cidr, w)
