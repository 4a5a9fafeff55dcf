-- ===== src/Tenant/Addresses.antt =====
-- The addresses that `GetNextAvailableIP` of internal/tenant/store.go hands out.
use controlplane.Prelude.{
  text_or_empty, ℕ, ◌<◌, ◌≤◌, ◌∙◌, ◌≡◌, refl, ap, Bool, true, false, ◌&&◌, Option, some, List, [],
  ◌∷◌, map, Text, text_eq, arith, Bool-cases, inl, inr, ◌||◌, All, if◌then◌else◌, subst, sym,
}
use controlplane.Table.{select, select, exists}
use controlplane.World.{
  World, Env, Tenant, Statement, Action, Prefix, Result, ok, err, sql, begin_tx, commit_tx,
  advisory_lock, used_ips, History, query, on_ok, log, exhausted,
}
use controlplane.Tenant.Store.{holds_ip, used_addresses, get_next_available_ip}
use controlplane.Ipalloc.{commit, allocate, in_transaction, next, in_use, if_ipv4}
use controlplane.Ipalloc.Free.{AllUsed, NextOf, next-NextOf, host_low, host_high}

if_ipv4-good :
    {A : Type 0} (o : Option Prefix) (p : Prefix) (good : Prefix → A) (bad : A)
    → o ≡ some p
    → p.is4 ≡ true
    → if_ipv4 o good bad ≡ good p
if_ipv4-good {A} o p good bad parsed four =
    ap (λ q. if_ipv4 q good bad) parsed ∙ ap (λ b. if b then good p else bad) four

on_ok-ok :
    {A B : Type 0} (m : Action (Result A)) (f : A → Action (Result B)) (a : A) (w v : World)
    → m w ≡ (ok a, v)
    → on_ok m f w ≡ f a v
unfolding on_ok
on_ok-ok {A} {B} m f a w v e =
    ap (λ r. elim r.0 as (λ _. Result B × World) [ ok x ↦ f x r.1 | err e ↦ (err e, r.1) ]) e

query-ok :
    {A : Type 0} (env : Env) (c : Statement) (f : World → A) (w : World)
    → env.fails (sql c ∷ w.trace) ≡ false
    → query env c f w ≡ (ok (f (log (sql c) w)), log (sql c) w)
unfolding query
query-ok env c f w answers = rw answers refl

-- The database answers the statements of the transaction.
abbrev pub Answers : Env → Type 0
Answers env =
    ((h : History) → env.fails (sql begin_tx ∷ h) ≡ false)
    × ((h : History) → env.fails (sql advisory_lock ∷ h) ≡ false)
    × ((h : History) → env.fails (sql used_ips ∷ h) ≡ false)
    × ((h : History) → env.fails (sql commit_tx ∷ h) ≡ false)

commit-same :
    (env : Env) (r : Result Text) (w : World)
    → env.fails (sql commit_tx ∷ w.trace) ≡ false
    → ((commit env r w).0 ≡ r) × ((commit env r w).1.tenants ≡ w.tenants)
unfolding commit
commit-same env (err e) w answers = (refl, refl)
commit-same env (ok addr) w answers =
    let done =
      on_ok-ok {A = Unit {0}} (query env commit_tx (λ _. tt)) (λ _ w'. (ok addr, w')) tt w
        (log (sql commit_tx) w) (query-ok {A = Unit {0}} env commit_tx (λ _. tt) w answers) in
    (ap (λ r. r.0) done, ap (λ r. r.1.tenants) done)

begun : World → World
begun w = log (sql advisory_lock) (log (sql begin_tx) w)

chosen :
    (env : Env) (cidr : Text) (w : World)
    → Answers env
    → in_transaction env cidr used_addresses w
      ≡ commit env (next env cidr (used_addresses w)) (log (sql used_ips) (begun w))
unfolding used_addresses begun
chosen env cidr w (begins, locks, lists, commits) =
    on_ok-ok {A = Unit {0}} _ _ tt w _
      (query-ok {A = Unit {0}} env begin_tx (λ _. tt) w (begins w.trace))
    ∙ on_ok-ok {A = Unit {0}} _ _ tt (log (sql begin_tx) w) _
        (query-ok {A = Unit {0}} env advisory_lock (λ _. tt) (log (sql begin_tx) w) (locks _))
    ∙ on_ok-ok _ _ (used_addresses w) _ _ (query-ok env used_ips used_addresses (begun w) (lists _))

-- With the database answering, the allocation is the choice from the addresses in the table, which stays.
allocate-next :
    (env : Env) (cidr : Text) (p : Prefix) (w : World)
    → Answers env
    → env.parse_prefix cidr ≡ some p
    → p.is4 ≡ true
    → ((get_next_available_ip env cidr w).0 ≡ next env cidr (used_addresses w))
      × ((get_next_available_ip env cidr w).1.tenants ≡ w.tenants)
unfolding get_next_available_ip allocate begun
allocate-next env cidr p w answers parsed four =
    let whole =
      if_ipv4-good (env.parse_prefix cidr) p _ _ parsed four ∙ chosen env cidr w answers in
    let (same, kept) =
      commit-same env (next env cidr (used_addresses w)) (log (sql used_ips) (begun w))
        (answers.3 _) in
    (ap (λ r. r.0) whole ∙ same, ap (λ r. r.1.tenants) whole ∙ kept)

-- The address that is chosen: in the host range, and of no tenant that is not deleted.
abbrev pub IsFree : Env → Prefix → List Tenant → Text → Type 0
IsFree env p rows s =
    (a : ℕ) × (s ≡ env.show_addr a)
    × (host_low p ≤ a)
    × (a < host_high p)
    × All (λ t. holds_ip t && text_eq s (text_or_empty t.lxc_ip) ≡ false) rows

-- What an allocation from the subnet `p` returns: an address that is free, or `exhausted`, and then every
-- host address of the subnet is taken.
abbrev pub AllocationOf : Env → Prefix → World → Result Text → Type 0
AllocationOf env p w (ok s) = IsFree env p w.tenants s
AllocationOf env p w (err e) =
    (e ≡ exhausted) × AllUsed env (used_addresses w) (host_low p) (host_high p)

not_held :
    (s : Text) (rows : List Tenant)
    → in_use s (map (λ (t : Tenant). text_or_empty t.lxc_ip) (select holds_ip rows)) ≡ false
    → All (λ t. holds_ip t && text_eq s (text_or_empty t.lxc_ip) ≡ false) rows
unfolding in_use exists select
not_held s [] h = tt
not_held s (t ∷ rows) h = elim (Bool-cases (holds_ip t)) [
  | inl held ↦
      let both : (text_eq s (text_or_empty t.lxc_ip) || in_use s (texts (select holds_ip rows)))
          ≡ false =
        with_test true held in
      (ground arith, not_held s rows (ground arith))
  | inr free ↦ (ground arith, not_held s rows (with_test false free))
]
  where
    texts : List Tenant → List Text
    texts = map (λ (u : Tenant). text_or_empty u.lxc_ip)

    with_test :
        (b : Bool)
        → holds_ip t ≡ b
        → in_use s (texts (if b then t ∷ select holds_ip rows else select holds_ip rows)) ≡ false
    with_test b e =
        subst
          (λ b.
            in_use s (texts (if b then t ∷ select holds_ip rows else select holds_ip rows)) ≡ false)
          e h

to_AllocationOf :
    (env : Env) (p : Prefix) (w : World) (r : Result Text)
    → NextOf env (used_addresses w) p r
    → AllocationOf env p w r
unfolding used_addresses
to_AllocationOf env p w (ok s) (a, shown, (low, high, free, first)) = (
  a,
  shown,
  low,
  high,
  not_held s w.tenants (subst (λ x. in_use x (used_addresses w) ≡ false) (sym shown) free),
)
to_AllocationOf env p w (err e) h = h

-- An address that is handed out for an IPv4 subnet is in its host range, and no tenant that is not
-- deleted holds it; with none left the allocation fails. The database answers.
pub get_next_available_ip-AllocationOf :
    (env : Env) (cidr : Text) (p : Prefix) (w : World)
    → Answers env
    → env.parse_prefix cidr ≡ some p
    → p.is4 ≡ true
    → p.addr < 4294967296
    → AllocationOf env p w (get_next_available_ip env cidr w).0
get_next_available_ip-AllocationOf env cidr p w answers parsed four small =
    subst (AllocationOf env p w) (sym (allocate-next env cidr p w answers parsed four).0)
      (to_AllocationOf env p w _ (next-NextOf env cidr (used_addresses w) p parsed four small))

-- Two allocations, one after the other, give the same answer: the first records nothing that the second
-- could see. The text is an IPv4 prefix and the database answers.
pub get_next_available_ip-again :
    (env : Env) (cidr : Text) (p : Prefix) (w : World)
    → Answers env
    → env.parse_prefix cidr ≡ some p
    → p.is4 ≡ true
    → (get_next_available_ip env cidr (get_next_available_ip env cidr w).1).0
      ≡ (get_next_available_ip env cidr w).0
unfolding used_addresses
get_next_available_ip-again env cidr p w answers parsed four =
    let (first, kept) = allocate-next env cidr p w answers parsed four in
    let second =
      allocate-next env cidr p (get_next_available_ip env cidr w).1 answers parsed four in
    second.0
    ∙ ap (λ rows. next env cidr (map (λ t. text_or_empty t.lxc_ip) (select holds_ip rows))) kept
    ∙ sym first
