-- ===== src/Node/Choice.antt =====
-- The node that internal/node/store.go chooses for a new tenant.
use controlplane.Prelude.{
  ℕ, ◌-◌, ◌≤◌, ◌≡◌, refl, true, false, List, [], ◌∷◌, Option, none, some, arith, All, ltb,
  if◌then◌else◌, Bool-cases, ◌⊎◌, inl, inr,
}
use mathlib.Core.List.{Mem, mem-cons_self, mem-cons_of_mem}
use controlplane.Table.{select}
use controlplane.World.{World, Env, Node, ok, sql, node_least_loaded, query}
use controlplane.Node.Store.{get_least_loaded, freest, has_room}

abbrev pub free_ram : Node → ℕ
free_ram n = n.total_ram_mb - n.allocated_ram_mb

-- The row `n` has room, and no row with room has more memory free.
abbrev pub IsLeastLoaded : ℕ → List Node → Node → Type 0
IsLeastLoaded required rows n =
    Mem n rows
    × (has_room required n ≡ true)
    × All (λ m. (has_room required m ≡ false) ⊎ (free_ram m ≤ free_ram n)) rows

-- A row with room, or none if no row has room.
abbrev pub ChosenOf : ℕ → List Node → Option Node → Type 0
ChosenOf required rows none = All (λ m. has_room required m ≡ false) rows
ChosenOf required rows (some n) = IsLeastLoaded required rows n

abbrev Bound : ℕ → Node → Node → Type 0
Bound required n m = (has_room required m ≡ false) ⊎ (free_ram m ≤ free_ram n)

Bound-mono :
    (required : ℕ) (rows : List Node) (a b : Node)
    → free_ram a ≤ free_ram b
    → All (Bound required a) rows
    → All (Bound required b) rows
Bound-mono required [] a b le h = tt
Bound-mono required (r ∷ rows) a b le (here, there) = (
  elim here [ inl full ↦ inl full | inr below ↦ inr (omega arith) ],
  Bound-mono required rows a b le there,
)

All-Bound :
    (required : ℕ) (rows : List Node) (n : Node)
    → All (λ m. has_room required m ≡ false) rows
    → All (Bound required n) rows
All-Bound required [] n h = tt
All-Bound required (r ∷ rows) n (here, there) = (inl here, All-Bound required rows n there)

-- A row that has room before a choice from the others.
add_row :
    (required : ℕ) (n : Node) (rows : List Node) (o : Option Node)
    → has_room required n ≡ true
    → ChosenOf required rows o
    → ChosenOf required (n ∷ rows) (elim o as (λ _. Option Node) [
      | none ↦ some n
      | some m ↦
          if ltb (n.total_ram_mb - n.allocated_ram_mb) (m.total_ram_mb - m.allocated_ram_mb)
          then some m
          else some n
    ])
add_row required n rows none room none_else =
    (mem-cons_self, room, (inr (omega arith), All-Bound required rows n none_else))
add_row required n rows (some m) room (member, fits, most) =
    elim (Bool-cases (ltb (free_ram n) (free_ram m))) [
      | inl less ↦ rw less (mem-cons_of_mem n member, fits, (inr (ground arith), most))
      | inr more ↦ rw more (
        mem-cons_self,
        room,
        (inr (omega arith), Bound-mono required rows m n (ground arith) most),
      )
    ]

-- A row without room before it.
skip_row :
    (required : ℕ) (n : Node) (rows : List Node) (o : Option Node)
    → has_room required n ≡ false
    → ChosenOf required rows o
    → ChosenOf required (n ∷ rows) o
skip_row required n rows none full h = (full, h)
skip_row required n rows (some m) full (member, fits, most) =
    (mem-cons_of_mem n member, fits, (inl full, most))

freest-ChosenOf :
    (required : ℕ) (rows : List Node)
    → ChosenOf required rows (freest (select (has_room required) rows))
unfolding freest select
freest-ChosenOf required [] = tt
freest-ChosenOf required (n ∷ rows) =
    let rest = freest-ChosenOf required rows in
    elim (Bool-cases (has_room required n)) [
      | inl room ↦ rw room (add_row required n rows _ room rest)
      | inr full ↦ rw full (skip_row required n rows _ full rest)
    ]

-- If the database answers, the node for a new tenant is online with room for what is required, and no
-- such node has more memory free; there is none only if no node is online with room.
pub get_least_loaded-ChosenOf :
    (env : Env) (required : ℕ) (w : World)
    → env.fails (sql node_least_loaded ∷ w.trace) ≡ false
    → (o : Option Node) × ((get_least_loaded env required w).0 ≡ ok o) × ChosenOf required w.nodes o
unfolding get_least_loaded query
get_least_loaded-ChosenOf env required w answers =
    (freest (select (has_room required) w.nodes), rw answers refl, freest-ChosenOf required w.nodes)
