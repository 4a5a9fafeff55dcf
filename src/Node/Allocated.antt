-- ===== src/Node/Allocated.antt =====
-- The memory that is reserved on one node, as the statements of internal/node/store.go change it.
use controlplane.Prelude.{
  ℕ, ◌-◌, ◌≡◌, refl, true, false, Option, none, some, List, ◌∷◌, arith, ==-refl, Option-cases, inl,
  inr,
}
use controlplane.Table.{find, find-update, find-keyed, exists-keyed, Unique}
use controlplane.World.{World, Env, Node, sql, node_release, exec_nodes}
use controlplane.Node.Store.{node_key, at_node, released, release_ram}

unfoldable pub allocated_in : ℕ → List Node → Option ℕ
unfolding find
allocated_in id rows = elim (find node_key id rows) [
  | none ↦ none
  | some n ↦ some n.allocated_ram_mb
]

abbrev pub allocated_of : ℕ → World → Option ℕ
allocated_of id w = allocated_in id w.nodes

-- Memory is given back down to 0, at the least.
pub release_ram_lowers :
    (env : Env) (id ram a : ℕ) (w : World)
    → Unique node_key w.nodes
    → allocated_of id w ≡ some a
    → env.fails (sql node_release ∷ w.trace) ≡ false
    → allocated_of id (release_ram env id ram w).1 ≡ some (a - ram)
unfolding release_ram allocated_in
release_ram_lowers env id ram a w unique now answers =
    elim (Option-cases (find node_key id w.nodes)) [
      | inl e ↦ ground arith
      | inr (n, e) ↦ ground (
        arith,
        exists-keyed node_key id (λ _. true) w.nodes unique,
        find-update node_key id (at_node id (λ _. true)) (released ram) (λ _. refl) w.nodes,
        find-keyed node_key id w.nodes n,
        ==-refl id,
      )
    ]

-- The statements on nodes leave the tenants alone.
pub release_ram-tenants :
    (env : Env) (id ram : ℕ) (w : World) → (release_ram env id ram w).1.tenants ≡ w.tenants
unfolding release_ram exec_nodes
release_ram-tenants env id ram w = ground arith
