-- ===== src/Node/Reserve.antt =====
-- Reservations of memory: `ReserveRAM` and `ReleaseRAM` of internal/node/store.go.
use controlplane.Prelude.{
  ℕ, ◌+◌, ◌≤◌, ◌≡◌, refl, ◌∙◌, false, Option, some, ◌∷◌, arith, ==-refl, leb, ap,
}
use controlplane.Table.{find, find-update, find-keyed, exists-keyed, Unique, Unique-update}
use controlplane.World.{World, Env, Node, ok, sql, node_reserve, node_release, exec_nodes, History}
use controlplane.Node.Store.{node_key, at_node, reserved, reserve_ram, release_ram}
use controlplane.Node.Allocated.{allocated_in, allocated_of, release_ram_lowers}

-- The row of a node.
abbrev pub node_of : ℕ → World → Option Node
node_of id w = find node_key id w.nodes

module _ (env : Env) (id ram : ℕ) (n : Node) (w : World) (unique : Unique node_key w.nodes)
    (now : node_of id w ≡ some n) (answers : env.fails (sql node_reserve ∷ w.trace) ≡ false) where
  reserve_ram-fits :
      n.allocated_ram_mb + ram ≤ n.total_ram_mb
      → ((reserve_ram env id ram w).0 ≡ ok tt)
        × (node_of id (reserve_ram env id ram w).1 ≡ some (reserved ram n))
  unfolding reserve_ram exec_nodes
  reserve_ram-fits fits = ground (
    arith,
    exists-keyed node_key id (λ m. leb (m.allocated_ram_mb + ram) m.total_ram_mb) w.nodes unique,
    find-update node_key id (at_node id (λ m. leb (m.allocated_ram_mb + ram) m.total_ram_mb))
        (reserved ram) (λ _. refl) w.nodes,
    find-keyed node_key id w.nodes n,
    ==-refl id,
  )

allocated-node_of :
    (id : ℕ) (w : World) (n : Node)
    → node_of id w ≡ some n
    → allocated_of id w ≡ some n.allocated_ram_mb
unfolding allocated_in
allocated-node_of id w n h = ground arith

reserve_ram-Unique :
    (env : Env) (id ram : ℕ) (w : World)
    → Unique node_key w.nodes
    → Unique node_key (reserve_ram env id ram w).1.nodes
unfolding reserve_ram exec_nodes
reserve_ram-Unique env id ram w h = ground (
  arith,
  Unique-update node_key (at_node id (λ m. leb (m.allocated_ram_mb + ram) m.total_ram_mb))
      (reserved ram) (λ _. refl) w.nodes h,
)

-- Giving back what a reservation took leaves the reserved memory as it was.
pub release_ram-reserve_ram :
    (env : Env) (id ram : ℕ) (n : Node) (w : World)
    → Unique node_key w.nodes
    → node_of id w ≡ some n
    → n.allocated_ram_mb + ram ≤ n.total_ram_mb
    → env.fails (sql node_reserve ∷ w.trace) ≡ false
    → ((h : History) → env.fails (sql node_release ∷ h) ≡ false)
    → allocated_of id (release_ram env id ram (reserve_ram env id ram w).1).1
      ≡ some n.allocated_ram_mb
release_ram-reserve_ram env id ram n w unique now fits answers releases =
    release_ram_lowers env id ram (n.allocated_ram_mb + ram) (reserve_ram env id ram w).1
      (reserve_ram-Unique env id ram w unique) held (releases (reserve_ram env id ram w).1.trace)
    ∙ ap some (omega arith)
  where
    held : allocated_of id (reserve_ram env id ram w).1 ≡ some (n.allocated_ram_mb + ram)
    held =
        allocated-node_of id (reserve_ram env id ram w).1 (reserved ram n)
          (reserve_ram-fits env id ram n w unique now answers fits).1
