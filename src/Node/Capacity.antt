-- ===== src/Node/Capacity.antt =====
-- No node is overcommitted: each change of the table of nodes keeps the reserved memory within the
-- total.
use controlplane.Prelude.{ℕ, ◌≤◌, ◌≡◌, Bool, true, not, List, [], ◌∷◌, arith, ◌==◌}
use controlplane.Table.{update, select}
use controlplane.World.{
  World, Env, Node, Statement, sql, node_update, Result, log, exec_nodes, query,
}
use controlplane.Node.Store.{
  CreateNodeRequest, UpdateNodeRequest, create, update_fields, delete, reserve_ram, release_ram,
  at_node, fits_total, apply_update, explain_no_row, get_by_id,
}

abbrev pub IsWithin : List Node → Type 0
IsWithin [] = Unit
IsWithin (n ∷ ns) = (n.allocated_ram_mb ≤ n.total_ram_mb) × IsWithin ns

update-IsWithin :
    (p : Node → Bool) (f : Node → Node)
    → ((n : Node)
        → p n ≡ true
        → n.allocated_ram_mb ≤ n.total_ram_mb
        → (f n).allocated_ram_mb ≤ (f n).total_ram_mb)
    → (ns : List Node) → IsWithin ns
    → IsWithin (update p f ns)
unfolding update
update-IsWithin p f keep [] h = tt
update-IsWithin p f keep (n ∷ ns) h = ground (arith, keep n, update-IsWithin p f keep ns h.1)

select-IsWithin : (p : Node → Bool) (ns : List Node) → IsWithin ns → IsWithin (select p ns)
unfolding select
select-IsWithin p [] h = tt
select-IsWithin p (n ∷ ns) h = ground (arith, select-IsWithin p ns h.1)

exec-IsWithin :
    (env : Env) (c : Statement) (p : Node → Bool) (f : Node → Node) (missed : Result (Unit {0}))
    (w : World)
    → IsWithin (update p f w.nodes)
    → IsWithin w.nodes
    → IsWithin (exec_nodes env c p f missed w).1.nodes
unfolding exec_nodes
exec-IsWithin env c p f missed w changed h = ground arith

-- The methods of the store that change the table.
pub data NodeOp : Type 0 where
  create_op : CreateNodeRequest → NodeOp
  update_op : ℕ → UpdateNodeRequest → NodeOp
  delete_op : ℕ → NodeOp
  reserve_op release_op : ℕ → ℕ → NodeOp

pub apply : Env → NodeOp → World → World
apply env (create_op req) w = (create env req w).1
apply env (update_op id req) w = (update_fields env id req w).1
apply env (delete_op id) w = (delete env id w).1
apply env (reserve_op id ram) w = (reserve_ram env id ram w).1
apply env (release_op id ram) w = (release_ram env id ram w).1

pub run : Env → List NodeOp → World → World
unfolding apply
run env [] w = w
run env (op ∷ ops) w = run env ops (apply env op w)

fits-le :
    (req : UpdateNodeRequest) (n : Node)
    → fits_total req.total_ram_mb n ≡ true
    → n.allocated_ram_mb ≤ n.total_ram_mb
    → (apply_update req n).allocated_ram_mb ≤ (apply_update req n).total_ram_mb
fits-le req n fits h = ground arith

at-fits :
    (id : ℕ) (req : UpdateNodeRequest) (n : Node)
    → at_node id (fits_total req.total_ram_mb) n ≡ true
    → fits_total req.total_ram_mb n ≡ true
at-fits id req n h = ground arith

explain-nodes :
    (env : Env) (id : ℕ) (req : UpdateNodeRequest) (w : World)
    → (explain_no_row env id req w).1.nodes ≡ w.nodes
unfolding explain_no_row get_by_id query
explain-nodes env id req w = ground arith

apply-IsWithin :
    (env : Env) (op : NodeOp) (w : World) → IsWithin w.nodes → IsWithin (apply env op w).nodes
unfolding apply
apply-IsWithin env (create_op req) w h = unfold create in ground arith
apply-IsWithin env (update_op id req) w h =
    unfold update_fields in
    ground (
      arith,
      explain-nodes env id req (log (sql node_update) w),
      update-IsWithin (at_node id (fits_total req.total_ram_mb)) (apply_update req)
          (λ n p. fits-le req n (at-fits id req n p)) w.nodes h,
    )
apply-IsWithin env (delete_op id) w h =
    unfold delete in ground (arith, select-IsWithin (λ n. not (n.id == id)) w.nodes h)
apply-IsWithin env (reserve_op id ram) w h =
    unfold reserve_ram in
    exec-IsWithin env _ _ _ _ w (update-IsWithin _ _ (λ n p q. ground arith) w.nodes h) h
apply-IsWithin env (release_op id ram) w h =
    unfold release_ram in
    exec-IsWithin env _ _ _ _ w (update-IsWithin _ _ (λ n p q. omega arith) w.nodes h) h

-- After any history of changes by amounts of memory that are not negative, whichever of them fail, the
-- reserved memory of each node is within its total, if it was before.
pub run-IsWithin :
    (env : Env) (ops : List NodeOp) (w : World) → IsWithin w.nodes → IsWithin (run env ops w).nodes
unfolding run
run-IsWithin env [] w h = h
run-IsWithin env (op ∷ ops) w h = run-IsWithin env ops (apply env op w) (apply-IsWithin env op w h)
