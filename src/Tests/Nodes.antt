-- ===== src/Tests/Nodes.antt =====
-- internal/node at concrete inputs.
use controlplane.Prelude.{◌≡◌, refl, none, some, List, [], ◌∷◌, codes, arith, Option}
use controlplane.World.{Node, ok, provisioning}
use controlplane.Table.{find}
use controlplane.Node.Store.{get_least_loaded, reserve_ram, release_ram}
use controlplane.Node.Capacity.{
  NodeOp, create_op, update_op, delete_op, reserve_op, release_op, run, IsWithin, run-IsWithin,
}
use controlplane.Node.Choice.{ChosenOf, get_least_loaded-ChosenOf}
use controlplane.Node.Reserve.{release_ram-reserve_ram}
use controlplane.Node.Allocated.{allocated_of}
use controlplane.Tests.Setup.{calm, a_node, with_tenant}

abbrev node_ops : List NodeOp
node_ops =
    create_op (record {
      name = codes "node-2";
      tailscale_ip = codes "100.64.0.2";
      proxmox_url = codes "https://node-2:8006";
      api_token = codes "token";
      total_ram_mb = 2048;
    })
    ∷ reserve_op 1 3072
    ∷ reserve_op 1 1
    ∷ update_op 1
        (record { status = none; total_ram_mb = some 4000; proxmox_url = none; api_token = none })
    ∷ release_op 1 5000
    ∷ delete_op 1
    ∷ []

run-IsWithin_example : IsWithin (run calm node_ops (with_tenant provisioning)).nodes
run-IsWithin_example = run-IsWithin calm node_ops (with_tenant provisioning) (omega arith, tt)

get_least_loaded-ChosenOf_example :
    (o : Option Node) × ((get_least_loaded calm 512 (with_tenant provisioning)).0 ≡ ok o)
    × ChosenOf 512 (a_node ∷ []) o
get_least_loaded-ChosenOf_example =
    get_least_loaded-ChosenOf calm 512 (with_tenant provisioning) refl

release_ram-reserve_ram_example :
    allocated_of 1 (release_ram calm 1 512 (reserve_ram calm 1 512 (with_tenant provisioning)).1).1
    ≡ some 1024
unfolding find
release_ram-reserve_ram_example =
    release_ram-reserve_ram calm 1 512 a_node (with_tenant provisioning) (tt, tt) refl (omega arith)
      refl (λ _. refl)
