-- ===== src/Node/Store.antt =====
-- internal/node/store.go: the statements on the table of compute nodes. `INTEGER` columns hold
-- numbers below 2^31; `total - allocated >= n` is written `allocated + n ≤ total`. Amounts of
-- memory are taken to be not negative.
use controlplane.Prelude.{
  ℕ, ◌+◌, ◌-◌, Bool, true, not, ◌&&◌, ◌||◌, Option, none, some, List, [], ◌∷◌, Text, text_eq, ltb,
  leb, ◌==◌, if◌then◌else◌,
}
use controlplane.Table.{count, update, select, exists, find, keyed}
use controlplane.Tenant.Store.{is_live, paged, set_or_keep, is_none}
use controlplane.World.{
  Env, Node, Tenant, NodeStatus, online, is_online, unavailable, no_rows, insufficient_capacity,
  unique_violation, foreign_key, ram_below_allocated, no_update, Result, ok, err, sql, tenant_count,
  node_list, node_get, node_insert, node_update, node_delete, node_token, node_least_loaded,
  node_reserve, node_release, Action, log, query, exec_nodes,
}

pub record CreateNodeRequest : Type 0 where
  pub name : Text
  pub tailscale_ip : Text
  pub proxmox_url : Text
  pub api_token : Text
  pub total_ram_mb : ℕ

pub record UpdateNodeRequest : Type 0 where
  pub status : Option NodeStatus
  pub total_ram_mb : Option ℕ
  pub proxmox_url : Option Text
  pub api_token : Option Text

abbrev pub node_key : Node → ℕ
node_key n = n.id

abbrev pub at_node : ℕ → (Node → Bool) → Node → Bool
at_node id q = keyed node_key id q

unfoldable pub list : Env → Action (Result (List Node))
unfolding query
list env = query env node_list (λ w. w.nodes)

unfoldable pub list_paginated : Env → ℕ → ℕ → Action (Result (List Node × ℕ))
unfolding query
list_paginated env limit offset = query env node_list (λ w. paged w.nodes limit offset)

unfoldable pub get_by_id : Env → ℕ → Action (Result (Option Node))
unfolding query find
get_by_id env id = query env node_get (λ w. find node_key id w.nodes)

abbrev pub new_row : CreateNodeRequest → ℕ → Node
new_row req id = record {
  id = id;
  name = req.name;
  tailscale_ip = req.tailscale_ip;
  proxmox_url = req.proxmox_url;
  api_token_encrypted = req.api_token;
  total_ram_mb = req.total_ram_mb;
  allocated_ram_mb = 0;
  status = online;
}

-- The primary key and the unique name.
abbrev pub collides : Node → Node → Bool
collides new old = old.id == new.id || text_eq old.name new.name

unfoldable pub create : Env → CreateNodeRequest → Action (Result Node)
unfolding exists
create env req w =
    let w' = log (sql node_insert) w in
    let row = new_row req (env.fresh_uuid w'.trace) in
    if env.fails w'.trace
    then (err unavailable, w')
    else if exists (collides row) w.nodes
    then (err unique_violation, w')
    else (ok row, record w' { nodes = row ∷ w.nodes })

-- ` AND allocated_ram_mb <= $n`, present if the total is set.
abbrev pub fits_total : Option ℕ → Node → Bool
fits_total none n = true
fits_total (some total) n = leb n.allocated_ram_mb total

abbrev pub apply_update : UpdateNodeRequest → Node → Node
apply_update req n = record n {
  status = set_or_keep req.status n.status;
  total_ram_mb = set_or_keep req.total_ram_mb n.total_ram_mb;
  proxmox_url = set_or_keep req.proxmox_url n.proxmox_url;
  api_token_encrypted = set_or_keep req.api_token n.api_token_encrypted;
}

abbrev pub is_empty_update : UpdateNodeRequest → Bool
is_empty_update req =
    is_none req.status
    && is_none req.total_ram_mb
    && is_none req.proxmox_url
    && is_none req.api_token

-- No row was updated: if the total was set, `GetByID` tells a missing node from the constraint. Its
-- error is dropped.
unfoldable pub explain_no_row : Env → ℕ → UpdateNodeRequest → Action (Result (Option Node))
unfolding get_by_id
explain_no_row env id req w =
    if is_none req.total_ram_mb
    then (ok none, w)
    else (let (existing, w') = get_by_id env id w in
        (
          elim existing [
            | err _ ↦ ok none
            | ok none ↦ ok none
            | ok (some n) ↦ err ram_below_allocated
          ],
          w',
        ))

unfoldable pub update_fields : Env → ℕ → UpdateNodeRequest → Action (Result (Option Node))
unfolding update exists find explain_no_row
update_fields env id req w =
    let w' = log (sql node_update) w in
    let rows = update (at_node id (fits_total req.total_ram_mb)) (apply_update req) w.nodes in
    if is_empty_update req
    then (err no_update, w)
    else if env.fails w'.trace
    then (err unavailable, w')
    else if exists (at_node id (fits_total req.total_ram_mb)) w.nodes
    then (ok (find node_key id rows), record w' { nodes = rows })
    else explain_no_row env id req w'

unfoldable pub count_tenants : Env → ℕ → Action (Result ℕ)
unfolding query count
count_tenants env id =
    query env tenant_count (λ w. count (λ (t : Tenant). t.node_id == id && is_live t) w.tenants)

-- The token of a missing node is the empty text.
unfoldable pub get_encrypted_token_by_id : Env → ℕ → Action (Result Text)
unfolding query find
get_encrypted_token_by_id env id =
    query env node_token
      (λ w. elim (find node_key id w.nodes) [ none ↦ [] | some n ↦ n.api_token_encrypted ])

-- Tenants refer to their node, deleted ones too: the foreign key keeps such a node.
unfoldable pub delete : Env → ℕ → Action (Result (Unit {0}))
unfolding exists select
delete env id w =
    let w' = log (sql node_delete) w in
    if env.fails w'.trace
    then (err unavailable, w')
    else if not (exists (at_node id (λ _. true)) w.nodes)
    then (err no_rows, w')
    else if exists (λ (t : Tenant). t.node_id == id) w.tenants
    then (err foreign_key, w')
    else (ok tt, record w' { nodes = select (λ n. not (n.id == id)) w.nodes })

-- `status = 'active' AND (total_ram_mb - allocated_ram_mb) >= $1`
abbrev pub has_room : ℕ → Node → Bool
has_room required n = is_online n.status && leb (n.allocated_ram_mb + required) n.total_ram_mb

-- `ORDER BY (total_ram_mb - allocated_ram_mb) DESC LIMIT 1`, over rows that have room.
unfoldable pub freest : List Node → Option Node
freest [] = none
freest (n ∷ ns) = elim (freest ns) [
  | none ↦ some n
  | some m ↦
      if ltb (n.total_ram_mb - n.allocated_ram_mb) (m.total_ram_mb - m.allocated_ram_mb)
      then some m
      else some n
]

unfoldable pub get_least_loaded : Env → ℕ → Action (Result (Option Node))
unfolding query freest select
get_least_loaded env required =
    query env node_least_loaded (λ w. freest (select (has_room required) w.nodes))

abbrev pub reserved : ℕ → Node → Node
reserved ram n = record n { allocated_ram_mb = n.allocated_ram_mb + ram }

abbrev pub released : ℕ → Node → Node
released ram n = record n { allocated_ram_mb = n.allocated_ram_mb - ram }

unfoldable pub reserve_ram : Env → ℕ → ℕ → Action (Result (Unit {0}))
unfolding exec_nodes
reserve_ram env id ram =
    exec_nodes env node_reserve (at_node id (λ n. leb (n.allocated_ram_mb + ram) n.total_ram_mb))
      (reserved ram) (err insufficient_capacity)

-- `GREATEST(allocated_ram_mb - $2, 0)`; the number of affected rows is not looked at.
unfoldable pub release_ram : Env → ℕ → ℕ → Action (Result (Unit {0}))
unfolding exec_nodes
release_ram env id ram = exec_nodes env node_release (at_node id (λ _. true)) (released ram) (ok tt)
