-- ===== src/Wireguard/Store.antt =====
-- internal/wireguard/store.go
use controlplane.Prelude.{
  ℕ, Bool, not, ◌&&◌, ◌||◌, false, Option, none, some, List, ◌∷◌, ◌==◌, if◌then◌else◌, Text,
  text_eq, head?, map,
}
use controlplane.Table.{select, update, exists, find}
use controlplane.World.{
  Result, ok, err, unavailable, no_rows, no_update, unique_violation, bad_cidr,
}
use controlplane.Ipalloc.{next, with_prefix}
use controlplane.Tenant.Store.{set_or_keep, some_or_keep, is_none}
use controlplane.Wireguard.Model.{
  Peer, UpdatePeerRequest, Services, Action, log, query, attempt, pass_on, Call, peer_list,
  peer_list_by_type, peer_get, peer_insert, peer_update, peer_delete, peer_set_enabled, begin_tx,
  commit_tx, advisory_lock, peer_ips, peer_by_tenant, peer_list_enabled,
}

abbrev pub peer_id : Peer → ℕ
peer_id p = p.id

abbrev pub is_tenants : Text → Peer → Bool
is_tenants tenant p = elim p.tenant_id [ none ↦ false | some t ↦ text_eq t tenant ]

abbrev pub apply_update : UpdatePeerRequest → Peer → Peer
apply_update rq p = record p {
  name = set_or_keep rq.name p.name;
  endpoint = some_or_keep rq.endpoint p.endpoint;
  enabled = set_or_keep rq.enabled p.enabled;
}

-- The unique columns.
abbrev pub collides : Peer → Peer → Bool
collides p q = text_eq q.public_key p.public_key || text_eq q.wg_ip p.wg_ip

abbrev pub is_peer : ℕ → Peer → Bool
is_peer id p = p.id == id

module _ {H : Type 0} (v : Services) where
  unfoldable pub list : Action H (Result (List Peer))
  unfolding query
  list = query v peer_list λ s. s.peers

  unfoldable pub list_by_type : Text → Action H (Result (List Peer))
  unfolding query select
  list_by_type kind = query v peer_list_by_type λ s. select (λ p. text_eq p.kind kind) s.peers

  unfoldable pub list_enabled : Action H (Result (List Peer))
  unfolding query select
  list_enabled = query v peer_list_enabled λ s. select (λ p. p.enabled) s.peers

  unfoldable pub get_by_id : ℕ → Action H (Result (Option Peer))
  unfolding query find
  get_by_id id = query v peer_get λ s. find peer_id id s.peers

  unfoldable pub get_by_tenant_id : Text → Action H (Result (Option Peer))
  unfolding query select
  get_by_tenant_id tenant = query v peer_by_tenant λ s. head? (select (is_tenants tenant) s.peers)

  unfoldable pub create : Peer → Action H (Result Peer)
  unfolding exists
  create p s =
      let s' = log peer_insert s in
      let row : Peer = record p { id = v.fresh_id s'.trace } in
      if v.fails s'.trace
      then (err unavailable, s')
      else if exists (collides p) s'.peers
      then (err unique_violation, s')
      else (ok row, record s' { peers = row ∷ s'.peers })

  -- `none` for an id that is not there.
  unfoldable pub update_peer : ℕ → UpdatePeerRequest → Action H (Result (Option Peer))
  unfolding update find
  update_peer id rq s =
      let s' = log peer_update s in
      let after = update (is_peer id) (apply_update rq) s'.peers in
      if is_none rq.name && is_none rq.endpoint && is_none rq.enabled
      then (err no_update, s)
      else if v.fails s'.trace
      then (err unavailable, s')
      else (ok (find peer_id id after), record s' { peers = after })

  abbrev pub change : Call → ℕ → (List Peer → List Peer) → Action H (Result (Unit {0}))
  change c id f s =
      let s' = log c s in
      if v.fails s'.trace
      then (err unavailable, s')
      else if exists (is_peer id) s'.peers
      then (ok tt, record s' { peers = f s'.peers })
      else (err no_rows, s')

  unfoldable pub delete : ℕ → Action H (Result (Unit {0}))
  unfolding exists select
  delete id = change peer_delete id (select (λ p. not (is_peer id p)))

  unfoldable pub set_enabled : ℕ → Bool → Action H (Result (Unit {0}))
  unfolding exists update
  set_enabled id b =
      change peer_set_enabled id (update (is_peer id) (λ p. record p { enabled = b }))

  -- An error of the transaction rolls it back.
  abbrev pub commit : Result Text → Action H (Result Text)
  commit (err e) s = (err e, s)
  commit (ok addr) s = attempt (query v commit_tx (λ _. tt {0})) pass_on (λ _ w. (ok addr, w)) s

  -- The transaction of `ipalloc.Allocate`: the lock, the addresses of all rows, the choice.
  unfoldable pub get_next_available_ip : Text → Action H (Result Text)
  unfolding query attempt next
  get_next_available_ip subnet s =
      with_prefix v.env subnet
        (λ _.
          attempt (query v begin_tx (λ _. tt {0})) pass_on
            (λ _. attempt (query v advisory_lock (λ _. tt {0})) pass_on λ _.
              attempt (query v peer_ips (λ w. map (λ p. p.wg_ip) w.peers)) pass_on
                λ used w. commit (next v.env subnet used) w)
            s)
        (err bad_cidr, s)
