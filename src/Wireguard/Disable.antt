-- ===== src/Wireguard/Disable.antt =====
-- `DisablePeer`: the row and the interface of the hub agree.
use controlplane.Prelude.{
  not, ◌&&◌, [], text_eq, subst, ℕ, ◌≡◌, refl, sym, ap, ◌∙◌, Bool, true, false, some, List, ◌∷◌,
  Text, codes, text_eq_refl, arith, Bool-cases, inl, inr,
}
use mathlib.Core.Bool.{false≢true}
use controlplane.Table.{find, update, exists, find-update, find-keyed, when_some}
use controlplane.Wireguard.Model.{
  disable_deed, Action, Peer, Services, Tool, State, Config, log, query, attempt, peer_get,
  peer_set_enabled,
}
use controlplane.World.{Result, ok, err, Error}
use controlplane.Wireguard.Store.{get_by_id, set_enabled, peer_id, is_peer}
use controlplane.Wireguard.Service.{removal_args, remove_peer}
use controlplane.Wireguard.Handler.{
  refuse, audited, on_hub, found, Reply, status_reply, with_peer, disable_found, disable_peer,
  row_status,
}

abbrev pub disabled : Peer → Peer
disabled p = record p { enabled = false }

-- `wg set … peer K remove` takes the key `K` off the interface, and no other.
abbrev pub Takes : {H : Type 0} → Tool H → Config → (Text → H → Bool) → Type 0
Takes {H} tool c has =
    (key : Text) (h : H) (k : Text)
    → has k (tool.run (removal_args c key) [] h).1 ≡ not (text_eq key k) && has k h

-- The row of `p` is disabled, and its key is not on the interface.
abbrev pub Off : {H : Type 0} → (Text → H → Bool) → Peer → State H → Type 0
Off has p s = (find peer_id p.id s.peers ≡ some (disabled p)) × (has p.public_key s.hub ≡ false)

abbrev pub is_status : Reply → Bool
is_status (status_reply word) = true
is_status r = false

chosen :
    (id : ℕ) (p : Peer)
    → p.id ≡ id
    → when_some peer_id (is_peer id) disabled (some p) ≡ some (disabled p)
chosen id p same = ground (arith, same)

attempt_ok :
    {H A B : Type 0} (bad : Error → Action H B) (good : A → Action H B) (m : Action H (Result A))
    (s : State H) {a : A} {w : State H}
    → m s ≡ (ok a, w)
    → attempt m bad good s ≡ good a w
unfolding attempt
attempt_ok bad good m s e = ap (λ r. elim r.0 [ ok a ↦ good a r.1 | err x ↦ bad x r.1 ]) e

module _ {H : Type 0} (v : Services) (tool : Tool H) (c : Config) (has : Text → H → Bool)
    (takes : Takes tool c has) where
  off_hub : (p : Peer) (h : H) → has p.public_key (remove_peer v tool c p.public_key h).1 ≡ false
  unfolding remove_peer
  off_hub p h = rw (takes p.public_key h p.public_key, text_eq_refl p.public_key) refl

  off_row :
      (id : ℕ) (p : Peer) (ps : List Peer)
      → find peer_id id ps ≡ some p
      → find peer_id p.id (update (is_peer id) disabled ps) ≡ some (disabled p)
  off_row id p ps held =
      let same = find-keyed peer_id id ps p held in
      ap (λ k. find peer_id k (update (is_peer id) disabled ps)) same
      ∙ find-update peer_id id (is_peer id) disabled (λ q. refl) ps
      ∙ rw held (chosen id p same)

  set_ok :
      (id : ℕ) (s : State H)
      → v.fails (peer_set_enabled ∷ s.trace) ≡ false
      → exists (is_peer id) s.peers ≡ true
      → set_enabled v id false s
        ≡ (ok tt, record (log peer_set_enabled s) { peers = update (is_peer id) disabled s.peers })
  unfolding set_enabled
  set_ok id s up there = rw (set_enabled, up, there) refl

  disable_found-Off :
      (id : ℕ) (p : Peer) (s : State H)
      → find peer_id id s.peers ≡ some p
      → is_status (disable_found v tool c id p s).0 ≡ true
      → Off has p (disable_found v tool c id p s).1
  unfolding disable_found
  disable_found-Off id p s held done = elim (Bool-cases (v.fails (peer_set_enabled ∷ s.trace))) [
    | inl down ↦ absurd (false≢true (rw (disable_found, attempt, set_enabled, down) at done))
    | inr up ↦ elim (Bool-cases (exists (is_peer id) s.peers)) [
      | inl there ↦
          rw
            (
              disable_found,
              attempt_ok (λ e. refuse (row_status e))
                  (λ done w.
                    audited disable_deed id (status_reply (codes "disabled"))
                      (on_hub (remove_peer v tool c p.public_key) w))
                  (set_enabled v id false) s (set_ok id s up there),
            )
            (off_row id p s.peers held, off_hub p s.hub)
      | inr gone ↦ absurd (false≢true (rw (disable_found, attempt, set_enabled, up, gone) at done))
    ]
  ]

  reaches :
      (id : ℕ) (p : Peer) (s : State H)
      → v.fails (peer_get ∷ s.trace) ≡ false
      → find peer_id id s.peers ≡ some p
      → disable_peer v tool c (some id) s ≡ disable_found v tool c id p (log peer_get s)
  unfolding disable_peer with_peer
  reaches id p s up held =
      attempt_ok (λ e. refuse 500) (λ q. found v q (disable_found v tool c id)) (get_by_id v id) s
        found_it
    where
      found_it : get_by_id v id s ≡ (ok (some p), log peer_get s)
      found_it = rw (get_by_id, query, up, held) refl

  -- When a peer is found and the request to disable it is answered 200, its row is disabled and its key is not on
  -- the interface, if `wg set … peer K remove` takes the key `K` off and no other, as documented.
  pub disable_peer-Off :
      (id : ℕ) (p : Peer) (s : State H)
      → find peer_id id s.peers ≡ some p
      → is_status (disable_peer v tool c (some id) s).0 ≡ true
      → Off has p (disable_peer v tool c (some id) s).1
  unfolding disable_peer with_peer
  disable_peer-Off id p s held done = elim (Bool-cases (v.fails (peer_get ∷ s.trace))) [
    | inl down ↦
        absurd (false≢true (rw (disable_peer, with_peer, attempt, get_by_id, query, down) at done))
    | inr up ↦
        subst (λ r. is_status r.0 ≡ true → Off has p r.1) (sym (reaches id p s up held))
          (disable_found-Off id p (log peer_get s) held) done
  ]
