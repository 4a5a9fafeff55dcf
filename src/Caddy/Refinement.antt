-- ===== src/Caddy/Refinement.antt =====
-- Reconciliation against an abstract table of routes.
use controlplane.Prelude.{
  suc, ◌+◌, ◌≤◌, ◌≡◌, refl, sym, ap, subst, ◌∙◌, true, false, none, some, List, [], ◌∷◌, ◌++◌, Text,
  text_eq, text_eq_iff, if◌then◌else◌, arith, Bool-cases, inl, inr, length,
}
use mathlib.Core.Bool.{false≢true}
use controlplane.Table.{select}
use controlplane.Caddy.{
  Admin, Client, CaddyRoute, route_id, build_route, routes_url, id_url, added, removed, add_route,
  remove_route, upsert_route,
}
use controlplane.Caddy.Reconciler.{TenantRoute, ReconcileResult, reconcile_from, reconcile}

-- The routes with an id, in the order of the server.
abbrev pub at_id : Text → List CaddyRoute → List CaddyRoute
at_id id = select (λ r. text_eq r.id id)

-- What the API documents: a route that is accepted is appended, `DELETE /id/…` leaves no object with
-- the id when it succeeds and when it answers 404, and neither touches an object with another id.
pub record Documented {S : Type 0} (admin : Admin S) (c : Client) (routes : S → List CaddyRoute)
    : Type 0 where
  pub posted :
      (r : CaddyRoute) (s : S)
      → added (admin.post (routes_url c) r s).0 ≡ true
      → at_id r.id (routes (admin.post (routes_url c) r s).1) ≡ at_id r.id (routes s) ++ r ∷ []
  pub post_other :
      (r : CaddyRoute) (s : S) (id : Text)
      → text_eq id r.id ≡ false
      → at_id id (routes (admin.post (routes_url c) r s).1) ≡ at_id id (routes s)
  pub deleted :
      (subdomain : Text) (s : S)
      → removed (admin.delete (id_url c subdomain) s).0 ≡ true
      → at_id (route_id subdomain) (routes (admin.delete (id_url c subdomain) s).1) ≡ []
  pub delete_other :
      (subdomain : Text) (s : S) (id : Text)
      → text_eq id (route_id subdomain) ≡ false
      → at_id id (routes (admin.delete (id_url c subdomain) s).1) ≡ at_id id (routes s)

-- The table that is wanted: the id of a tenant has its route and no other; of two tenants with one
-- subdomain the later wins.
pub wanted : Client → List TenantRoute → Text → List CaddyRoute → List CaddyRoute
unfolding build_route
wanted c [] id before = before
wanted c (t ∷ ts) id before =
    wanted c ts id (
      if text_eq id (route_id t.subdomain) then build_route c t.subdomain t.lxc_ip ∷ [] else before)

module _ {S : Type 0} (admin : Admin S) (c : Client) (routes : S → List CaddyRoute)
    (doc : Documented admin c routes) where
  -- An upsert, whatever its outcome, leaves the routes with another id.
  upsert-other :
      (subdomain ip : Text) (s : S) (id : Text)
      → text_eq id (route_id subdomain) ≡ false
      → at_id id (routes (upsert_route admin c subdomain ip s).1) ≡ at_id id (routes s)
  unfolding upsert_route add_route remove_route build_route
  upsert-other subdomain ip s id h =
      elim (Bool-cases (removed (admin.delete (id_url c subdomain) s).0)) [
        | inl gone ↦ rw gone (
            doc.post_other (build_route c subdomain ip) (admin.delete (id_url c subdomain) s).1 id h
            ∙ doc.delete_other subdomain s id h)
        | inr left ↦ rw left (doc.delete_other subdomain s id h)
      ]

  -- An upsert that succeeded leaves its route and no other with its id.
  upsert_self :
      (subdomain ip : Text) (s : S)
      → (upsert_route admin c subdomain ip s).0 ≡ true
      → at_id (route_id subdomain) (routes (upsert_route admin c subdomain ip s).1)
        ≡ build_route c subdomain ip ∷ []
  unfolding upsert_route add_route remove_route build_route
  upsert_self subdomain ip s h =
      elim (Bool-cases (removed (admin.delete (id_url c subdomain) s).0)) [
        | inl gone ↦ rw gone (
            doc.posted (build_route c subdomain ip) (admin.delete (id_url c subdomain) s).1
              (rw gone at h)
            ∙ ap (λ rs. rs ++ build_route c subdomain ip ∷ []) (doc.deleted subdomain s gone))
        | inr left ↦ absurd (false≢true (rw left at h))
      ]

  upsert-done :
      (subdomain ip : Text) (s : S) (id : Text)
      → (upsert_route admin c subdomain ip s).0 ≡ true
      → at_id id (routes (upsert_route admin c subdomain ip s).1) ≡ (
          if text_eq id (route_id subdomain)
          then build_route c subdomain ip ∷ []
          else at_id id (routes s))
  upsert-done subdomain ip s id h = elim (Bool-cases (text_eq id (route_id subdomain))) [
    | inl same ↦ rw same (
        subst
          (λ i.
            at_id i (routes (upsert_route admin c subdomain ip s).1)
            ≡ build_route c subdomain ip ∷ [])
          (sym ((text_eq_iff id (route_id subdomain)).0 same)) (upsert_self subdomain ip s h))
    | inr apart ↦ rw apart (upsert-other subdomain ip s id apart)
  ]

  failed-grows :
      (r : ReconcileResult) (ts : List TenantRoute) (s : S)
      → r.failed ≤ (reconcile_from admin c r ts s).0.failed
  unfolding reconcile_from
  failed-grows r [] s = omega arith
  failed-grows r (t ∷ ts) s = elim (Bool-cases (upsert_route admin c t.subdomain t.lxc_ip s).0) [
    | inl b ↦
        rw (reconcile_from, b)
          (failed-grows (record r { success = suc r.success }) ts
            (upsert_route admin c t.subdomain t.lxc_ip s).1)
    | inr b ↦
        rw (reconcile_from, b)
          (omega (
            arith,
            failed-grows (record r { failed = suc r.failed }) ts
                (upsert_route admin c t.subdomain t.lxc_ip s).1,
          ))
  ]

  -- The loop does what is wanted if it adds no failure.
  reconcile_from-wanted :
      (r : ReconcileResult) (ts : List TenantRoute) (s : S) (id : Text)
      → (reconcile_from admin c r ts s).0.failed ≡ r.failed
      → at_id id (routes (reconcile_from admin c r ts s).1) ≡ wanted c ts id (at_id id (routes s))
  unfolding reconcile_from wanted
  reconcile_from-wanted r [] s id h = refl
  reconcile_from-wanted r (t ∷ ts) s id h =
      elim (Bool-cases (upsert_route admin c t.subdomain t.lxc_ip s).0) [
        | inl b ↦
            rw (reconcile_from, b)
              (reconcile_from-wanted (record r { success = suc r.success }) ts
                  (upsert_route admin c t.subdomain t.lxc_ip s).1 id (rw (reconcile_from, b) at h)
                ∙ ap (wanted c ts id) (upsert-done t.subdomain t.lxc_ip s id b))
        | inr b ↦ absurd (
            omega (
              arith,
              failed-grows (record r { failed = suc r.failed }) ts
                  (upsert_route admin c t.subdomain t.lxc_ip s).1,
              rw (reconcile_from, b) at h,
            ))
      ]

  reconcile_from-count :
      (r : ReconcileResult) (ts : List TenantRoute) (s : S)
      → (reconcile_from admin c r ts s).0.success + (reconcile_from admin c r ts s).0.failed
        ≡ r.success + r.failed + length ts
  unfolding reconcile_from
  reconcile_from-count r [] s = omega arith
  reconcile_from-count r (t ∷ ts) s =
      elim (Bool-cases (upsert_route admin c t.subdomain t.lxc_ip s).0) [
        | inl b ↦
            rw (reconcile_from, b)
              (omega (
                arith,
                reconcile_from-count (record r { success = suc r.success }) ts
                    (upsert_route admin c t.subdomain t.lxc_ip s).1,
              ))
        | inr b ↦
            rw (reconcile_from, b)
              (omega (
                arith,
                reconcile_from-count (record r { failed = suc r.failed }) ts
                    (upsert_route admin c t.subdomain t.lxc_ip s).1,
              ))
      ]

-- A reconciliation of `ts` counts each tenant once, as a success or as a failure, and when it counts
-- no failure the routes of the server are those of the wanted table, at every id: each listed tenant
-- has its one route, and the routes with other ids are as they were. The server is any that behaves
-- as the API documents.
pub reconcile-refines :
    {S : Type 0} (admin : Admin S) (c : Client) (routes : S → List CaddyRoute)
    (doc : Documented admin c routes) (ts : List TenantRoute) (s s' : S) (r : ReconcileResult)
    → reconcile admin c (some ts) s ≡ (some r, s')
    → (r.success + r.failed ≡ length ts)
      × (r.failed ≡ 0 → (id : Text) → at_id id (routes s') ≡ wanted c ts id (at_id id (routes s)))
unfolding reconcile
reconcile-refines {S} admin c routes doc ts s s' r h = (
  subst (λ x. x.success + x.failed ≡ length ts) result
      (omega (arith, reconcile_from-count admin c routes doc start ts s)),
  λ clean id.
      subst (λ x. at_id id (routes x) ≡ wanted c ts id (at_id id (routes s))) (ap (λ x. x.1) h)
        (reconcile_from-wanted admin c routes doc start ts s id
          (ap (λ x. x.failed) result ∙ clean)),
)
  where
    start : ReconcileResult
    start = record { success = 0; failed = 0 }

    result : (reconcile_from admin c start ts s).0 ≡ r
    result = ap (λ x. elim x.0 as (λ _. ReconcileResult) [ none ↦ r | some y ↦ y ]) h
