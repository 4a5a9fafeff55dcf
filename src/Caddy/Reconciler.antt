-- ===== src/Caddy/Reconciler.antt =====
-- internal/caddy/reconciler.go
use controlplane.Prelude.{ℕ, suc, Bool, true, false, Option, none, some, List, [], ◌∷◌, Text}
use controlplane.Caddy.{Admin, Client, upsert_route}

pub record TenantRoute : Type 0 where
  pub subdomain : Text
  pub lxc_ip : Text

pub record ReconcileResult : Type 0 where
  pub success : ℕ
  pub failed : ℕ

abbrev pub count_one : Bool → ReconcileResult → ReconcileResult
count_one true r = record r { success = suc r.success }
count_one false r = record r { failed = suc r.failed }

module _ {S : Type 0} (admin : Admin S) (c : Client) where
  -- The loop; a failure for one tenant does not stop it.
  unfoldable pub reconcile_from : ReconcileResult → List TenantRoute → S → ReconcileResult × S
  unfolding upsert_route
  reconcile_from r [] s = (r, s)
  reconcile_from r (t ∷ ts) s =
      let (done_well, s') = upsert_route admin c t.subdomain t.lxc_ip s in
      reconcile_from (count_one done_well r) ts s'

  -- `none` is an error of the list of tenants.
  unfoldable pub reconcile : Option (List TenantRoute) → S → Option ReconcileResult × S
  unfolding reconcile_from
  reconcile none s = (none, s)
  reconcile (some ts) s =
      let (r, s') = reconcile_from (record { success = 0; failed = 0 }) ts s in (some r, s')
