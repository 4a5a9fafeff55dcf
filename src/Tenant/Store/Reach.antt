-- ===== src/Tenant/Store/Reach.antt =====
-- internal/tenant/store.go, internal/tenant/tenant_pollable.go: the tenants that can be reached, and
-- the addresses that are taken.
use controlplane.Prelude.{
  text_or_empty, ℕ, Bool, true, false, ◌&&◌, Option, none, some, List, [], ◌∷◌, map, Text,
}
use controlplane.Table.{select}
use controlplane.World.{
  World, Env, Tenant, active, is_status, Result, ok, err, tenant_list, Action, query,
}
use controlplane.Ipalloc.{allocate}
use controlplane.Tenant.Store.Where.{is_live}

-- A text that is neither NULL nor empty.
abbrev pub is_filled : Option Text → Bool
is_filled none = false
is_filled (some []) = false
is_filled (some (c ∷ s)) = true

abbrev pub reachable : Tenant → Bool
reachable t = is_status t.status active && is_filled t.lxc_ip

-- The row of `listActiveWithIP`; a NULL address does not occur in it.
pub record ActiveWithIp : Type 0 where
  pub id : ℕ
  pub subdomain : Text
  pub lxc_ip : Text

abbrev pub to_row : Tenant → ActiveWithIp
to_row t = record { id = t.id; subdomain = t.subdomain; lxc_ip = text_or_empty t.lxc_ip }

unfoldable pub list_reachable : Env → Action (Result (List ActiveWithIp))
unfolding query select
list_reachable env = query env tenant_list (λ w. map to_row (select reachable w.tenants))

abbrev pub map_result : {A B : Type 0} → (A → B) → Result A × World → Result B × World
map_result f (ok a, w) = (ok (f a), w)
map_result f (err e, w) = (err e, w)

-- `ActiveTenant`: the subdomain and the address.
abbrev pub to_active : List ActiveWithIp → List (Text × Text)
to_active = map λ r. (r.subdomain, r.lxc_ip)

-- `PollableTenant`: the id and the address.
abbrev pub to_pollable : List ActiveWithIp → List (ℕ × Text)
to_pollable = map λ r. (r.id, r.lxc_ip)

unfoldable pub list_active_with_ip : Env → Action (Result (List (Text × Text)))
unfolding list_reachable
list_active_with_ip env w = map_result to_active (list_reachable env w)

unfoldable pub list_pollable : Env → Action (Result (List (ℕ × Text)))
unfolding list_reachable
list_pollable env w = map_result to_pollable (list_reachable env w)

-- The addresses of the tenants that are not deleted.
abbrev pub holds_ip : Tenant → Bool
holds_ip t = is_filled t.lxc_ip && is_live t

unfoldable pub used_addresses : World → List Text
unfolding select
used_addresses w = map (λ t. text_or_empty t.lxc_ip) (select holds_ip w.tenants)

unfoldable pub get_next_available_ip : Env → Text → Action (Result Text)
get_next_available_ip env cidr = allocate env cidr used_addresses
