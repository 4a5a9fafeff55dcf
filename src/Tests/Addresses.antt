-- ===== src/Tests/Addresses.antt =====
-- internal/ipalloc at concrete inputs.
use controlplane.Prelude.{◌≡◌, refl, none, [], ◌∷◌, codes, arith, List, Text}
use controlplane.World.{Env, provisioning}
use controlplane.Tenant.Store.{get_next_available_ip}
use controlplane.Tenant.Addresses.{
  AllocationOf, get_next_available_ip-AllocationOf, get_next_available_ip-again,
}
use controlplane.Ipalloc.{next}
use controlplane.Ipalloc.Free.{NextOf, next-NextOf}
use controlplane.Tests.Setup.{calm, subnet, with_tenant}

abbrev taken : List Text
taken = (2886737922 ∷ []) ∷ []

next-NextOf_example : NextOf calm taken subnet (next calm (codes "172.16.0.0/29") taken)
next-NextOf_example = next-NextOf calm (codes "172.16.0.0/29") taken subnet refl refl (omega arith)

-- No prefix parses.
abbrev deaf : Env
deaf = record calm { parse_prefix = λ _. none }

get_next_available_ip-AllocationOf_example :
    AllocationOf calm subnet
      (with_tenant provisioning)
      (get_next_available_ip calm (codes "172.16.0.0/29") (with_tenant provisioning)).0
get_next_available_ip-AllocationOf_example =
    get_next_available_ip-AllocationOf calm (codes "172.16.0.0/29") subnet
      (with_tenant provisioning) ((λ _. refl), (λ _. refl), (λ _. refl), (λ _. refl)) refl refl
      (omega arith)

get_next_available_ip-again_example :
    (get_next_available_ip calm
      (codes "172.16.0.0/29")
      (get_next_available_ip calm (codes "172.16.0.0/29") (with_tenant provisioning)).1).0
    ≡ (get_next_available_ip calm (codes "172.16.0.0/29") (with_tenant provisioning)).0
get_next_available_ip-again_example =
    get_next_available_ip-again calm (codes "172.16.0.0/29") subnet (with_tenant provisioning)
      ((λ _. refl), (λ _. refl), (λ _. refl), (λ _. refl)) refl refl
