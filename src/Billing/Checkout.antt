-- ===== src/Billing/Checkout.antt =====
-- internal/billing/handler.go: `CreateCheckout`, `CreatePortal` and `Status`.
use controlplane.Prelude.{
  is_empty, ℕ, Bool, false, not, ◌||◌, Option, none, some, List, [], ◌∷◌, Text, String,
  if◌then◌else◌, map,
}
use controlplane.World.{Env, Tenant, ok, err, Action}
use controlplane.Tenant.Store.{get_billing_by_owner_id}
use controlplane.Billing.{is_paid_tier, TierLimits, get_limits}
use controlplane.Billing.Stripe.{Gateway, Service, CheckoutRequest, get_price_id}

pub data Reply : Type 0 where
  refused : ℕ → Reply
  redirect : Text → Reply

abbrev pub or_failure : Option Text → Reply
or_failure none = refused 500
or_failure (some url) = redirect url

-- The user of the context by id and address; a body that does not decode is `none`.
unfoldable pub create_checkout :
    Gateway → Option Service → Option (ℕ × Text) → Option CheckoutRequest → Reply
unfolding is_paid_tier get_price_id
create_checkout g none user rq = refused 501
create_checkout g (some v) none rq = refused 401
create_checkout g (some v) (some user) none = refused 400
create_checkout g (some v) (some user) (some rq) =
    let price = get_price_id v rq.tier in
    if not (is_paid_tier rq.tier)
    then refused 400
    else if is_empty price
    then refused 400
    else if is_empty rq.success_url || is_empty rq.cancel_url
    then refused 400
    else or_failure (g.new_checkout user.1 price rq)

abbrev pub has_stripe : Tenant → Bool
has_stripe t = elim t.stripe_customer_id [ none ↦ false | some c ↦ not (is_empty c) ]

-- The first customer id that is not empty.
pub first_customer : List Tenant → Text
first_customer [] = []
first_customer (t ∷ rest) =
    let later = first_customer rest in
    elim t.stripe_customer_id [ none ↦ later | some c ↦ if is_empty c then later else c ]

abbrev pub open_portal : Gateway → Text → Text → Reply
open_portal g customer return_url =
    if is_empty customer then refused 400 else or_failure (g.new_portal customer return_url)

unfoldable pub create_portal :
    Gateway → Option Service → Env → Option ℕ → Option Text → Action Reply
unfolding get_billing_by_owner_id
create_portal g none env user return_url w = (refused 501, w)
create_portal g (some v) env none return_url w = (refused 401, w)
create_portal g (some v) env (some owner) none w = (refused 400, w)
create_portal g (some v) env (some owner) (some return_url) w =
    let (r, w') = get_billing_by_owner_id env owner w in
    if is_empty return_url then (refused 400, w) else elim r [
      | err e ↦ (refused 500, w')
      | ok tenants ↦ (open_portal g (first_customer tenants) return_url, w')
    ]

pub record TenantStatus : Type 0 where
  pub tenant_id : ℕ
  pub tenant_name : Text
  pub tier : String
  pub limits : TierLimits
  pub has_stripe_customer : Bool

abbrev pub status_row : Tenant → TenantStatus
status_row t = record {
  tenant_id = t.id;
  tenant_name = t.name;
  tier = t.tier;
  limits = get_limits t.tier;
  has_stripe_customer = has_stripe t;
}

pub data StatusReply : Type 0 where
  status_refused : ℕ → StatusReply
  statuses : List TenantStatus → StatusReply

unfoldable pub status : Option Service → Env → Option ℕ → Action StatusReply
unfolding get_billing_by_owner_id
status none env user w = (status_refused 501, w)
status (some v) env none w = (status_refused 401, w)
status (some v) env (some owner) w =
    let (r, w') = get_billing_by_owner_id env owner w in
    elim r [
      | err e ↦ (status_refused 500, w')
      | ok tenants ↦ (statuses (map status_row tenants), w')
    ]
