-- ===== src/Billing/Webhook.antt =====
-- internal/billing/handler.go: `Webhook` and the handlers of the events. A handler returns an error
-- only if a redelivery can succeed.
use controlplane.Prelude.{
  is_empty, ℕ, Bool, ◌||◌, Option, none, some, [], Text, String, codes, text_eq, if◌then◌else◌,
  head?,
}
use controlplane.World.{Env, Tenant, Result, ok, err, unavailable, Action, on_ok}
use controlplane.Tenant.Store.{get_by_stripe_customer_id, get_billing_by_owner_id, update_billing}
use controlplane.Billing.{is_tier}
use controlplane.Billing.Stripe.{
  Gateway, Service, Event, SubscriptionData, CheckoutSessionData, get_tier_from_price_id,
  verify_webhook, parse_subscription, parse_checkout_session,
}

abbrev pub skip : Action (Result (Unit {0}))
skip w = (ok tt, w)

-- `UpdateBilling` for the tenant that was found; nothing for none.
unfoldable pub bill_found : Env → Text → Text → String → Option Tenant → Action (Result (Unit {0}))
unfolding update_billing
bill_found env customer subscription tier none w = (ok tt, w)
bill_found env customer subscription tier (some t) w =
    update_billing env t.id customer subscription tier w

-- The first tenant of the owner; an id that the driver refuses is an error of the statement.
unfoldable pub bill_owner : Env → CheckoutSessionData → Option ℕ → Action (Result (Unit {0}))
unfolding on_ok get_billing_by_owner_id bill_found
bill_owner env session none w = (err unavailable, w)
bill_owner env session (some owner) w =
    on_ok (get_billing_by_owner_id env owner)
      (λ tenants.
        bill_found env session.customer_id session.subscription_id (session.metadata "tier")
          (head? tenants))
      w

unfoldable pub complete_checkout :
    Gateway → Env → Option CheckoutSessionData → Action (Result (Unit {0}))
unfolding bill_owner
complete_checkout g env none = skip
complete_checkout g env (some session) =
    if is_tier (session.metadata "user_id") "" || is_tier (session.metadata "tier") ""
    then skip
    else bill_owner env session (g.parse_uuid (session.metadata "user_id"))

unfoldable pub handle_checkout_completed : Gateway → Env → Text → Action (Result (Unit {0}))
unfolding complete_checkout parse_checkout_session
handle_checkout_completed g env raw = complete_checkout g env (parse_checkout_session g raw)

abbrev pub terminal_subscription_status : Text → Bool
terminal_subscription_status s =
    text_eq s (codes "canceled")
    || text_eq s (codes "unpaid")
    || text_eq s (codes "incomplete_expired")

abbrev pub live_subscription_status : Text → Bool
live_subscription_status s = text_eq s (codes "active") || text_eq s (codes "trialing")

-- `GetByStripeCustomerID` and then `UpdateBilling`.
unfoldable pub bill_customer : Env → Text → Text → String → Action (Result (Unit {0}))
unfolding on_ok get_by_stripe_customer_id bill_found
bill_customer env customer subscription tier =
    on_ok (get_by_stripe_customer_id env customer) (bill_found env customer subscription tier)

unfoldable pub update_subscription :
    Service → Env → Option SubscriptionData → Action (Result (Unit {0}))
unfolding bill_customer get_tier_from_price_id
update_subscription v env none = skip
update_subscription v env (some sub) =
    if terminal_subscription_status sub.status
    then bill_customer env sub.customer_id [] "free"
    else if live_subscription_status sub.status
    then bill_customer env sub.customer_id sub.id (get_tier_from_price_id v sub.price_id)
    else skip

unfoldable pub handle_subscription_updated :
    Gateway → Service → Env → Text → Action (Result (Unit {0}))
unfolding update_subscription parse_subscription
handle_subscription_updated g v env raw = update_subscription v env (parse_subscription g raw)

unfoldable pub delete_subscription : Env → Option SubscriptionData → Action (Result (Unit {0}))
unfolding bill_customer
delete_subscription env none = skip
delete_subscription env (some sub) = bill_customer env sub.customer_id [] "free"

unfoldable pub handle_subscription_deleted : Gateway → Env → Text → Action (Result (Unit {0}))
unfolding delete_subscription parse_subscription
handle_subscription_deleted g env raw = delete_subscription env (parse_subscription g raw)

-- A failed payment is logged only, as is an event of another kind.
unfoldable pub handle_event : Gateway → Service → Env → Event → Action (Result (Unit {0}))
unfolding handle_checkout_completed handle_subscription_updated handle_subscription_deleted
handle_event g v env event =
    if text_eq event.kind (codes "checkout.session.completed")
    then handle_checkout_completed g env event.raw
    else if text_eq event.kind (codes "customer.subscription.updated")
    then handle_subscription_updated g v env event.raw
    else if text_eq event.kind (codes "customer.subscription.deleted")
    then handle_subscription_deleted g env event.raw
    else skip

abbrev pub status_of_event : Result (Unit {0}) → ℕ
status_of_event (ok _) = 200
status_of_event (err e) = 500

abbrev pub answer_event : Gateway → Service → Env → Option Event → Action ℕ
answer_event g v env none w = (400, w)
answer_event g v env (some event) w =
    let (r, w') = handle_event g v env event w in (status_of_event r, w')

-- No service is 501; `none` is a body that cannot be read.
unfoldable pub webhook : Gateway → Option Service → Env → Option Text → Text → Action ℕ
unfolding handle_event verify_webhook
webhook g none env payload signature w = (501, w)
webhook g (some v) env none signature w = (400, w)
webhook g (some v) env (some payload) signature w =
    if is_empty signature
    then (400, w)
    else answer_event g v env (verify_webhook g v payload signature) w
