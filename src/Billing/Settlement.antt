-- ===== src/Billing/Settlement.antt =====
-- What an event of Stripe means for the table of tenants, and that `Webhook` does this and no more.
use controlplane.Prelude.{
  ℕ, ◌≡◌, ◌≢◌, refl, sym, ap, subst, ◌∙◌, Bool, true, false, not, ◌&&◌, ◌||◌, ◌⊎◌, inl, inr, Option,
  none, some, List, [], ◌∷◌, Text, String, codes, text_eq, text_eq_iff, text_eq_refl, if◌then◌else◌,
  map, holds, All, ◌==◌, ==_iff, arith, Bool-cases, is_empty, head?,
}
use mathlib.Core.Bool.{false≢true}
use controlplane.Table.{
  update, select, exists, Among, PickOf, pick_row, pick_row-PickOf, head-PickOf,
}
use controlplane.World.{
  World, log, Env, Tenant, Status, provisioning, active, suspended, error, deleting, deleted,
  is_status, Result, ok, err, Action, on_ok, query, exec_tenants, sql, Statement, tenant_list,
  tenant_get, tenant_update_billing,
}
use controlplane.Tenant.Store.{
  is_live, at, anything, billed, update_billing, get_by_stripe_customer_id, get_billing_by_owner_id,
  owned_live, is_text,
}
use controlplane.Billing.{is_tier}
use controlplane.Billing.Stripe.{
  Gateway, Service, Event, SubscriptionData, CheckoutSessionData, get_tier_from_price_id,
  verify_webhook, parse_subscription, parse_checkout_session,
}
use controlplane.Billing.Webhook.{
  skip, bill_found, bill_owner, complete_checkout, handle_checkout_completed, bill_customer,
  update_subscription, handle_subscription_updated, delete_subscription,
  handle_subscription_deleted, handle_event, webhook, status_of_event,
}

-- The tenant that an event is about, and what it is billed.
pub data Payer : Type 0 where
  owner : ℕ → Payer
  customer : Text → Payer

pub record Bill : Type 0 where
  pub payer : Payer
  pub customer_id : Text
  pub subscription_id : Text
  pub tier : String

-- The tenant is not deleted, and it is the owner's or the customer's.
abbrev pub Owes : Payer → Tenant → Type 0
Owes (owner id) t = (t.owner_id ≡ some id) × (t.status ≢ deleted)
Owes (customer c) t = (t.stripe_customer_id ≡ some c) × (t.status ≢ deleted)

abbrev pub pays : Bill → ℕ → Tenant → Tenant
pays bill id r =
    if r.id == id
    then record r {
      stripe_customer_id = some bill.customer_id;
      stripe_subscription_id = some bill.subscription_id;
      tier = bill.tier;
    }
    else r

-- One tenant of the payer takes the bill, or there is none.
abbrev pub Paid : Bill → List Tenant → List Tenant → Type 0
Paid bill before after =
    ((t : Tenant) × Among t before × Owes bill.payer t × (after ≡ map (pays bill t.id) before))
    ⊎ (All (λ t. Owes bill.payer t → ⊥) before × (after ≡ before))

abbrev pub Done : Option Bill → List Tenant → List Tenant → Type 0
Done none before after = after ≡ before
Done (some bill) before after = Paid bill before after

-- How Stripe's subscription statuses stand: one that ends the subscription for good, one that is paid for, or
-- one that says nothing yet.
pub data Standing : Type 0 where
  ended paid_for undecided : Standing

abbrev pub standings : List (Text × Standing)
standings =
    (codes "canceled", ended)
    ∷ (codes "unpaid", ended)
    ∷ (codes "incomplete_expired", ended)
    ∷ (codes "active", paid_for)
    ∷ (codes "trialing", paid_for)
    ∷ []

pub standing_in : List (Text × Standing) → Text → Standing
standing_in [] s = undecided
standing_in ((name, standing) ∷ rest) s =
    let later = standing_in rest s in if text_eq s name then standing else later

abbrev pub free_of : Text → Bill
free_of c = record { payer = customer c; customer_id = c; subscription_id = []; tier = "free" }

abbrev pub checkout_bill : CheckoutSessionData → Option ℕ → Option Bill
checkout_bill session none = none
checkout_bill session (some id) = some (record {
  payer = owner id;
  customer_id = session.customer_id;
  subscription_id = session.subscription_id;
  tier = session.metadata "tier";
})

abbrev pub session_bill : Gateway → Option CheckoutSessionData → Option Bill
session_bill g none = none
session_bill g (some session) =
    if is_tier (session.metadata "user_id") "" || is_tier (session.metadata "tier") ""
    then none
    else checkout_bill session (g.parse_uuid (session.metadata "user_id"))

-- An ended subscription is the free tier without a subscription, a paid one the tier of its price.
abbrev pub standing_bill : Service → SubscriptionData → Standing → Option Bill
standing_bill v sub ended = some (free_of sub.customer_id)
standing_bill v sub paid_for = some (record {
  payer = customer sub.customer_id;
  customer_id = sub.customer_id;
  subscription_id = sub.id;
  tier = get_tier_from_price_id v sub.price_id;
})
standing_bill v sub undecided = none

abbrev pub subscription_bill : Service → Option SubscriptionData → Option Bill
subscription_bill v none = none
subscription_bill v (some sub) = standing_bill v sub (standing_in standings sub.status)

abbrev pub deletion_bill : Option SubscriptionData → Option Bill
deletion_bill none = none
deletion_bill (some sub) = some (free_of sub.customer_id)

unfoldable pub bill_of : Gateway → Service → Event → Option Bill
unfolding standing_in
bill_of g v event =
    if text_eq event.kind (codes "checkout.session.completed")
    then session_bill g (parse_checkout_session g event.raw)
    else if text_eq event.kind (codes "customer.subscription.updated")
    then subscription_bill v (parse_subscription g event.raw)
    else if text_eq event.kind (codes "customer.subscription.deleted")
    then deletion_bill (parse_subscription g event.raw)
    else none

-- The action settles the bill, or fails and leaves the table as it is.
abbrev Settled : Option Bill → Result (Unit {0}) → List Tenant → List Tenant → Type 0
Settled bill (ok _) before after = Done bill before after
Settled bill (err e) before after = after ≡ before

record Settles (bill : Option Bill) (m : Action (Result (Unit {0}))) : Type 0 where
  pub settles : (w : World) → Settled bill (m w).0 w.tenants (m w).1.tenants

skip-Settles : Settles none skip
skip-Settles = record { settles = λ w. refl }

if-Settles :
    (b : Bool) (x y : Option Bill) (m n : Action (Result (Unit {0})))
    → Settles x m
    → Settles y n
    → Settles (if b then x else y) (if b then m else n)
if-Settles true x y m n p q = p
if-Settles false x y m n p q = q

-- The conditions of the two statements that look for a tenant.
abbrev finds : Payer → Tenant → Bool
finds (owner id) t = owned_live id t
finds (customer c) t = is_text t.stripe_customer_id c && is_live t

and-both : (a b : Bool) → (a && b) ≡ true → (a ≡ true) × (b ≡ true)
and-both true b h = (refl, h)
and-both false b h = absurd (false≢true h)

live-alive : (s : Status) → not (is_status s deleted) ≡ true → s ≢ deleted
live-alive s h e = false≢true (subst (λ x. not (is_status x deleted) ≡ true) e h)

alive-live : (s : Status) → s ≢ deleted → not (is_status s deleted) ≡ true
alive-live provisioning h = refl
alive-live active h = refl
alive-live suspended h = refl
alive-live error h = refl
alive-live deleting h = refl
alive-live deleted h = absurd (h refl)

is_text-some : (o : Option Text) (c : Text) → is_text o c ≡ true → o ≡ some c
is_text-some none c h = absurd (false≢true h)
is_text-some (some t) c h = ap some ((text_eq_iff t c).0 h)

holds-some : (o : Option ℕ) (id : ℕ) → holds o id ≡ true → o ≡ some id
holds-some none id h = absurd (false≢true h)
holds-some (some a) id h = ap some ((==_iff a id).0 h)

finds-Owes : (payer : Payer) (t : Tenant) → finds payer t ≡ true → Owes payer t
finds-Owes (owner id) t h =
    let (mine, alive) = and-both (holds t.owner_id id) (is_live t) h in
    (holds-some t.owner_id id mine, live-alive t.status alive)
finds-Owes (customer c) t h =
    let (theirs, alive) = and-both (is_text t.stripe_customer_id c) (is_live t) h in
    (is_text-some t.stripe_customer_id c theirs, live-alive t.status alive)

Owes-finds : (payer : Payer) (t : Tenant) → Owes payer t → finds payer t ≡ true
Owes-finds (owner id) t (mine, alive) = rw (mine, (==_iff id id).1 refl) (alive-live t.status alive)
Owes-finds (customer c) t (theirs, alive) = rw (theirs, text_eq_refl c) (alive-live t.status alive)

none_found :
    (payer : Payer) (rows : List Tenant)
    → All (λ t. finds payer t ≡ false) rows
    → All (λ t. Owes payer t → ⊥) rows
none_found payer [] h = tt
none_found payer (t ∷ rows) (missed, later) =
    (λ owes. false≢true (sym missed ∙ Owes-finds payer t owes), none_found payer rows later)

update-pays :
    (bill : Bill) (id : ℕ) (rows : List Tenant)
    → update (at id anything) (billed bill.customer_id bill.subscription_id bill.tier) rows
      ≡ map (pays bill id) rows
unfolding update
update-pays bill id [] = refl
update-pays bill id (r ∷ rows) = ground (arith, update-pays bill id rows)

module _ (env : Env) (bill : Bill) where
  paid-Settled :
      (o : Option Tenant) (w : World)
      → PickOf (finds bill.payer) w.tenants o
      → Settled
          (some bill)
          (bill_found env bill.customer_id bill.subscription_id bill.tier o w).0
          w.tenants
          (bill_found env bill.customer_id bill.subscription_id bill.tier o w).1.tenants
  unfolding bill_found update_billing exec_tenants
  paid-Settled none w nobody = inr (none_found bill.payer w.tenants nobody, refl)
  paid-Settled (some t) w (there, owes) =
      elim (Bool-cases (env.fails (sql tenant_update_billing ∷ w.trace))) [
        | inl failed ↦ rw failed refl
        | inr answered ↦ rw answered (elim (Bool-cases (exists (at t.id anything) w.tenants)) [
          | inl hit ↦
              rw hit (inl (t, there, finds-Owes bill.payer t owes, update-pays bill t.id w.tenants))
          | inr miss ↦ rw miss refl
        ])
      ]

  -- The statement that finds the payer, and what follows.
  lookup-Settles :
      {A : Type 0} (c : Statement) (look : World → A) (first : A → Option Tenant)
      → ((w : World) → PickOf (finds bill.payer) w.tenants (first (look w)))
      → Settles (some bill) (
          on_ok
            (query env c look)
            (λ a. bill_found env bill.customer_id bill.subscription_id bill.tier (first a)))
  unfolding on_ok query
  lookup-Settles c look first picked = record {
    settles = λ w. elim (Bool-cases (env.fails (sql c ∷ w.trace))) [
      | inl failed ↦ rw (on_ok, failed) refl
      | inr answered ↦
          rw (on_ok, answered)
            (paid-Settled (first (look (log (sql c) w))) (log (sql c) w) (picked (log (sql c) w)))
    ];
  }

module _ (g : Gateway) (v : Service) (env : Env) where
  bill_customer-Settles :
      (c s : Text) (tier : String)
      → Settles
          (some (record { payer = customer c; customer_id = c; subscription_id = s; tier = tier }))
          (bill_customer env c s tier)
  unfolding bill_customer get_by_stripe_customer_id
  bill_customer-Settles c s tier =
      lookup-Settles env
        (record { payer = customer c; customer_id = c; subscription_id = s; tier = tier })
        tenant_get (λ w. pick_row (env.row_of w.trace) (select (finds (customer c)) w.tenants))
        (λ o. o) (λ w. pick_row-PickOf (finds (customer c)) (env.row_of w.trace) w.tenants)

  -- An id that is no UUID is an error, and the spec of an error is that nothing changes.
  bill_owner-Settles :
      (session : CheckoutSessionData) (id : Option ℕ)
      → Settles (checkout_bill session id) (bill_owner env session id)
  unfolding bill_owner get_billing_by_owner_id
  bill_owner-Settles session none = record { settles = λ w. refl }
  bill_owner-Settles session (some id) = record {
    settles =
        (lookup-Settles env
          (record {
            payer = owner id;
            customer_id = session.customer_id;
            subscription_id = session.subscription_id;
            tier = session.metadata "tier";
          })
          tenant_list (λ w. select (owned_live id) w.tenants) head?
          (λ w. head-PickOf (owned_live id) w.tenants)).settles;
  }

  checkout-Settles :
      (session : Option CheckoutSessionData)
      → Settles (session_bill g session) (complete_checkout g env session)
  unfolding complete_checkout
  checkout-Settles none = skip-Settles
  checkout-Settles (some session) =
      if-Settles (is_tier (session.metadata "user_id") "" || is_tier (session.metadata "tier") "")
        none _ skip _ skip-Settles
        (bill_owner-Settles session (g.parse_uuid (session.metadata "user_id")))

  -- The standing decides as the two sets of statuses do.
  standing-Settles :
      (sub : SubscriptionData)
      → Settles
          (standing_bill v sub (standing_in standings sub.status))
          (update_subscription v env (some sub))
  unfolding update_subscription standing_in
  standing-Settles sub =
      choose (is (codes "canceled")) (is (codes "unpaid")) (is (codes "incomplete_expired"))
        (is (codes "active")) (is (codes "trialing"))
    where
      is : Text → Bool
      is name = text_eq sub.status name

      over : Settles (standing_bill v sub ended) (bill_customer env sub.customer_id [] "free")
      over = bill_customer-Settles sub.customer_id [] "free"

      choose :
          (a b c d e : Bool)
          → Settles
              (standing_bill v sub (
                if a
                then ended
                else if b
                then ended
                else if c
                then ended
                else if d
                then paid_for
                else if e
                then paid_for
                else undecided))
              (if a || b || c
                then bill_customer env sub.customer_id [] "free"
                else if d || e
                then bill_customer env sub.customer_id sub.id
                    (get_tier_from_price_id v sub.price_id)
                else skip)
      choose true b c d e = over
      choose false true c d e = over
      choose false false true d e = over
      choose false false false true e =
          bill_customer-Settles sub.customer_id sub.id (get_tier_from_price_id v sub.price_id)
      choose false false false false true =
          bill_customer-Settles sub.customer_id sub.id (get_tier_from_price_id v sub.price_id)
      choose false false false false false = skip-Settles

  updated-Settles :
      (sub : Option SubscriptionData)
      → Settles (subscription_bill v sub) (update_subscription v env sub)
  unfolding update_subscription
  updated-Settles none = skip-Settles
  updated-Settles (some sub) = standing-Settles sub

  deleted-Settles :
      (sub : Option SubscriptionData) → Settles (deletion_bill sub) (delete_subscription env sub)
  unfolding delete_subscription
  deleted-Settles none = skip-Settles
  deleted-Settles (some sub) = bill_customer-Settles sub.customer_id [] "free"

  handle_event-Settles : (event : Event) → Settles (bill_of g v event) (handle_event g v env event)
  unfolding bill_of handle_event handle_checkout_completed handle_subscription_updated
      handle_subscription_deleted
  handle_event-Settles event =
      if-Settles (text_eq event.kind (codes "checkout.session.completed")) _ _ _ _
        (checkout-Settles (parse_checkout_session g event.raw))
        (if-Settles (text_eq event.kind (codes "customer.subscription.updated")) _ _ _ _
          (updated-Settles (parse_subscription g event.raw))
          (if-Settles (text_eq event.kind (codes "customer.subscription.deleted")) _ _ _ _
            (deleted-Settles (parse_subscription g event.raw)) skip-Settles))

  -- A webhook whose signature is verified is answered 200 when the bill of its event is settled in the table of
  -- tenants, by one tenant of the payer that takes it and no other change, or by none if the payer
  -- has no tenant, and 500 when the table is as it was; there is no third case.
  pub webhook-refines :
      (payload signature : Text) (event : Event) (w : World)
      → is_empty signature ≡ false
      → verify_webhook g v payload signature ≡ some event
      → (((webhook g (some v) env (some payload) signature w).0 ≡ 200)
          × Done
              (bill_of g v event)
              w.tenants
              (webhook g (some v) env (some payload) signature w).1.tenants)
        ⊎ (((webhook g (some v) env (some payload) signature w).0 ≡ 500)
            × ((webhook g (some v) env (some payload) signature w).1.tenants ≡ w.tenants))
  unfolding webhook
  webhook-refines payload signature event w signed verified =
      rw (signed, verified)
        (go (handle_event g v env event w) ((handle_event-Settles event).settles w))
    where
      go :
          (r : Result (Unit {0}) × World)
          → Settled (bill_of g v event) r.0 w.tenants r.1.tenants
          → ((status_of_event r.0 ≡ 200) × Done (bill_of g v event) w.tenants r.1.tenants)
            ⊎ ((status_of_event r.0 ≡ 500) × (r.1.tenants ≡ w.tenants))
      go (ok u, w') h = inl (refl, h)
      go (err e, w') h = inr (refl, h)
