-- ===== src/Billing/Replay.antt =====
-- A redelivered event changes nothing: every write of the handlers is absolute.
use controlplane.Prelude.{
  ℕ, ==_iff, ◌≡◌, refl, sym, ap, subst, ◌∙◌, false, ◌⊎◌, inl, inr, Option, none, some, List, [],
  ◌∷◌, Text, if◌then◌else◌, ◌==◌, map, All, arith, Bool-cases, is_empty,
}
use controlplane.Table.{Among}
use controlplane.World.{World, Env, Tenant}
use controlplane.Billing.Stripe.{Gateway, Service, Event, verify_webhook}
use controlplane.Billing.Webhook.{webhook}
use controlplane.Billing.Settlement.{Payer, Bill, Owes, pays, Paid, Done, bill_of, webhook-refines}

-- The tenants of the payer have one id: there is at most one.
abbrev pub Single : Option Bill → List Tenant → Type 0
Single none rows = Unit
Single (some bill) rows =
    (t u : Tenant)
    → Among t rows
    → Among u rows
    → Owes bill.payer t
    → Owes bill.payer u
    → t.id ≡ u.id

module _ (bill : Bill) (id : ℕ) where
  pays_id : (r : Tenant) → (pays bill id r).id ≡ r.id
  pays_id r = ground arith

  pays_other : (r : Tenant) → (r.id == id) ≡ false → pays bill id r ≡ r
  pays_other r miss = ap (λ b. if b then paid_row r else r) miss
    where
      paid_row : Tenant → Tenant
      paid_row t = record t {
        stripe_customer_id = some bill.customer_id;
        stripe_subscription_id = some bill.subscription_id;
        tier = bill.tier;
      }

  -- A tenant after the payment is the one that paid, or it was there before.
  paid-Among :
      (u : Tenant) (rows : List Tenant)
      → Among u (map (pays bill id) rows)
      → (u.id ≡ id) ⊎ Among u rows
  paid-Among u [] h = absurd h
  paid-Among u (r ∷ rows) (inr later) = elim (paid-Among u rows later) [
    | inl same ↦ inl same
    | inr there ↦ inr (inr there)
  ]
  paid-Among u (r ∷ rows) (inl e) = elim (Bool-cases (r.id == id)) [
    | inl hit ↦ inl (ap (λ (t : Tenant). t.id) e ∙ pays_id r ∙ (==_iff r.id id).0 hit)
    | inr miss ↦ inr (inl (e ∙ pays_other r miss))
  ]

  pays_twice :
      (rows : List Tenant) → map (pays bill id) (map (pays bill id) rows) ≡ map (pays bill id) rows
  pays_twice [] = refl
  pays_twice (r ∷ rows) = ground (arith, pays_twice rows)

Among-none :
    (payer : Payer) (t : Tenant) (rows : List Tenant)
    → All (λ r. Owes payer r → ⊥) rows
    → Among t rows
    → Owes payer t
    → ⊥
Among-none payer t [] h there owes = there
Among-none payer t (r ∷ rows) (here, later) (inl e) owes = here (subst (Owes payer) e owes)
Among-none payer t (r ∷ rows) (here, later) (inr there) owes =
    Among-none payer t rows later there owes

-- A bill that is settled twice is settled once.
Paid-twice :
    (bill : Bill) (rows once twice : List Tenant)
    → Single (some bill) rows
    → Paid bill rows once
    → Paid bill once twice
    → twice ≡ once
Paid-twice bill rows once twice single first (inr (nobody, same)) = same
Paid-twice bill rows once twice single (inr (nobody, kept)) (inl (u, there, owes, after)) =
    absurd (Among-none bill.payer u rows nobody (subst (Among u) kept there) owes)
Paid-twice bill rows once twice single (inl (t, here, owed, paid)) (inl (u, there, owes, after)) =
    after
    ∙ ap (λ id. map (pays bill id) once) same
    ∙ ap (map (pays bill t.id)) paid
    ∙ pays_twice bill t.id rows
    ∙ sym paid
  where
    same : u.id ≡ t.id
    same = elim (paid-Among bill t.id u rows (subst (Among u) paid there)) [
      | inl e ↦ e
      | inr before ↦ single u t before here owes owed
    ]

Done-twice :
    (bill : Option Bill) (rows once twice : List Tenant)
    → Single bill rows
    → Done bill rows once
    → Done bill once twice
    → twice ≡ once
Done-twice none rows once twice single first second = second
Done-twice (some bill) rows once twice single first second =
    Paid-twice bill rows once twice single first second

-- When a verified webhook was answered 200, a redelivery of it leaves the table of tenants as it is,
-- whatever calls fail then, and whatever else has happened since that left the table alone, if the payer of
-- its bill had at most one tenant.
pub webhook_replay :
    (g : Gateway) (v : Service) (env later : Env) (payload signature : Text) (event : Event)
    (w w' : World)
    → is_empty signature ≡ false
    → verify_webhook g v payload signature ≡ some event
    → Single (bill_of g v event) w.tenants
    → (webhook g (some v) env (some payload) signature w).0 ≡ 200
    → w'.tenants ≡ (webhook g (some v) env (some payload) signature w).1.tenants
    → (webhook g (some v) later (some payload) signature w').1.tenants ≡ w'.tenants
webhook_replay g v env later payload signature event w w' signed verified single answered same =
    elim (webhook-refines g v env payload signature event w signed verified) [
      | inr (code, _) ↦ absurd (omega (arith, sym code ∙ answered))
      | inl (_, first) ↦
          elim (webhook-refines g v later payload signature event w' signed verified) [
            | inr (_, second) ↦ second
            | inl (_, second) ↦
                Done-twice (bill_of g v event) w.tenants w'.tenants _ single
                  (subst (Done (bill_of g v event) w.tenants) (sym same) first) second
          ]
    ]
