-- ===== src/Tests/Edges.antt =====
-- Examples for internal/billing, internal/caddy, internal/proxmox, internal/response and
-- internal/sshexec.
use controlplane.Prelude.{
  length, ℕ, ◌+◌, ◌/◌, ◌≤◌, ◌<◌, ◌≡◌, refl, sym, ap, subst, ◌∙◌, ◌⊎◌, inl, inr, Bool, true, false,
  not, Option, none, some, List, [], ◌∷◌, ◌++◌, codes, arith, Text, text_eq, text_eq_refl,
  text_eq_iff, strip_prefix, if◌then◌else◌, Bool-cases, ltb,
}
use mathlib.Core.Bool.{false≢true}
use mathlib.Core.List.{append-nil}
use controlplane.Table.{select, Among}
use controlplane.World.{Tenant, active}
use controlplane.Tests.Setup.{a_tenant, calm, dark, with_tenant}
use controlplane.Billing.Stripe.{verify_webhook, Gateway, Service, Event, new_service}
use controlplane.Billing.Webhook.{webhook}
use controlplane.Billing.Settlement.{Bill, Done, bill_of, webhook-refines}
use controlplane.Billing.Replay.{Single, webhook_replay}
use controlplane.Caddy.{Admin, Client, CaddyRoute, route_id}
use controlplane.Caddy.Reconciler.{TenantRoute, ReconcileResult, reconcile}
use controlplane.Caddy.Refinement.{Documented, at_id, wanted, reconcile-refines}
use controlplane.Sshexec.{quote}
use controlplane.Sshexec.Words.{read_word, read_word-quote}
use controlplane.Proxmox.Task.{
  Polls, TaskStatus, Outcome, with_poll_interval, with_timeout, configure, wait,
}
use controlplane.Proxmox.Wait.{wait_total}
use controlplane.Response.{pos, parse_list_params, Query}
use controlplane.Response.Limits.{parse_list_params-limit}

read_word-quote_example :
    read_word (quote (codes "a'; reboot") ++ codes " b") ≡ some (codes "a'; reboot", codes " b")
read_word-quote_example = read_word-quote (codes "a'; reboot") (codes " b") refl

abbrev a_query : Query
a_query = record { limit = codes "9999"; offset = []; status = []; node_id = []; project_id = [] }

parse_list_params-limit_example :
    (1 ≤ (parse_list_params (λ _. some (pos 9999)) a_query).limit)
    × ((parse_list_params (λ _. some (pos 9999)) a_query).limit ≤ 200)
    × (false ≡ true → (parse_list_params (λ _. some (pos 9999)) a_query).limit ≡ 50)
parse_list_params-limit_example = parse_list_params-limit (λ _. some (pos 9999)) a_query

-- The task runs on; a request under a context that is done fails, and requests take three units.
abbrev running : TaskStatus
running = record { status = codes "running"; exit_status = []; kind = codes "vzstart" }

abbrev endless : Polls
endless = record {
  status_at = λ deadline t. if ltb t deadline then some running else none;
  latency = λ _. 3;
  prefers_done = λ _. false;
}

wait_total_example :
    (r : Outcome) × ((fuel : ℕ)
      → 30 / 10 + 1 < fuel
      → wait endless (codes "u") none (with_poll_interval 10 ∷ with_timeout 30 ∷ []) fuel ≡ some r)
unfolding configure
wait_total_example =
    wait_total endless (codes "u") none (with_poll_interval 10 ∷ with_timeout 30 ∷ []) (omega arith)
      (λ deadline t h. ground (arith, h))

-- A gateway with one event: the subscription of the customer `c` is canceled.
abbrev gateway : Gateway
gateway = record {
  construct_event =
      λ payload _ _. some (record { kind = codes "customer.subscription.updated"; raw = payload });
  decode_session = λ _. none;
  decode_subscription = λ _.
      some
        (record { id = codes "sub"; customer = codes "c"; status = codes "canceled"; prices = [] });
  parse_uuid = λ _. some 5;
  new_checkout = λ _ _ _. none;
  new_portal = λ _ _. none;
}

abbrev billing : Service
billing = new_service (codes "w") []

abbrev canceled : Event
canceled = record { kind = codes "customer.subscription.updated"; raw = codes "{}" }

webhook-refines_example :
    (((webhook gateway (some billing) calm (some (codes "{}")) (codes "sig") (with_tenant active)).0
        ≡ 200)
      × Done
          (bill_of gateway billing canceled)
          (with_tenant active).tenants
          (webhook gateway
            (some billing)
            calm
            (some (codes "{}"))
            (codes "sig")
            (with_tenant active)).1.tenants)
    ⊎ (((webhook gateway
            (some billing)
            calm
            (some (codes "{}"))
            (codes "sig")
            (with_tenant active)).0
          ≡ 500)
        × ((webhook gateway
              (some billing)
              calm
              (some (codes "{}"))
              (codes "sig")
              (with_tenant active)).1.tenants
            ≡ (with_tenant active).tenants))
unfolding verify_webhook
webhook-refines_example =
    webhook-refines gateway billing calm (codes "{}") (codes "sig") canceled (with_tenant active)
      refl refl

one_id : (t u x : Tenant) → Among t (x ∷ []) → Among u (x ∷ []) → t.id ≡ u.id
one_id t u x (inl a) (inl b) = ap (λ (r : Tenant). r.id) (a ∙ sym b)
one_id t u x (inl a) (inr none_left) = absurd none_left
one_id t u x (inr none_left) there = absurd none_left

one_tenant : (bill : Option Bill) (x : Tenant) → Single bill (x ∷ [])
one_tenant none x = tt
one_tenant (some bill) x = λ t u here there owes owed. one_id t u x here there

webhook_replay_example :
    (webhook gateway
      (some billing)
      dark
      (some (codes "{}"))
      (codes "sig")
      (webhook gateway
        (some billing)
        calm
        (some (codes "{}"))
        (codes "sig")
        (with_tenant active)).1).1.tenants
    ≡ (webhook gateway
        (some billing)
        calm
        (some (codes "{}"))
        (codes "sig")
        (with_tenant active)).1.tenants
unfolding webhook text_eq
webhook_replay_example =
    webhook_replay gateway billing calm dark (codes "{}") (codes "sig") canceled
      (with_tenant active)
      (webhook gateway (some billing) calm (some (codes "{}")) (codes "sig") (with_tenant active)).1
      refl refl
      (one_tenant (bill_of gateway billing canceled) (record a_tenant { status = active })) refl
      refl

-- A server that accepts every route and answers 200.
abbrev client : Client
client = record {
  base_url = codes "b";
  server_name = codes "srv1";
  upstream_port = codes "80";
  domain = codes "d";
}

abbrev id_of : Text → Text
id_of url = elim (strip_prefix (codes "b/id/") url) [ none ↦ [] | some id ↦ id ]

abbrev server : Admin (List CaddyRoute)
server = record {
  post = λ url r s. (some 200, s ++ r ∷ []);
  delete = λ url s. (some 200, select (λ r. not (text_eq r.id (id_of url))) s);
  get = λ url s. (some (200, some s), s);
}

select-append :
    (p : CaddyRoute → Bool) (s t : List CaddyRoute) → select p (s ++ t) ≡ select p s ++ select p t
unfolding select
select-append p [] t = refl
select-append p (r ∷ s) t = elim (Bool-cases (p r)) [
  | inl e ↦ rw e (ap (λ rest. r ∷ rest) (select-append p s t))
  | inr e ↦ rw e (select-append p s t)
]

select-deleted :
    (id : Text) (s : List CaddyRoute) → at_id id (select (λ r. not (text_eq r.id id)) s) ≡ []
unfolding select
select-deleted id [] = refl
select-deleted id (r ∷ s) = ground (arith, select-deleted id s)

apart :
    (r : CaddyRoute) (id other : Text)
    → text_eq id other ≡ false
    → text_eq r.id id ≡ true
    → text_eq r.id other ≡ false
apart r id other h e = subst (λ i. text_eq i other ≡ false) (sym ((text_eq_iff r.id id).0 e)) h

select-kept :
    (id other : Text) (s : List CaddyRoute)
    → text_eq id other ≡ false
    → at_id id (select (λ r. not (text_eq r.id other)) s) ≡ at_id id s
unfolding select
select-kept id other [] h = refl
select-kept id other (r ∷ s) h = elim (Bool-cases (text_eq r.id id)) [
  | inl e ↦ rw (apart r id other h e, e) (ap (λ rest. r ∷ rest) (select-kept id other s h))
  | inr e ↦ ground (arith, e, select-kept id other s h)
]

other-false : (r : CaddyRoute) (id : Text) → text_eq id r.id ≡ false → text_eq r.id id ≡ false
other-false r id h = elim (Bool-cases (text_eq r.id id)) [
  | inl e ↦ absurd (false≢true (sym h ∙ (text_eq_iff id r.id).1 (sym ((text_eq_iff r.id id).0 e))))
  | inr e ↦ e
]

server-Documented : Documented server client (λ s. s)
unfolding select strip_prefix
server-Documented = record {
  posted = λ r s h.
      select-append (λ x. text_eq x.id r.id) s (r ∷ [])
      ∙ ap (λ rest. at_id r.id s ++ rest) (rw (text_eq_refl r.id) refl);
  post_other = λ r s id h.
      select-append (λ x. text_eq x.id id) s (r ∷ [])
      ∙ rw (other-false r id h) (append-nil (at_id id s));
  deleted = λ subdomain s h. select-deleted (route_id subdomain) s;
  delete_other = λ subdomain s id h. select-kept id (route_id subdomain) s h;
}

abbrev stale : CaddyRoute
stale = record { id = route_id (codes "one"); matches = []; handle = []; terminal = true }

abbrev two_tenants : List TenantRoute
two_tenants =
    record { subdomain = codes "one"; lxc_ip = codes "10.0.0.3" }
    ∷ record { subdomain = codes "two"; lxc_ip = codes "10.0.0.4" }
    ∷ []

abbrev both : ReconcileResult
both = record { success = 2; failed = 0 }

reconcile-refines_example :
    (both.success + both.failed ≡ length two_tenants)
    × (both.failed ≡ 0
        → (id : Text)
        → at_id id (reconcile server client (some two_tenants) (stale ∷ [])).1
          ≡ wanted client two_tenants id (at_id id (stale ∷ [])))
unfolding reconcile select
reconcile-refines_example =
    reconcile-refines server client (λ s. s) server-Documented two_tenants (stale ∷ [])
      (reconcile server client (some two_tenants) (stale ∷ [])).1 both refl
