-- ===== src/Lib.antt =====
-- The control plane: a server that keeps tenants in containers on Proxmox nodes.
--
-- Parts and files. Paths are those of the repository.
--   * World: the tables of the database as lists of rows, newest first (internal/tenant/model.go,
--     internal/node/model.go, internal/project/model.go), what else a call can change (cached clients,
--     started jobs, audit entries), and the history of the calls that left the process. A Go function
--     that returns `(T, error)` is an `Action (Result T)`: from a world to a result and a world.
--     `exec_tenants`, `exec_nodes` and `query` are one SQL statement each.
--   * Table: `UPDATE … WHERE`, `SELECT … WHERE` and primary keys on lists of rows.
--   * Tenant.Store: internal/tenant/store.go and internal/tenant/tenant_pollable.go, one function for
--     each method, in the files Select (reads), Insert (Create, CreateWithOwner, Update), Assign (the
--     transitions of the status and the single columns) and Reach (addresses).
--   * Tenant.Subdomain, Tenant.Lifecycle: internal/tenant/lifecycle.go. `create_tenant` and
--     `delete_tenant` are `Create` and `Delete` of `LifecycleService`.
--   * Tenant.Handler, Tenant.UserHandler: internal/tenant/handler.go and
--     internal/tenant/user_handler.go, from the decoded request to the status of the response.
--     `switch` is `Suspend` and `Resume`, `user_create` is `UserHandler.Create` with its quota.
--   * Auth: internal/auth and internal/user. Model has the state (users, revoked tokens, refresh tokens,
--     the login limiter) and the services outside; Users and Tokens are the two stores, Limiter the login
--     limiter of handler.go, Login and Account the handlers, Gate the middleware, Serve one request of any
--     kind, Session the responses and cookies. Rotation and Revocation follow one token through later
--     requests.
--   * Billing: internal/billing/tiers.go. Its children are Stripe (stripe.go), Webhook and Checkout
--     (handler.go), Settlement, which says abstractly who pays what, and Replay, which is about redelivery.
--   * Caddy: internal/caddy/client.go, and Caddy.Reconciler: internal/caddy/reconciler.go, over an Admin
--     API that is a parameter.
--   * Crypto: internal/crypto/crypto.go, over the standard library's cipher as a parameter.
--   * Wireguard: internal/wireguard, over a tool `wg` that is a parameter. Store, Validate, Service and
--     Handler stand for the files of these names, ClientConfig for `BuildPeerConfig` of service.go.
--   * Sshexec: `Quote` of internal/sshexec/client.go; Sshexec.Words reads a word as a shell does.
--   * Proxmox.Task: `Wait` of internal/proxmox/task.go and the errors of internal/proxmox/errors.go.
--   * Response: `ParseListParams` of internal/response/pagination.go.
--   * Node.Store: internal/node/store.go. Project: internal/project/store.go, and
--     Project.Handler: internal/project/handler.go.
--   * Ipalloc: internal/ipalloc/ipalloc.go.
--   * Provisioner: internal/provisioner/provisioner.go. `doProvision` is a chain of steps that may
--     return early: Stages (up to the running container), Finish (token, status, deploy, station, route,
--     health), Provision (the chain, the goroutine and the recovery of a panic), Teardown
--     (`Deprovision`, `Suspend`, `Resume`), Client (`getClient`), Deploy (`deployFreeRadio`,
--     `waitForHealth`), Steps (`setError` is `fail_job`, `cleanupAndError` is `cleanup_and_fail`).
--   * The other modules of a part hold its proofs and are named for what they are about; Tests has the
--     theorems at concrete inputs.
--
-- How the parts interact. The handlers call the stores and the lifecycle service. That service reserves
-- memory in the node store, inserts the row in the tenant store and starts a job; the job is a run of
-- the provisioner, which changes the same tables and calls Proxmox, the hosts over SSH, Caddy and the
-- station creator. The webhooks of Billing change the tier of tenants through the tenant store. Auth and
-- Wireguard have their own tables, so each has its own state and history of calls; Caddy's is that of the
-- server it talks to.
--
-- What is outside the repository is the record `Env`: for each call, after the history that leads to it,
-- whether it fails and what it answers (new ids, random tokens, HTTP statuses, parsed URLs and prefixes,
-- printed addresses). A statement that fails has changed nothing. A panic is modelled by what its
-- recovery does.
--
-- Bounds. `waitForHealth` looks at most `polls` times, the number that its deadline allows. The search
-- of `Next` has the broadcast address as fuel, one for each candidate below it. `Wait` has fuel as an
-- argument; timeout / interval + 1 polls are enough, since then the deadline has passed. Numbers stay
-- below the widths of their columns, so no sum wraps. Amounts of memory are natural numbers: a negative
-- `ram_mb`, which the API for projects takes, is outside the model.
--
-- A `LIMIT 1` without an order returns any row that matches: `pick_row`, with the number from `Env`.
--
-- Not modelled: the columns created_at, updated_at and health_checked_at; the foreign key of the owner;
-- a filter on a status that no tenant can have; the order of rows with equal keys in an `ORDER BY`
-- (the newest comes first); logging; the parsing of requests, the format of ids and the values at the
-- end of some messages; the interleaving of two runs (their statements one by one are histories of
-- Tenant.History and Node.Capacity); the mutex of the login limiter and the ticker of the janitor;
-- `ParseInvoice`, which feeds a log line; the HTTP client of Proxmox and the SSH session, which are
-- calls of the environment; the packages for pages, stations, audit, health,
-- configuration, the database and the wiring of the server; internal/node/handler.go.
pub mod Prelude
pub mod Table
pub mod World
pub mod Ipalloc
pub mod Tenant
pub mod Node
pub mod Project
pub mod Auth
pub mod Billing
pub mod Caddy
pub mod Crypto
pub mod Provisioner
pub mod Proxmox
pub mod Response
pub mod Sshexec
pub mod Wireguard
pub mod Tests
