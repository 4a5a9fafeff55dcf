-- ===== src/Provisioner/Steps.antt =====
-- internal/provisioner/provisioner.go: a run of `doProvision` as steps that can end it early, and
-- what is done on a failure.
use controlplane.Prelude.{ℕ, Bool, Option, none, some, String, ltb, if◌then◌else◌}
use controlplane.World.{
  World, Env, Job, Result, ok, err, Action, on_ok, call, Call, delete_container, wait, delete_task,
  Task,
}
use controlplane.Tenant.Store.{set_error}
use controlplane.Node.Store.{release_ram}

-- `none` means that the function has returned.
abbrev pub Step : Type 0 → Type 0
Step A = World → Option A × World

unfoldable pub pure : {A : Type 0} → A → Step A
pure a w = (some a, w)

infixl 5 ◌>>=◌ ◌>>◌
unfoldable pub ◌>>=◌ : {A B : Type 0} → Step A → (A → Step B) → Step B
◌>>=◌ m f w = let (a, w') = m w in elim a [ none ↦ (none, w') | some x ↦ f x w' ]

abbrev pub ◌>>◌ : {A B : Type 0} → Step A → Step B → Step B
m >> k = m >>= λ _. k

-- `if err != nil { handler; return }`
unfoldable pub or_fail : {A : Type 0} → Action (Result A) → (World → World) → Step A
or_fail m handler w =
    let (r, w') = m w in elim r [ ok a ↦ (some a, w') | err _ ↦ (none, handler w') ]

unfoldable pub present : {A : Type 0} → Option A → (World → World) → Step A
present none handler w = (none, handler w)
present (some a) handler w = (some a, w)

-- An action whose error is logged only.
unfoldable pub best_effort : {A : Type 0} → Action A → Step (Unit {0})
best_effort m w = (some tt, (m w).1)

unfoldable pub when : Bool → (World → World) → World → World
when b f w = if b then f w else w

-- `setError`: the error status, and the memory back, whether or not the first could be written.
unfoldable pub fail_job : Env → Job → String → World → World
fail_job env job message w =
    let w1 = (set_error env job.tenant_id message w).1 in
    when (ltb 0 job.ram_mb) (λ v. (release_ram env job.node_id job.ram_mb v).1) w1

-- A call, and the wait for the task that it starts.
unfoldable pub run_task : Env → Call → Task → ℕ → Action (Result (Unit {0}))
run_task env start task vmid = on_ok (call env start) λ _. call env (wait task vmid)

-- `cleanupAndError`: the container is deleted first.
unfoldable pub cleanup_and_fail : Env → Job → ℕ → String → World → World
cleanup_and_fail env job vmid message w =
    fail_job env job message (run_task env (delete_container vmid) delete_task vmid w).1
