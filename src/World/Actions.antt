-- ===== src/World/Actions.antt =====
-- Calls as state passing. A Go function that returns `(T, error)` is an `Action (Result T)`.
use controlplane.Prelude.{Bool, ◌∷◌, if◌then◌else◌}
use controlplane.Table.{update, exists}
use controlplane.World.Model.{Node, Tenant}
use controlplane.World.Calls.{World, Env, Call, sql, Statement, unavailable, Result, ok, err}

abbrev pub Action : Type 0 → Type 0
Action A = World → A × World

abbrev pub pure : {A : Type 0} → A → Action A
pure a w = (a, w)

infixl 5 ◌>>=◌ ◌>>◌
abbrev pub ◌>>=◌ : {A B : Type 0} → Action A → (A → Action B) → Action B
◌>>=◌ m f w = let (a, w') = m w in f a w'

abbrev pub ◌>>◌ : {A B : Type 0} → Action A → Action B → Action B
m >> k = m >>= λ _. k

-- `if err != nil { return err }`, and then the rest.
unfoldable pub on_ok :
    {A B : Type 0} → Action (Result A) → (A → Action (Result B)) → Action (Result B)
on_ok m f w = let (r, w') = m w in elim r [ ok a ↦ f a w' | err e ↦ (err e, w') ]

abbrev pub log : Call → World → World
log c w = record w { trace = c ∷ w.trace }

-- A call for its effect elsewhere: it fails or it is done.
unfoldable pub call : Env → Call → Action (Result (Unit {0}))
call env c w = let w' = log c w in (if env.fails w'.trace then err unavailable else ok tt, w')

-- A statement that reads.
unfoldable pub query : {A : Type 0} → Env → Statement → (World → A) → Action (Result A)
query env c f w =
    let w' = log (sql c) w in (if env.fails w'.trace then err unavailable else ok (f w'), w')

-- `UPDATE tenants SET f WHERE p`; `zero` is what the method returns for `RowsAffected() == 0`.
unfoldable pub exec_tenants :
    Env
    → Statement
    → (Tenant → Bool)
    → (Tenant → Tenant)
    → Result (Unit {0})
    → Action (Result (Unit {0}))
exec_tenants env c p f zero w =
    let w' = log (sql c) w in
    if env.fails w'.trace
    then (err unavailable, w')
    else if exists p w.tenants
    then (ok tt, record w' { tenants = update p f w.tenants })
    else (zero, w')

-- The same over the nodes.
unfoldable pub exec_nodes :
    Env → Statement → (Node → Bool) → (Node → Node) → Result (Unit {0}) → Action (Result (Unit {0}))
exec_nodes env c p f zero w =
    let w' = log (sql c) w in
    if env.fails w'.trace
    then (err unavailable, w')
    else if exists p w.nodes
    then (ok tt, record w' { nodes = update p f w.nodes })
    else (zero, w')
