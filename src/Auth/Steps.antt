-- ===== src/Auth/Steps.antt =====
-- What an action does, once its first call is known to have failed or not.
use controlplane.Prelude.{true, false, ◌≡◌, refl, ap, ◌∷◌}
use controlplane.World.{Result, ok, err, unavailable, Error}
use controlplane.Auth.Model.{
  State, Services, Action, Statement, sql, log, attempt, best_effort, exec, query,
}

module _ {A B : Type 0} (m : Action (Result A)) (bad : Error → Action B) (good : A → Action B) where
  abbrev outcome : Result A × State → B × State
  outcome r = elim r.0 as (λ _. B × State) [ ok a ↦ good a r.1 | err e ↦ bad e r.1 ]

  pub attempt-ok : (s s' : State) (a : A) → m s ≡ (ok a, s') → attempt m bad good s ≡ good a s'
  unfolding attempt
  attempt-ok s s' a e = ap outcome e

  pub attempt-err : (s s' : State) (e : Error) → m s ≡ (err e, s') → attempt m bad good s ≡ bad e s'
  unfolding attempt
  attempt-err s s' e h = ap outcome h

pub best_effort-ok :
    {B : Type 0} (m : Action (Result (Unit {0}))) (rest : Action B) (s s' : State)
    → m s ≡ (ok tt, s')
    → best_effort m rest s ≡ rest s'
unfolding best_effort
best_effort-ok m rest s s' e = attempt-ok m (λ _. rest) (λ _. rest) s s' tt e

module _ (v : Services) (c : Statement) (s : State) where
  pub exec-ok :
      (f : State → State)
      → v.fails (sql c ∷ s.trace) ≡ false
      → exec v c f s ≡ (ok tt, f (log (sql c) s))
  unfolding exec
  exec-ok f e = rw e refl

  pub query-ok :
      {A : Type 0} (f : State → A)
      → v.fails (sql c ∷ s.trace) ≡ false
      → query v c f s ≡ (ok (f (log (sql c) s)), log (sql c) s)
  unfolding query
  query-ok f e = rw e refl

  pub query-err :
      {A : Type 0} (f : State → A)
      → v.fails (sql c ∷ s.trace) ≡ true
      → query v c f s ≡ (err unavailable, log (sql c) s)
  unfolding query
  query-err f e = rw e refl
