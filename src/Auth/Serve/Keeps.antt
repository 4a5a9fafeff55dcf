-- ===== src/Auth/Serve/Keeps.antt =====
-- A property of the token tables that the statements keep is kept by every handler.
use controlplane.Prelude.{
  ℕ, ◌≤◌, ◌<◌, length, arith, ◌+◌, refl, Bool, true, false, ◌==◌, ◌≡◌, none, List, ◌∷◌, Text,
  text_eq, if◌then◌else◌, Bool-cases, inl, inr,
}
use controlplane.Table.{update, exists}
use controlplane.World.{Result, ok, err, Error}
use controlplane.Auth.Model.{
  User, RevokedToken, RefreshToken, State, Services, Config, Action, Call, Statement, log, sql,
  query, exec, attempt, best_effort, random_bytes, user_insert, revoked_insert, refresh_revoke,
  refresh_revoke_all, refresh_validate, refresh_insert, user_update_password,
}
use controlplane.Auth.Users.{update_password, create}
use controlplane.Auth.Tokens.{
  revoke, has_jti, bar, issue, spend, holds_hash, is_live_of, valid_user, create_refresh_token,
  validate_refresh_token, revoke_refresh_token, revoke_all_user_refresh_tokens, revoked_now,
  generate_refresh_token, hash_token,
}
use controlplane.Auth.Session.{
  answer_session, issue_token_pair, generate_access_token, pass_on, store_pair, issue_refresh,
  pair_of, refresh_token_expiry,
}

-- What the statements do to the two tables, from a state on in which `n` calls have been made.
pub record Stable (v : Services) (n : ℕ) (Q : List RevokedToken → List RefreshToken → Type 0)
    : Type 0 where
  pub issued :
      (h : List Call)
      → n < length h
      → (user expires : ℕ) (a : List RevokedToken) (b : List RefreshToken) → Q a b
      → Q a (
          record {
            user_id = user;
            token_hash = v.sha256 (v.fresh_secret h);
            expires_at = expires;
            revoked_at = none;
          }
          ∷ b)
  pub spent :
      (p : RefreshToken → Bool) (now : ℕ) (a : List RevokedToken) (b : List RefreshToken)
      → Q a b
      → Q a (update p (revoked_now now) b)
  pub barred :
      (row : RevokedToken) (a : List RevokedToken) (b : List RefreshToken) → Q a b → Q (row ∷ a) b

module _ {v : Services} {n : ℕ} {Q : List RevokedToken → List RefreshToken → Type 0}
    (stable : Stable v n Q) where
  abbrev pub Kept : State → Type 0
  Kept s = (n ≤ length s.trace) × Q s.revoked s.refresh

  pub log-Kept : (c : Call) (s : State) → Kept s → Kept (log c s)
  log-Kept c s k = (omega (arith, k.0), k.1)

  pub record Keeps {A : Type 0} (m : Action A) : Type 0 where
    pub keeps : (s : State) → Kept s → Kept (m s).1

  pub answer-Keeps : {A : Type 0} (a : A) → Keeps (λ s. (a, s))
  answer-Keeps a = record { keeps = λ s k. k }

  pub if-Keeps :
      {A : Type 0} (b : State → Bool) (m n : Action A)
      → Keeps m
      → Keeps n
      → Keeps (λ s. if b s then m s else n s)
  if-Keeps b m n p q = record { keeps = λ s k. go (b s) (m s) (n s) (p.keeps s k) (q.keeps s k) }
    where
      go :
          {A : Type 0} (c : Bool) (r t : A × State)
          → Kept r.1
          → Kept t.1
          → Kept (if c then r else t).1
      go true r t x y = x
      go false r t x y = y

  pub attempt-Keeps :
      {A B : Type 0} (m : Action (Result A)) (bad : Error → Action B) (good : A → Action B)
      → Keeps m
      → ((e : Error) → Keeps (bad e))
      → ((a : A) → Keeps (good a))
      → Keeps (attempt m bad good)
  unfolding attempt
  attempt-Keeps {A} {B} m bad good first failing rest = record {
    keeps = λ s k. go (m s) (first.keeps s k);
  }
    where
      go :
          (r : Result A × State)
          → Kept r.1
          → Kept (elim r.0 as (λ _. B × State) [ ok a ↦ good a r.1 | err e ↦ bad e r.1 ]).1
      go (ok a, s) k = (rest a).keeps s k
      go (err e, s) k = (failing e).keeps s k

  pub best_effort-Keeps :
      {B : Type 0} (m : Action (Result (Unit {0}))) (rest : Action B)
      → Keeps m
      → Keeps rest
      → Keeps (best_effort m rest)
  unfolding best_effort
  best_effort-Keeps m rest first after =
      attempt-Keeps m (λ _. rest) (λ _. rest) first (λ _. after) (λ _. after)

  pub query-Keeps : {A : Type 0} (c : Statement) (f : State → A) → Keeps (query v c f)
  unfolding query
  query-Keeps c f = record { keeps = λ s k. log-Kept (sql c) s k }

  pub exec-Keeps :
      (c : Statement) (f : State → State) → ((s : State) → Kept s → Kept (f s)) → Keeps (exec v c f)
  unfolding exec
  exec-Keeps c f changed = record {
    keeps = λ s k. elim (Bool-cases (v.fails (sql c ∷ s.trace))) [
      | inl failed ↦ rw failed (log-Kept (sql c) s k)
      | inr answered ↦ rw answered (changed (log (sql c) s) (log-Kept (sql c) s k))
    ];
  }

  -- A step that leaves the two tables alone.
  pub same-Keeps :
      {A : Type 0} (m : Action A)
      → ((s : State) → (m s).1.revoked ≡ s.revoked)
      → ((s : State) → (m s).1.refresh ≡ s.refresh)
      → ((s : State) → length s.trace ≤ length (m s).1.trace)
      → Keeps m
  same-Keeps m a b longer = record {
    keeps = λ s k. (omega (arith, k.0, longer s), rw (a s, b s) k.1);
  }

  bar-Kept : (row : RevokedToken) (s : State) → Kept s → Kept (bar row s)
  unfolding bar
  bar-Kept row s k = elim (Bool-cases (exists (has_jti row.jti) s.revoked)) [
    | inl there ↦ rw there k
    | inr absent ↦ rw absent (k.0, stable.barred row s.revoked s.refresh k.1)
  ]

  pub revoke-Keeps : (jti : Text) (user expires : ℕ) → Keeps (revoke v jti user expires)
  unfolding revoke
  revoke-Keeps jti user expires =
      exec-Keeps revoked_insert (bar (record { jti = jti; user_id = user; expires_at = expires }))
        (bar-Kept _)

  spend-Keeps : (c : Statement) (p : RefreshToken → Bool) → Keeps (exec v c (spend v p))
  unfolding spend
  spend-Keeps c p =
      exec-Keeps c (spend v p) λ s k. (k.0, stable.spent p (v.now s.trace) s.revoked s.refresh k.1)

  pub revoke_refresh_token-Keeps : (hash : Text) → Keeps (revoke_refresh_token v hash)
  unfolding revoke_refresh_token
  revoke_refresh_token-Keeps hash = spend-Keeps refresh_revoke (holds_hash hash)

  pub revoke_all_user_refresh_tokens-Keeps :
      (user : ℕ) → Keeps (revoke_all_user_refresh_tokens v user)
  unfolding revoke_all_user_refresh_tokens
  revoke_all_user_refresh_tokens-Keeps user = spend-Keeps refresh_revoke_all (is_live_of user)

  pub update_password-Keeps : (id : ℕ) (hash : Text) → Keeps (update_password v id hash)
  unfolding update_password
  update_password-Keeps id hash =
      exec-Keeps user_update_password
        (λ s. record s {
          users = update (λ u. u.id == id) (λ u. record u { password_hash = hash }) s.users;
        })
        λ s k. k

  pub validate_refresh_token-Keeps : (hash : Text) → Keeps (validate_refresh_token v hash)
  unfolding validate_refresh_token
  validate_refresh_token-Keeps hash =
      attempt-Keeps _ _ _ (query-Keeps refresh_validate (valid_user v hash))
        (λ e. answer-Keeps (err e)) (λ r. answer-Keeps r)

  pub create-Keeps : (u : User) → Keeps (create v u)
  unfolding create
  create-Keeps u = record {
    keeps = λ s k. elim (Bool-cases (v.fails (sql user_insert ∷ s.trace))) [
      | inl failed ↦ rw failed (log-Kept (sql user_insert) s k)
      | inr answered ↦
          rw answered (elim (Bool-cases (exists (λ other. text_eq other.email u.email) s.users)) [
            | inl taken ↦ rw taken (log-Kept (sql user_insert) s k)
            | inr free ↦ rw free (log-Kept (sql user_insert) s k)
          ])
    ];
  }

  -- The only insertion of a refresh token: its hash is that of a generated secret.
  insert-Keeps :
      (h : List Call)
      → n < length h
      → (user expires : ℕ)
      → Keeps (create_refresh_token v user (v.sha256 (v.fresh_secret h)) expires)
  unfolding create_refresh_token
  insert-Keeps h later user expires =
      exec-Keeps refresh_insert
        (issue (record {
          user_id = user;
          token_hash = v.sha256 (v.fresh_secret h);
          expires_at = expires;
          revoked_at = none;
        }))
        λ s k. (k.0, stable.issued h later user expires s.revoked s.refresh k.1)

  store_pair-Keeps :
      (u : User) (access : Text) (h : List Call)
      → n < length h
      → Keeps (store_pair v u access (v.fresh_secret h))
  unfolding store_pair hash_token
  store_pair-Keeps u access h later = record {
    keeps = λ s k.
        (attempt-Keeps _ pass_on _
            (insert-Keeps h later u.id (v.now s.trace + refresh_token_expiry))
            (λ e. answer-Keeps (err e))
            (λ _. answer-Keeps (ok (pair_of u access (v.fresh_secret h))))).keeps
          s k;
  }

  issue_refresh-Keeps : (u : User) (access : Text) → Keeps (issue_refresh v u access)
  unfolding issue_refresh generate_refresh_token attempt
  issue_refresh-Keeps u access = record {
    keeps = λ s k. elim (Bool-cases (v.fails (random_bytes ∷ s.trace))) [
      | inl failed ↦ rw (attempt, failed) (log-Kept random_bytes s k)
      | inr answered ↦
          rw (attempt, answered)
            ((store_pair-Keeps u access (random_bytes ∷ s.trace) (omega (arith, k.0))).keeps
              (log random_bytes s) (log-Kept random_bytes s k))
    ];
  }

  issue_token_pair-Keeps : (config : Config) (u : User) → Keeps (issue_token_pair v config u)
  unfolding issue_token_pair
  issue_token_pair-Keeps config u =
      attempt-Keeps (generate_access_token v config u) pass_on (issue_refresh v u)
        (same-Keeps _ (λ s. refl) (λ s. refl) (λ s. omega arith)) (λ e. answer-Keeps (err e))
        (λ access. issue_refresh-Keeps u access)

  pub answer_session-Keeps :
      (code : ℕ) (config : Config) (u : User) → Keeps (answer_session code v config u)
  unfolding answer_session
  answer_session-Keeps code config u =
      attempt-Keeps _ _ _ (issue_token_pair-Keeps config u) (λ e. answer-Keeps _)
        (λ pair. answer-Keeps _)
