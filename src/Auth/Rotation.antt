-- ===== src/Auth/Rotation.antt =====
-- A refresh token is used once.
use controlplane.Prelude.{
  is_empty, ℕ, ◌≤◌, ◌<◌, length, Bool, true, false, ◌≡◌, ◌≢◌, ap, refl, sym, subst, ◌∙◌, List, [],
  ◌∷◌, Text, text_eq, text_eq_iff, arith, Bool-cases, inl, inr,
}
use mathlib.Core.Bool.{false≢true}
use controlplane.Table.{update, exists, select}
use controlplane.World.{Result, ok, err, no_rows, unavailable, Error}
use controlplane.Auth.Model.{
  RevokedToken, RefreshToken, State, Services, Config, Call, log, sql, attempt, query,
  refresh_revoke, refresh_validate,
}
use controlplane.Auth.Steps.{attempt-ok, attempt-err, best_effort-ok, exec-ok, query-ok, query-err}
use controlplane.Auth.Users.{get_by_id}
use controlplane.Auth.Tokens.{
  holds_hash, is_valid, revoked_now, valid_user, validate_refresh_token, revoke_refresh_token,
  spend, hash_token,
}
use controlplane.Auth.Session.{Response, failure, session, refuse}
use controlplane.Auth.Login.{refresh, rotate, or_else, answer_user}
use controlplane.Auth.Serve.{Request, serve_all}
use controlplane.Auth.Serve.Keeps.{Stable}
use controlplane.Auth.Serve.Handlers.{serve_all-Kept, found_user-Keeps}

-- No row with this hash is unrevoked.
abbrev Spent : Text → List RevokedToken → List RefreshToken → Type 0
Spent hash a b = exists (holds_hash hash) b ≡ false

module _ (hash : Text) where
  spent-update :
      (p : RefreshToken → Bool) (now : ℕ) (b : List RefreshToken)
      → exists (holds_hash hash) b ≡ false
      → exists (holds_hash hash) (update p (revoked_now now) b) ≡ false
  unfolding exists update
  spent-update p now [] h = refl
  spent-update p now (row ∷ b) h = ground (arith, spent-update p now b)

  spent_self :
      (now : ℕ) (b : List RefreshToken)
      → exists (holds_hash hash) (update (holds_hash hash) (revoked_now now) b) ≡ false
  unfolding exists update
  spent_self now [] = refl
  spent_self now (row ∷ b) = ground (arith, spent_self now b)

  spent-select :
      (now : ℕ) (b : List RefreshToken)
      → exists (holds_hash hash) b ≡ false
      → select (is_valid now hash) b ≡ []
  unfolding exists select
  spent-select now [] h = refl
  spent-select now (row ∷ b) h = ground (arith, spent-select now b)

  module _ (v : Services) (n : ℕ)
      (fresh : (h : List Call) → n < length h → v.sha256 (v.fresh_secret h) ≢ hash) where
    other : (h : List Call) → n < length h → text_eq (v.sha256 (v.fresh_secret h)) hash ≡ false
    other h later = ground (arith, text_eq_iff (v.sha256 (v.fresh_secret h)) hash, fresh h later)

    Spent-Stable : Stable v n (Spent hash)
    unfolding exists
    Spent-Stable = record {
      issued = λ h later user expires a b k. rw (other h later) k;
      spent = λ p now a b k. spent-update p now b k;
      barred = λ row a b k. k;
    }

    -- Once the token is revoked, what follows keeps it so.
    rotate-Spent :
        (config : Config) (user : ℕ) (s : State)
        → n ≤ length s.trace
        → v.fails (sql refresh_revoke ∷ s.trace) ≡ false
        → (n ≤ length (rotate v config hash user s).1.trace)
          × (exists (holds_hash hash) (rotate v config hash user s).1.refresh ≡ false)
    unfolding rotate revoke_refresh_token spend
    rotate-Spent config user s long answered =
        subst (λ r. (n ≤ length r.1.trace) × (exists (holds_hash hash) r.1.refresh ≡ false))
          (sym (
            best_effort-ok (revoke_refresh_token v hash)
              (attempt (get_by_id v user) (λ _. refuse 401) (answer_user v config)) s after
              (exec-ok v refresh_revoke s (spend v (holds_hash hash)) answered)))
          ((found_user-Keeps Spent-Stable config user).keeps after
            (omega (arith, long), spent_self (v.now (sql refresh_revoke ∷ s.trace)) s.refresh))
      where
        after : State
        after = spend v (holds_hash hash) (log (sql refresh_revoke) s)

-- A request with the hash of a token that is revoked.
valid_user-spent :
    (v : Services) (hash : Text) (s : State)
    → exists (holds_hash hash) s.refresh ≡ false
    → valid_user v hash s ≡ err no_rows
unfolding valid_user
valid_user-spent v hash s h = rw (spent-select hash (v.now s.trace) s.refresh h) refl

module _ (v : Services) (config : Config) (body cookie : Text) (s : State) where
  hash : Text
  hash = v.sha256 (or_else body cookie)

  asked : State
  asked = log (sql refresh_validate) s

  validated : Result ℕ
  validated = valid_user v hash asked

  module _ (filled : is_empty (or_else body cookie) ≡ false) where
    refresh-filled :
        refresh v config body cookie s
        ≡ attempt (validate_refresh_token v hash) (λ _. refuse 401) (rotate v config hash) s
    unfolding refresh hash_token hash
    refresh-filled = rw filled refl

    -- The statement failed.
    refresh-failed :
        v.fails (sql refresh_validate ∷ s.trace) ≡ true
        → (refresh v config body cookie s).0 ≡ failure 401
    unfolding validate_refresh_token asked
    refresh-failed failed =
        ap (λ r. r.0)
          (refresh-filled
            ∙ attempt-err (validate_refresh_token v hash) (λ _. refuse 401) (rotate v config hash) s
                asked unavailable
                (attempt-err (query v refresh_validate (valid_user v hash)) (λ e s. (err e, s))
                  (λ r s. (r, s)) s asked unavailable
                  (query-err v refresh_validate s (valid_user v hash) failed)))

    module _ (answered : v.fails (sql refresh_validate ∷ s.trace) ≡ false) where
      validate-answer : validate_refresh_token v hash s ≡ (validated, asked)
      unfolding validate_refresh_token asked validated
      validate-answer =
          attempt-ok (query v refresh_validate (valid_user v hash)) (λ e s. (err e, s))
            (λ r s. (r, s)) s asked (valid_user v hash asked)
            (query-ok v refresh_validate s (valid_user v hash) answered)

      refresh-unknown :
          (e : Error) → validated ≡ err e → (refresh v config body cookie s).0 ≡ failure 401
      refresh-unknown e known =
          ap (λ r. r.0)
            (refresh-filled
              ∙ attempt-err (validate_refresh_token v hash) (λ _. refuse 401) (rotate v config hash)
                  s asked e (validate-answer ∙ ap (λ r. (r, asked)) known))

      refresh-known :
          (user : ℕ)
          → validated ≡ ok user
          → refresh v config body cookie s ≡ rotate v config hash user asked
      refresh-known user known =
          refresh-filled
          ∙ attempt-ok (validate_refresh_token v hash) (λ _. refuse 401) (rotate v config hash) s
              asked user (validate-answer ∙ ap (λ r. (r, asked)) known)

    -- A token that is revoked is refused.
    refresh-Spent :
        exists (holds_hash hash) s.refresh ≡ false
        → (refresh v config body cookie s).0 ≡ failure 401
    unfolding validated asked
    refresh-Spent spent = elim (Bool-cases (v.fails (sql refresh_validate ∷ s.trace))) [
      | inl failed ↦ refresh-failed failed
      | inr answered ↦ refresh-unknown answered no_rows (valid_user-spent v hash asked spent)
    ]

abbrev pub is_session : Response → Bool
is_session (session code cookies pair) = true
is_session _ = false

module _ (v : Services) (config : Config) (body cookie : Text) (s : State)
    (fresh : (h : List Call)
      → length s.trace < length h
      → v.sha256 (v.fresh_secret h) ≢ v.sha256 (or_else body cookie))
    (stored : v.fails (sql refresh_revoke ∷ sql refresh_validate ∷ s.trace) ≡ false) where
  -- No unrevoked row is left for a token that was accepted.
  accepted-Spent :
      is_empty (or_else body cookie) ≡ false
      → is_session (refresh v config body cookie s).0 ≡ true
      → (length s.trace ≤ length (refresh v config body cookie s).1.trace)
        × (exists
              (holds_hash (v.sha256 (or_else body cookie)))
              (refresh v config body cookie s).1.refresh
            ≡ false)
  unfolding hash validated asked
  accepted-Spent e h = elim (Bool-cases (v.fails (sql refresh_validate ∷ s.trace))) [
    | inl failed ↦ absurd (
        false≢true
          (subst (λ r. is_session r ≡ true) (refresh-failed v config body cookie s e failed) h))
    | inr answered ↦ go e answered (validated v config body cookie s) refl
  ]
    where
      go :
          is_empty (or_else body cookie) ≡ false
          → v.fails (sql refresh_validate ∷ s.trace) ≡ false
          → (r : Result ℕ) → validated v config body cookie s ≡ r
          → (length s.trace ≤ length (refresh v config body cookie s).1.trace)
            × (exists
                  (holds_hash (v.sha256 (or_else body cookie)))
                  (refresh v config body cookie s).1.refresh
                ≡ false)
      go e answered (err x) known = absurd (
          false≢true (
            subst (λ r. is_session r ≡ true)
              (refresh-unknown v config body cookie s e answered x known) h))
      go e answered (ok user) known =
          subst
            (λ r.
              (length s.trace ≤ length r.1.trace)
              × (exists (holds_hash (v.sha256 (or_else body cookie))) r.1.refresh ≡ false))
            (sym (refresh-known v config body cookie s e answered user known))
            (rotate-Spent (v.sha256 (or_else body cookie)) v (length s.trace) fresh config user
              (log (sql refresh_validate) s) (omega arith) stored)

-- When a request to refresh was answered with a session and the statement that revokes the old token
-- did not fail, every later request with the same token is answered 401, whatever requests to
-- register, to log in, to refresh, to log out and to change a password were served in between. The
-- condition on SHA-256 is that no secret which is generated from then on has the hash of the token.
pub refresh_once :
    (v : Services) (config : Config) (body cookie : Text) (s : State) (rqs : List Request)
    → ((h : List Call)
        → length s.trace < length h
        → v.sha256 (v.fresh_secret h) ≢ v.sha256 (or_else body cookie))
    → v.fails (sql refresh_revoke ∷ sql refresh_validate ∷ s.trace) ≡ false
    → is_session (refresh v config body cookie s).0 ≡ true
    → (refresh v config body cookie (serve_all v config rqs (refresh v config body cookie s).1)).0
      ≡ failure 401
unfolding refresh hash
refresh_once v config body cookie s rqs fresh stored h =
    elim (Bool-cases (is_empty (or_else body cookie))) [
      | inl e ↦ absurd (false≢true (rw e at h))
      | inr e ↦
          refresh-Spent v config body cookie
            (serve_all v config rqs (refresh v config body cookie s).1) e
            (serve_all-Kept (Spent-Stable (v.sha256 (or_else body cookie)) v (length s.trace) fresh)
              config rqs (refresh v config body cookie s).1
              (accepted-Spent v config body cookie s fresh stored e h)).1
    ]
