-- ===== src/Auth/Revocation.antt =====
-- An access token is refused after a logout.
use controlplane.Prelude.{
  is_empty, text_or_empty, ℕ, arith, Bool, true, false, ◌≡◌, refl, sym, subst, ◌∙◌, ap, Option,
  none, some, List, ◌∷◌, Text, text_eq_refl, Bool-cases, inl, inr, if◌then◌else◌,
}
use controlplane.Table.{exists}
use controlplane.World.{ok, unavailable}
use controlplane.Auth.Model.{
  User, RevokedToken, RefreshToken, State, Services, Config, Claims, Action, log, sql, read_clock,
  revoked_insert, revoked_exists,
}
use controlplane.Auth.Steps.{attempt-ok, attempt-err, best_effort-ok, exec-ok, query-ok, query-err}
use controlplane.Auth.Tokens.{revoke, is_revoked, has_jti, bar}
use controlplane.Auth.Session.{logged_out, clear_auth_cookies}
use controlplane.Auth.Login.{or_else}
use controlplane.Auth.Account.{
  logout, LogoutRequest, logout_token, parsed, revoke_claims, revoke_given, number_or_zero,
}
use controlplane.Auth.Gate.{
  deny, jwt_auth, Verdict, denied, admitted, request_token, check_claims, check_subject,
}
use controlplane.Auth.Serve.{Request, serve_all}
use controlplane.Auth.Serve.Keeps.{Stable, answer-Keeps}
use controlplane.Auth.Serve.Handlers.{serve_all-Kept, revoke_given-Keeps}

abbrev Barred : Text → List RevokedToken → List RefreshToken → Type 0
Barred jti a b = exists (has_jti jti) a ≡ true

abbrev pub is_denied : Verdict → Bool
is_denied (denied code) = true
is_denied (admitted u) = false

module _ (v : Services) (config : Config) (jti : Text) where
  Barred-Stable : Stable v 0 (Barred jti)
  unfolding exists
  Barred-Stable = record {
    issued = λ h later user expires a b k. k;
    spent = λ p now a b k. k;
    barred = λ row a b k. ground (arith, k);
  }

  bar-Barred :
      (user expires : ℕ) (s : State)
      → exists
          (has_jti jti)
          (bar (record { jti = jti; user_id = user; expires_at = expires }) s).revoked
        ≡ true
  unfolding bar exists
  bar-Barred user expires s = elim (Bool-cases (exists (has_jti jti) s.revoked)) [
    | inl there ↦ rw there there
    | inr absent ↦ rw (absent, text_eq_refl jti) refl
  ]

  module _ (filled : is_empty jti ≡ false) where
    -- A logout with claims that carry the jti.
    revoke_claims-Barred :
        (u : User) (claims : Claims) (token : Text) (cookies : _) (s : State)
        → text_or_empty claims.jti ≡ jti
        → v.fails (sql revoked_insert ∷ s.trace) ≡ false
        → exists
            (has_jti jti)
            (revoke_claims v u
              (some claims)
              (revoke_given v token (λ w. (logged_out cookies, w)))
              s).1.revoked
          ≡ true
    unfolding revoke_claims revoke
    revoke_claims-Barred u claims token cookies s named answered =
        rw (named, filled)
          (subst (λ r. exists (has_jti jti) r.1.revoked ≡ true)
            (sym (
              best_effort-ok (revoke v jti u.id (number_or_zero claims.exp))
                (revoke_given v token (λ w. (logged_out cookies, w))) s after
                (exec-ok v revoked_insert s (bar row) answered)))
            ((revoke_given-Keeps Barred-Stable token (λ w. (logged_out cookies, w))
                (answer-Keeps Barred-Stable (logged_out cookies))).keeps
              after
              (
                omega arith,
                bar-Barred u.id (number_or_zero claims.exp) (log (sql revoked_insert) s),
              )).1)
      where
        row : RevokedToken
        row = record { jti = jti; user_id = u.id; expires_at = number_or_zero claims.exp }

        after : State
        after = bar row (log (sql revoked_insert) s)

    -- The middleware on claims that carry a barred jti.
    check_claims-denied :
        (claims : Claims) (s : State)
        → text_or_empty claims.jti ≡ jti
        → exists (has_jti jti) s.revoked ≡ true
        → is_denied (check_claims v (some claims) s).0 ≡ true
    unfolding check_claims is_revoked
    check_claims-denied claims s named barred =
        rw (named, filled)
          (elim (Bool-cases (v.fails (sql revoked_exists ∷ s.trace))) [
            | inl failed ↦
                subst (λ r. is_denied r.0 ≡ true)
                  (sym (
                    attempt-err (is_revoked v jti) (λ _. deny 500) go_on s asked unavailable
                      (query-err v revoked_exists s reader failed)))
                  refl
            | inr answered ↦
                subst (λ r. is_denied r.0 ≡ true)
                  (sym (
                    attempt-ok (is_revoked v jti) (λ _. deny 500) go_on s asked true
                      (query-ok v revoked_exists s reader answered
                        ∙ ap (λ b. (ok b, asked)) barred)))
                  refl
          ])
      where
        asked : State
        asked = log (sql revoked_exists) s

        reader : State → Bool
        reader w = exists (has_jti jti) w.revoked

        go_on : Bool → Action Verdict
        go_on r = if r then deny 401 else check_subject v claims.sub

logout-Barred :
    (v : Services) (config : Config) (u : User) (rq : LogoutRequest) (s : State) (claims : Claims)
    → parsed v config (logout_token rq.authorization rq.access_cookie) (log read_clock s)
      ≡ some claims
    → is_empty (text_or_empty claims.jti) ≡ false
    → v.fails (sql revoked_insert ∷ read_clock ∷ s.trace) ≡ false
    → exists (has_jti (text_or_empty claims.jti)) (logout v config (some u) rq s).1.revoked ≡ true
unfolding logout
logout-Barred v config u rq s claims known filled stored =
    subst
      (λ c.
        exists (has_jti (text_or_empty claims.jti))
          (revoke_claims v u c
            (revoke_given v (or_else rq.body_token rq.refresh_cookie)
              (λ w. (logged_out (clear_auth_cookies config), w)))
            (log read_clock s)).1.revoked
        ≡ true)
      (sym known)
      (revoke_claims-Barred v config (text_or_empty claims.jti) filled u claims
        (or_else rq.body_token rq.refresh_cookie) (clear_auth_cookies config) (log read_clock s)
        refl stored)

-- After a logout with an access token whose jti could be stored, the middleware admits no request
-- with that token, whatever requests to register, to log in, to refresh, to log out and to change a
-- password were served in between. What is asked of the JWT library is that a token which parses at
-- two times has the same jti.
pub logout-jwt_auth :
    (v : Services) (config : Config) (u : User) (rq : LogoutRequest) (s : State) (claims : Claims)
    (rqs : List Request) (header : Text) (cookie : Option Text)
    → parsed v config (logout_token rq.authorization rq.access_cookie) (log read_clock s)
      ≡ some claims
    → is_empty (text_or_empty claims.jti) ≡ false
    → v.fails (sql revoked_insert ∷ read_clock ∷ s.trace) ≡ false
    → request_token header cookie ≡ logout_token rq.authorization rq.access_cookie
    → ((w : State) (later : Claims)
        → parsed v config (logout_token rq.authorization rq.access_cookie) w ≡ some later
        → text_or_empty later.jti ≡ text_or_empty claims.jti)
    → is_denied
        (jwt_auth v config header cookie
          (serve_all v config rqs (logout v config (some u) rq s).1)).0
      ≡ true
unfolding jwt_auth
logout-jwt_auth v config u rq s claims rqs header cookie known filled stored same stable =
    elim (Bool-cases (is_empty (request_token header cookie))) [
      | inl e ↦ rw e refl
      | inr e ↦ rw e (gate (parsed v config (request_token header cookie) now) refl)
    ]
  where
    jti : Text
    jti = text_or_empty claims.jti

    now : State
    now = log read_clock (serve_all v config rqs (logout v config (some u) rq s).1)

    barred : exists (has_jti jti) now.revoked ≡ true
    barred =
        (serve_all-Kept (Barred-Stable v config jti) config rqs (logout v config (some u) rq s).1
          (omega arith, logout-Barred v config u rq s claims known filled stored)).1

    parsed_at : State → Text → Option Claims
    parsed_at w token = parsed v config token w

    gate :
        (c : Option Claims)
        → parsed v config (request_token header cookie) now ≡ c
        → is_denied (check_claims v c now).0 ≡ true
    gate none e = refl
    gate (some later) e =
        check_claims-denied v config jti filled later now
          (stable now later (ap (parsed_at now) (sym same) ∙ e)) barred
