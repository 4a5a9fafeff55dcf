-- ===== src/Auth/Tokens.antt =====
-- internal/auth/token_store.go
use controlplane.Prelude.{
  ℕ, Bool, not, true, false, ◌&&◌, Option, none, some, ◌∷◌, ltb, ◌==◌, if◌then◌else◌, Text, text_eq,
  head?,
}
use controlplane.Table.{select, update, exists}
use controlplane.World.{Result, ok, err, unavailable, no_rows}
use controlplane.Auth.Model.{
  RevokedToken, RefreshToken, State, Services, Action, log, query, exec, attempt, revoked_insert,
  revoked_exists, revoked_cleanup, refresh_insert, refresh_validate, refresh_revoke,
  refresh_revoke_all, refresh_cleanup, random_bytes,
}

abbrev pub has_jti : Text → RevokedToken → Bool
has_jti jti row = text_eq row.jti jti

-- `ON CONFLICT DO NOTHING`
unfoldable pub bar : RevokedToken → State → State
unfolding exists
bar row s = if exists (has_jti row.jti) s.revoked then s else record s { revoked = row ∷ s.revoked }

unfoldable pub revoke : Services → Text → ℕ → ℕ → Action (Result (Unit {0}))
unfolding exec bar
revoke v jti user expires =
    exec v revoked_insert (bar (record { jti = jti; user_id = user; expires_at = expires }))

unfoldable pub is_revoked : Services → Text → Action (Result Bool)
unfolding query exists
is_revoked v jti = query v revoked_exists λ s. exists (has_jti jti) s.revoked

unfoldable pub cleanup : Services → Action (Result (Unit {0}))
unfolding exec attempt select
cleanup v =
    attempt
      (exec v revoked_cleanup λ s. record s {
        revoked = select (λ row. not (ltb row.expires_at (v.now s.trace))) s.revoked;
      })
      (λ e s. (err e, s))
      λ _. exec v refresh_cleanup λ s. record s {
        refresh = select (λ row. not (ltb row.expires_at (v.now s.trace))) s.refresh;
      }

unfoldable pub generate_refresh_token : Services → Action (Result Text)
generate_refresh_token v s =
    let s' = log random_bytes s in
    (if v.fails s'.trace then err unavailable else ok (v.fresh_secret s'.trace), s')

unfoldable pub hash_token : Services → Text → Text
hash_token v token = v.sha256 token

abbrev pub issue : RefreshToken → State → State
issue row s = record s { refresh = row ∷ s.refresh }

unfoldable pub create_refresh_token : Services → ℕ → Text → ℕ → Action (Result (Unit {0}))
unfolding exec
create_refresh_token v user hash expires =
    exec v refresh_insert (
      issue (record { user_id = user; token_hash = hash; expires_at = expires; revoked_at = none }))

abbrev pub is_unrevoked : RefreshToken → Bool
is_unrevoked row = elim row.revoked_at [ none ↦ true | some _ ↦ false ]

-- `WHERE token_hash = $1 AND expires_at > now() AND revoked_at IS NULL`
abbrev pub is_valid : ℕ → Text → RefreshToken → Bool
is_valid now hash row = text_eq row.token_hash hash && (ltb now row.expires_at && is_unrevoked row)

abbrev pub one_user : Option RefreshToken → Result ℕ
one_user none = err no_rows
one_user (some row) = ok row.user_id

unfoldable pub valid_user : Services → Text → State → Result ℕ
unfolding select
valid_user v hash s = one_user (head? (select (is_valid (v.now s.trace) hash) s.refresh))

unfoldable pub validate_refresh_token : Services → Text → Action (Result ℕ)
unfolding query attempt valid_user
validate_refresh_token v hash =
    attempt (query v refresh_validate (valid_user v hash)) (λ e s. (err e, s)) λ r s. (r, s)

abbrev pub revoked_now : ℕ → RefreshToken → RefreshToken
revoked_now now row = record row { revoked_at = some now }

-- `UPDATE refresh_tokens SET revoked_at = now() WHERE p`
unfoldable pub spend : Services → (RefreshToken → Bool) → State → State
unfolding update
spend v p s = record s { refresh = update p (revoked_now (v.now s.trace)) s.refresh }

abbrev pub holds_hash : Text → RefreshToken → Bool
holds_hash hash row = text_eq row.token_hash hash && is_unrevoked row

unfoldable pub revoke_refresh_token : Services → Text → Action (Result (Unit {0}))
unfolding exec spend
revoke_refresh_token v hash = exec v refresh_revoke (spend v (holds_hash hash))

abbrev pub is_live_of : ℕ → RefreshToken → Bool
is_live_of user row = row.user_id == user && is_unrevoked row

unfoldable pub revoke_all_user_refresh_tokens : Services → ℕ → Action (Result (Unit {0}))
unfolding exec spend
revoke_all_user_refresh_tokens v user = exec v refresh_revoke_all (spend v (is_live_of user))
