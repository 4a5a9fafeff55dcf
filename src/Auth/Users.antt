-- ===== src/Auth/Users.antt =====
-- internal/user/store.go and `NormalizeEmail` of internal/user/model.go.
use controlplane.Prelude.{ℕ, Option, [], ◌∷◌, ◌++◌, ◌==◌, if◌then◌else◌, Text, text_eq, head?}
use controlplane.Table.{select, update, exists}
use controlplane.World.{Result, ok, err, unavailable, unique_violation}
use controlplane.Auth.Model.{
  User, Services, Action, log, query, exec, sql, user_by_id, user_by_email, user_update_password,
  user_insert,
}

unfoldable pub normalize_email : Services → Text → Text
normalize_email v address = v.to_lower (v.trim_space address)

unfoldable pub get_by_id : Services → ℕ → Action (Result (Option User))
unfolding query select
get_by_id v id = query v user_by_id λ s. head? (select (λ u. u.id == id) s.users)

-- `WHERE lower(email) = lower($1) ORDER BY created_at, email LIMIT 1`
unfoldable pub get_by_email : Services → Text → Action (Result (Option User))
unfolding query select
get_by_email v address =
    query v user_by_email
      λ s. head? (select (λ u. text_eq (v.sql_lower u.email) (v.sql_lower address)) s.users)

unfoldable pub update_password : Services → ℕ → Text → Action (Result (Unit {0}))
unfolding exec update
update_password v id hash = exec v user_update_password λ s. record s {
  users = update (λ u. u.id == id) (λ u. record u { password_hash = hash }) s.users;
}

-- The unique index on the address; the answer carries the generated id.
unfoldable pub create : Services → User → Action (Result User)
unfolding exists
create v u s =
    let s' = log (sql user_insert) s in
    let row : User = record u { id = v.fresh_id s'.trace } in
    if v.fails s'.trace
    then (err unavailable, s')
    else if exists (λ other. text_eq other.email u.email) s'.users
    then (err unique_violation, s')
    else (ok row, record s' { users = s'.users ++ row ∷ [] })
