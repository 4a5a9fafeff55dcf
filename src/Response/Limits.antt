-- ===== src/Response/Limits.antt =====
-- The page that `ParseListParams` and the lists of internal/tenant/store.go give.
use controlplane.Prelude.{
  is_empty, ◌≤◌, ◌≡◌, true, Option, none, some, Text, arith, Bool-cases, inl, inr,
}
use controlplane.Response.{ℤ, pos, negsuc, Query, positive_or, parse_list_params}

positive_or-positive : (n : Option ℤ) → 1 ≤ positive_or 50 n
positive_or-positive none = omega arith
positive_or-positive (some (pos n)) = ground arith
positive_or-positive (some (negsuc n)) = omega arith

-- Whatever the query says, and whatever number `strconv.Atoi` makes of it, the limit lies between 1
-- and 200, and it is 50 if the query names none.
pub parse_list_params-limit :
    (atoi : Text → Option ℤ) (q : Query)
    → (1 ≤ (parse_list_params atoi q).limit)
      × ((parse_list_params atoi q).limit ≤ 200)
      × (is_empty q.limit ≡ true → (parse_list_params atoi q).limit ≡ 50)
unfolding parse_list_params
parse_list_params-limit atoi q = elim (Bool-cases (is_empty q.limit)) [
  | inl e ↦ rw e (ground arith)
  | inr e ↦ rw e (ground (arith, positive_or-positive (atoi q.limit)))
]
