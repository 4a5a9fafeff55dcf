-- ===== src/Response.antt =====
-- internal/response/pagination.go: `ParseListParams`. The query of the request by key, with the empty
-- text for a key that is missing; `strconv.Atoi` is a parameter.
pub mod Limits
use controlplane.Prelude.{is_empty, ℕ, suc, Bool, Option, none, some, Text, ltb, if◌then◌else◌}

-- The integers, as `strconv.Atoi` returns them.
pub data ℤ : Type 0 where
  pos negsuc : ℕ → ℤ

abbrev pub default_limit : ℕ
default_limit = 50

abbrev pub max_limit : ℕ
max_limit = 200

pub record Query : Type 0 where
  pub limit : Text
  pub offset : Text
  pub status : Text
  pub node_id : Text
  pub project_id : Text

pub record ListParams : Type 0 where
  pub limit : ℕ
  pub offset : ℕ
  pub status : Text
  pub node_id : Text
  pub project_id : Text

-- `err == nil && n > 0`, and `err == nil && n >= 0`.
abbrev pub positive_or : ℕ → Option ℤ → ℕ
positive_or default none = default
positive_or default (some (pos n)) = if ltb 0 n then n else default
positive_or default (some (negsuc n)) = default

abbrev pub natural_or : ℕ → Option ℤ → ℕ
natural_or default none = default
natural_or default (some (pos n)) = n
natural_or default (some (negsuc n)) = default

unfoldable pub parse_list_params : (Text → Option ℤ) → Query → ListParams
parse_list_params atoi q =
    let limit =
      if is_empty q.limit then default_limit else positive_or default_limit (atoi q.limit) in
    record {
      limit = if ltb max_limit limit then max_limit else limit;
      offset = if is_empty q.offset then 0 else natural_or 0 (atoi q.offset);
      status = q.status;
      node_id = q.node_id;
      project_id = q.project_id;
    }
