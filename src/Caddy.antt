-- ===== src/Caddy.antt =====
-- internal/caddy/client.go: the client of the Caddy Admin API. The server behind the API, and the
-- transport, are the parameter `Admin`; its state is of any type.
pub mod Reconciler
pub mod Refinement
use controlplane.Prelude.{
  or_default, is_empty, ℕ, zero, suc, ◌-◌, Bool, true, false, not, ◌&&◌, ◌||◌, Option, none, some,
  List, [], ◌∷◌, ◌++◌, ltb, ◌==◌, Text, codes, if◌then◌else◌, strip_prefix, length, take,
}

pub record Route : Type 0 where
  pub subdomain : Text
  pub target_ip : Text

pub record CaddyMatch : Type 0 where
  pub host : List Text

pub record CaddyHandler : Type 0 where
  pub handler : Text
  pub upstreams : List Text

pub record CaddyRoute : Type 0 where
  pub id : Text
  pub matches : List CaddyMatch
  pub handle : List CaddyHandler
  pub terminal : Bool

pub record Client : Type 0 where
  pub base_url : Text
  pub server_name : Text
  pub upstream_port : Text
  pub domain : Text

-- The status of a response, or none if the request failed; `get` also gives the decoded body.
pub record Admin (S : Type 0) : Type 0 where
  pub post : Text → CaddyRoute → S → Option ℕ × S
  pub delete : Text → S → Option ℕ × S
  pub get : Text → S → Option (ℕ × Option (List CaddyRoute)) × S

-- `strings.TrimRight(baseURL, "/")`
pub trim_right_slash : Text → Text
trim_right_slash [] = []
trim_right_slash (c ∷ s) =
    let rest = trim_right_slash s in if c == 47 && is_empty rest then [] else c ∷ rest

unfoldable pub new_client : Text → Text → Text → Client
new_client base server domain = record {
  base_url = trim_right_slash base;
  server_name = or_default server (codes "srv1");
  upstream_port = codes "80";
  domain = or_default domain (codes "example.com");
}

abbrev pub with_upstream_port : Text → Client → Client
with_upstream_port port c = if is_empty port then c else record c { upstream_port = port }

abbrev pub route_id : Text → Text
route_id subdomain = codes "tenant_" ++ subdomain

unfoldable pub build_route : Client → Text → Text → CaddyRoute
build_route c subdomain ip = record {
  id = route_id subdomain;
  matches = record { host = (subdomain ++ codes "." ++ c.domain) ∷ [] } ∷ [];
  handle =
      record {
        handler = codes "reverse_proxy";
        upstreams = (ip ++ codes ":" ++ c.upstream_port) ∷ [];
      }
      ∷ [];
  terminal = true;
}

abbrev pub routes_url : Client → Text
routes_url c = c.base_url ++ codes "/config/apps/http/servers/" ++ c.server_name ++ codes "/routes"

abbrev pub id_url : Client → Text → Text
id_url c subdomain = c.base_url ++ codes "/id/" ++ route_id subdomain

abbrev pub is_success : ℕ → Bool
is_success code = not (ltb code 200 || not (ltb code 300))

-- `true` is a nil error.
abbrev pub added : Option ℕ → Bool
added none = false
added (some code) = is_success code

-- A route that is not there is removed already.
abbrev pub removed : Option ℕ → Bool
removed none = false
removed (some code) = if code == 404 then true else is_success code

-- `dial[:idx]` for the last colon, if that is not at the start.
abbrev pub last_colon : Text → ℕ → Option ℕ → Option ℕ
last_colon [] i found = found
last_colon (c ∷ s) i found = last_colon s (suc i) (if c == 58 then some i else found)

abbrev pub host_of : Text → Text
host_of dial = elim (last_colon dial 0 none) [
  | none ↦ dial
  | some i ↦ if ltb 0 i then take i dial else dial
]

abbrev pub first_dial : List CaddyHandler → Text
first_dial [] = []
first_dial (h ∷ hs) = elim h.upstreams [ [] ↦ [] | ◌∷◌ d ds ↦ host_of d ]

-- The routes whose id begins with `tenant_`.
pub tenant_routes : List CaddyRoute → List Route
tenant_routes [] = []
tenant_routes (r ∷ rs) =
    let rest = tenant_routes rs in
    elim (strip_prefix (codes "tenant_") r.id) [
      | none ↦ rest
      | some subdomain ↦ record { subdomain = subdomain; target_ip = first_dial r.handle } ∷ rest
    ]

abbrev pub listed : Option (ℕ × Option (List CaddyRoute)) → Option (List Route)
listed none = none
listed (some (code, none)) = none
listed (some (code, some routes)) = if is_success code then some (tenant_routes routes) else none

module _ {S : Type 0} (admin : Admin S) (c : Client) where
  unfoldable pub add_route : Text → Text → S → Bool × S
  unfolding build_route
  add_route subdomain ip s =
      let (reply, s') = admin.post (routes_url c) (build_route c subdomain ip) s in
      (added reply, s')

  unfoldable pub remove_route : Text → S → Bool × S
  remove_route subdomain s =
      let (reply, s') = admin.delete (id_url c subdomain) s in (removed reply, s')

  unfoldable pub list_routes : S → Option (List Route) × S
  list_routes s = let (reply, s') = admin.get (routes_url c) s in (listed reply, s')

  -- DELETE and then POST.
  unfoldable pub upsert_route : Text → Text → S → Bool × S
  unfolding add_route remove_route
  upsert_route subdomain ip s =
      let (gone, s') = remove_route subdomain s in
      if gone then add_route subdomain ip s' else (false, s')
