-- ===== src/Project/Handler.antt =====
-- internal/project/handler.go: the handlers, from the decoded request on; the format of the ids is
-- checked before.
use controlplane.Prelude.{
  ℕ, ◌+◌, Bool, Option, none, some, List, if◌then◌else◌, ◌||◌, ◌==◌, ltb, is_empty, length,
}
use controlplane.World.{
  World, Env, Project, Error, no_update, no_rows, unique_violation, Result, ok, err, create_deed,
  update_deed, delete_deed,
}
use controlplane.Tenant.Lifecycle.{Service, Actor, audit}
use controlplane.Project.{
  CreateProjectRequest, UpdateProjectRequest, list_paginated, get_by_id, create, update_fields,
  count_tenants, delete,
}

-- A page with its total and whether there is more; a project; no content; an error with its status.
pub data Reply : Type 0 where
  sends_page : List Project → ℕ → Bool → Reply
  sends : ℕ → Project → Reply
  no_content : Reply
  refuses : ℕ → Reply

abbrev pub page_reply : ℕ → List Project × ℕ → Reply
page_reply offset (items, total) = sends_page items total (ltb (offset + length items) total)

unfoldable pub list_projects : Env → ℕ → ℕ → World → Reply × World
list_projects env limit offset w =
    let (r, w') = list_paginated env limit offset w in
    (elim r [ err e ↦ refuses 500 | ok page ↦ page_reply offset page ], w')

abbrev pub found : Option Project → Reply
found none = refuses 404
found (some p) = sends 200 p

unfoldable pub get_project : Env → ℕ → World → Reply × World
get_project env id w =
    let (r, w') = get_by_id env id w in (elim r [ err e ↦ refuses 500 | ok p ↦ found p ], w')

abbrev pub create_status : Error → ℕ
create_status unique_violation = 409
create_status e = 500

unfoldable pub create_project : Env → Service → Actor → CreateProjectRequest → World → Reply × World
create_project env svc actor req w =
    let (r, w') = create env req w in
    if is_empty req.name || req.template_id == 0 then (refuses 400, w) else elim r [
      | err e ↦ (refuses (create_status e), w')
      | ok p ↦ (sends 201 p, audit svc create_deed p.id actor w')
    ]

abbrev pub update_status : Error → ℕ
update_status no_update = 400
update_status unique_violation = 409
update_status e = 500

abbrev pub updated : Service → Actor → Option Project → World → Reply × World
updated svc actor none w = (refuses 404, w)
updated svc actor (some p) w = (sends 200 p, audit svc update_deed p.id actor w)

unfoldable pub update_project :
    Env → Service → Actor → ℕ → UpdateProjectRequest → World → Reply × World
update_project env svc actor id req w =
    let (r, w') = update_fields env id req w in
    elim r [ err e ↦ (refuses (update_status e), w') | ok p ↦ updated svc actor p w' ]

abbrev pub delete_status : Error → ℕ
delete_status no_rows = 404
delete_status e = 500

abbrev pub removed : Service → Actor → ℕ → Result (Unit {0}) → World → Reply × World
removed svc actor id (err e) w = (refuses (delete_status e), w)
removed svc actor id (ok done) w = (no_content, audit svc delete_deed id actor w)

-- Unless a tenant that is not deleted uses the project.
unfoldable pub delete_counted : Env → Service → Actor → ℕ → Result ℕ → World → Reply × World
unfolding delete
delete_counted env svc actor id (err e) w = (refuses 500, w)
delete_counted env svc actor id (ok n) w =
    let (r, w') = delete env id w in if ltb 0 n then (refuses 409, w) else removed svc actor id r w'

unfoldable pub delete_project : Env → Service → Actor → ℕ → World → Reply × World
unfolding count_tenants delete_counted
delete_project env svc actor id w =
    let (r, w') = count_tenants env id w in delete_counted env svc actor id r w'
