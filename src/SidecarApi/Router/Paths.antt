-- ===== src/SidecarApi/Router/Paths.antt =====
-- The handler that build_router has for each route of dispatch_json, and which paths take a body.
use mesh_pad.Base.{
  Bool, true, ◌||◌, ◌≡◌, ◌≢◌, refl, sym, subst, String, false, Option, none, some, ◌==◌, string_key,
  if◌then◌else◌, arith, ◌⊎◌, inl, inr, Bool-cases, same_ne,
}
use text.Mathlib.TextEquality.{eq_iff}
use mesh_pad.External.Axum.{first_route}
use mesh_pad.SidecarApi.Dispatch.{HttpMethod, get, post, Route, route_of}
use mesh_pad.SidecarApi.Router.{Handler, router}

-- The handler that has the work of a route.
abbrev pub handler_of : Option Route → Option Handler
handler_of none = none
handler_of (some Route.health) = some Handler.health
handler_of (some Route.start) = some Handler.start
handler_of (some Route.stop) = some Handler.stop
handler_of (some Route.sync) = some Handler.sync
handler_of (some Route.wire_catalog) = some Handler.wire_catalog
handler_of (some Route.wire_push) = some Handler.wire_push
handler_of (some Route.wire_pull) = some Handler.wire_pull
handler_of (some Route.wire_batch_export) = some Handler.wire_batch_export
handler_of (some Route.wire_batch_import) = some Handler.wire_batch_import
handler_of (some Route.wire_attachment_push) = some Handler.wire_attachment_push
handler_of (some Route.wire_attachment_pull) = some Handler.wire_attachment_pull

same_or : (x y : String) → (y ≡ x) ⊎ (((x == y) ≡ false) × ((y == x) ≡ false))
same_or x y = elim (Bool-cases (x == y)) [
  | inl e ↦ inl (sym ((string_key.same_iff x y).0 e))
  | inr n ↦ inr (n, same_ne y x (λ e. cc ((string_key.same_iff x y).1 (sym e), n)))
]

abbrev pub IsServed : HttpMethod → String → Type 0
IsServed method path = first_route method path router ≡ handler_of (route_of method path)

pub router-IsServed :
    (method : HttpMethod) (path : String) → path ≢ "/v1/events" → IsServed method path
unfolding first_route route_of
router-IsServed get path h = ground (
  arith,
  eq_iff "/health" path,
  eq_iff path "/health",
  eq_iff "/v1/wire/catalog" path,
  eq_iff path "/v1/wire/catalog",
  eq_iff "/v1/wire/batch/export" path,
  eq_iff path "/v1/wire/batch/export",
  eq_iff "/v1/events" path,
  λ (e : "/v1/events" ≡ path). h (sym e),
)
router-IsServed post path h = elim (same_or path "/v1/start") [
  | inl e ↦ subst (IsServed post) e refl
  | inr start ↦ elim (same_or path "/v1/stop") [
    | inl e ↦ subst (IsServed post) e refl
    | inr stop ↦ elim (same_or path "/v1/sync") [
      | inl e ↦ subst (IsServed post) e refl
      | inr sync ↦ elim (same_or path "/v1/wire/push") [
        | inl e ↦ subst (IsServed post) e refl
        | inr push ↦ elim (same_or path "/v1/wire/pull") [
          | inl e ↦ subst (IsServed post) e refl
          | inr pull ↦ elim (same_or path "/v1/wire/attachment/push") [
            | inl e ↦ subst (IsServed post) e refl
            | inr attach ↦ elim (same_or path "/v1/wire/attachment/pull") [
              | inl e ↦ subst (IsServed post) e refl
              | inr fetch ↦ elim (same_or path "/v1/wire/batch/import") [
                | inl e ↦ subst (IsServed post) e refl
                | inr batch ↦
                    rw
                      (
                        start.0, start.1, stop.0, stop.1, sync.0, sync.1, push.0, push.1, pull.0,
                        pull.1, attach.0, attach.1, fetch.0, fetch.1, batch.0, batch.1,
                      )
                      refl
              ]
            ]
          ]
        ]
      ]
    ]
  ]
]

-- The routes that have a body.
abbrev pub takes : Route → Bool
takes Route.health = false
takes Route.start = true
takes Route.stop = false
takes Route.sync = true
takes Route.wire_catalog = false
takes Route.wire_push = true
takes Route.wire_pull = true
takes Route.wire_batch_export = false
takes Route.wire_batch_import = true
takes Route.wire_attachment_push = true
takes Route.wire_attachment_pull = true

abbrev pub takes_some : Option Route → Bool
takes_some none = false
takes_some (some route) = takes route

-- The paths that a request with a body is for.
abbrev pub takes_body : HttpMethod → String → Bool
takes_body get path = false
takes_body post path =
    path == "/v1/start"
    || path == "/v1/sync"
    || path == "/v1/wire/push"
    || path == "/v1/wire/pull"
    || path == "/v1/wire/batch/import"
    || path == "/v1/wire/attachment/push"
    || path == "/v1/wire/attachment/pull"

takes_if :
    (b : Bool) (route : Route) (rest : Option Route)
    → takes route ≡ true
    → takes_some (if b then some route else rest) ≡ b || takes_some rest
takes_if true route rest h = h
takes_if false route rest h = refl

pub takes_lem :
    (method : HttpMethod) (path : String)
    → takes_some (route_of method path) ≡ takes_body method path
unfolding route_of
takes_lem get path = ground arith
takes_lem post path = elim (same_or path "/v1/stop") [
  | inl e ↦ subst (λ p. takes_some (route_of post p) ≡ takes_body post p) e refl
  | inr stop ↦
      rw
        (
          stop.0,
          takes_if (path == "/v1/start") Route.start _ refl,
          takes_if (path == "/v1/sync") Route.sync _ refl,
          takes_if (path == "/v1/wire/push") Route.wire_push _ refl,
          takes_if (path == "/v1/wire/pull") Route.wire_pull _ refl,
          takes_if (path == "/v1/wire/batch/import") Route.wire_batch_import _ refl,
          takes_if (path == "/v1/wire/attachment/push") Route.wire_attachment_push _ refl,
          takes_if (path == "/v1/wire/attachment/pull") Route.wire_attachment_pull _ refl,
        )
        (ground arith)
]
