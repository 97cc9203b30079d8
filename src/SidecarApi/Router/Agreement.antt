-- ===== src/SidecarApi/Router/Agreement.antt =====
-- The HTTP server and dispatch_json answer alike.
use mesh_pad.Base.{
  true, not, ◌&&◌, ◌||◌, leb, ◌>>=◌, is_some, ◌≡◌, ◌≢◌, refl, sym, String, false, Option, none,
  some, List, ok, string_key, if◌then◌else◌, arith, inl, inr, Bool-cases,
}
use mesh_pad.Base.Text.{trim}
use mesh_pad.External.Json.{Json}
use mesh_pad.External.Base64.{Byte, Base64}
use mesh_pad.External.Libp2p.{Libp2p}
use mesh_pad.External.Http.{Http}
use mesh_pad.External.Serde.{Serde}
use mesh_pad.External.Tokio.{Tokio}
use mesh_pad.External.Axum.{Axum, HttpBody}
use mesh_pad.AttachmentStore
use mesh_pad.Sidecar.{SidecarState, System, Outcome, done, waiting}
use mesh_pad.Sidecar.Requests.{WireAttachmentPullRequest}
use mesh_pad.SidecarApi.{wire_attachment_pull_json, attachment_reply}
use mesh_pad.SidecarApi.Sync.{Environment, sync_json}
use mesh_pad.SidecarApi.Dispatch.{HttpMethod, Route, route_of, handle, handle_route, dispatch_json}
use mesh_pad.SidecarApi.Router.{
  Handler, router, answered, rejected, finished, is_not_found, pull_response, serve, serve_found,
  http_request,
}
use mesh_pad.SidecarApi.Router.Paths.{
  handler_of, takes, takes_some, takes_body, router-IsServed, takes_lem,
}
use mesh_pad.SidecarApi.Router.Extraction.{
  SameOutcome, AnswersAlike, alike, is_read, read-with_body, batch-with_body, unread,
}

module _ ⦃json : Json⦄ ⦃base64 : Base64⦄ ⦃libp2p : Libp2p json.Value⦄ ⦃http : Http json.Value⦄
    ⦃serde : Serde⦄ ⦃tokio : Tokio⦄ where
  open json use {Value}

  same_finished :
      (o : Outcome Value)
      → SameOutcome (finished o) (elim o [ done v s ↦ done (ok v) s | waiting s ↦ waiting s ])
  same_finished (done v s) = (refl, refl)
  same_finished (waiting s) = refl

  pull_response-same :
      (v : Value) (s : System) → SameOutcome (done (pull_response (ok v)) s) (done (ok v) s)
  pull_response-same v s =
      elim (Bool-cases (is_not_found (json.get v "status" >>= λ t. json.as_str t))) [
        | inl missing ↦ rw missing (refl, refl)
        | inr there ↦ rw there (refl, refl)
      ]

  module _ ⦃axum : Axum Value Handler⦄ where
    serve-handle :
        (env : Environment) (route : Route) (body : HttpBody Value) (s : System)
        → (takes route ≡ true → is_read body ≡ true)
        → SameOutcome
            (serve_found env body (handler_of (some route)) s)
            (handle env route body.value s)
    unfolding serve handle wire_attachment_pull_json
    serve-handle env Route.health body s fits = (refl, refl)
    serve-handle env Route.start body s fits =
        read-with_body serde.start_request body _ _ s (fits refl) (λ b. (refl, refl))
    serve-handle env Route.stop body s fits = (refl, refl)
    serve-handle env Route.sync body s fits =
        read-with_body serde.sync_request body _ _ s (fits refl)
          (λ b. same_finished (sync_json env b s))
    serve-handle env Route.wire_catalog body s fits = (refl, refl)
    serve-handle env Route.wire_push body s fits =
        read-with_body serde.wire_push_request body _ _ s (fits refl) (λ b. (refl, refl))
    serve-handle env Route.wire_pull body s fits =
        read-with_body serde.wire_pull_request body _ _ s (fits refl) (λ b. (refl, refl))
    serve-handle env Route.wire_batch_export body s fits = (refl, refl)
    serve-handle env Route.wire_batch_import body s fits =
        batch-with_body body "missing batch body" _ _ s (fits refl) (λ b. (refl, refl))
    serve-handle env Route.wire_attachment_push body s fits =
        read-with_body serde.attachment_push_request body _ _ s (fits refl) (λ b. (refl, refl))
    serve-handle env Route.wire_attachment_pull body s fits =
        read-with_body serde.attachment_pull_request body _ _ s (fits refl) (λ b.
          pull_response-same
            (attachment_reply b (AttachmentStore.get s.state.attachments b.note_id b.name)) s)

    serve-rejected :
        (env : Environment) (route : Route) (body : HttpBody Value) (s : System)
        → takes route ≡ true
        → is_read body ≡ false
        → serve_found env body (handler_of (some route)) s ≡ done rejected s
    unfolding serve
    serve-rejected env Route.health body s h refused = cc
    serve-rejected env Route.start body s h refused = unread serde.start_request body _ s refused
    serve-rejected env Route.stop body s h refused = cc
    serve-rejected env Route.sync body s h refused = unread serde.sync_request body _ s refused
    serve-rejected env Route.wire_catalog body s h refused = cc
    serve-rejected env Route.wire_push body s h refused =
        unread serde.wire_push_request body _ s refused
    serve-rejected env Route.wire_pull body s h refused =
        unread serde.wire_pull_request body _ s refused
    serve-rejected env Route.wire_batch_export body s h refused = cc
    serve-rejected env Route.wire_batch_import body s h refused = unread ok body _ s refused
    serve-rejected env Route.wire_attachment_push body s h refused =
        unread serde.attachment_push_request body _ s refused
    serve-rejected env Route.wire_attachment_pull body s h refused =
        unread serde.attachment_pull_request body _ s refused

    served :
        (env : Environment) (method : HttpMethod) (path : String) (route : Option Route)
        (body : HttpBody Value) (s : System)
        → AnswersAlike
            (not (takes_some route) || is_read body)
            s
            (serve_found env body (handler_of route) s)
            (handle_route env method path body.value route s)
    served env method path none body s = (tt, refl)
    served env method path (some route) body s =
        alike (not (takes route) || is_read body) s _ _
          (λ e. serve-handle env route body s (λ h. ground (arith, e, h)))
          (λ e. serve-rejected env route body s (ground (arith, e)) (ground (arith, e)))

    -- For requests by GET or POST whose body has no JSON object with a key twice, but for the stream of
    -- events and for paths with white space at an end, which dispatch_json trims: a request to the HTTP
    -- server with a body that its path takes is refused, and changes nothing, where the content type of
    -- the body is not that of JSON or the body has more than 2 MiB. Every other request is answered as
    -- dispatch_json answers the value of its body: both refuse it, or both give the same JSON, or both
    -- wait, and the sidecar and the world are the same after both.
    pub http_request-dispatch_json :
        (env : Environment) (method : HttpMethod) (path : String) (body : HttpBody Value)
        (s : System)
        → trim path ≡ path
        → path ≢ "/v1/events"
        → AnswersAlike
            (not (takes_body method path) || (body.json_type && leb body.bytes 2097152))
            s
            (http_request env method path body s)
            (dispatch_json env method path body.value s)
    unfolding http_request dispatch_json
    http_request-dispatch_json env method path body s trimmed other =
        rw
          (
            trimmed,
            axum.find-exact router method path,
            router-IsServed method path other,
            sym (takes_lem method path),
          )
          (served env method path (route_of method path) body s)

  -- The status of a pull of an attachment is 200 where the sidecar has it, and 404 where not.
  pub pull_response_status :
      (s : SidecarState) (body : WireAttachmentPullRequest)
      → pull_response (wire_attachment_pull_json s body)
        ≡ answered
            (if is_some (AttachmentStore.get s.attachments body.note_id body.name)
              then 200
              else 404)
            (attachment_reply body (AttachmentStore.get s.attachments body.note_id body.name))
  unfolding wire_attachment_pull_json
  pull_response_status s body = by_blob (AttachmentStore.get s.attachments body.note_id body.name)
    where
      by_blob :
          (blob : Option (List Byte))
          → pull_response (ok (attachment_reply body blob))
            ≡ answered (if is_some blob then 200 else 404) (attachment_reply body blob)
      by_blob none = rw (json.get-object, json.as_str-string)
      by_blob (some bytes) = rw (json.get-object, json.as_str-string)
