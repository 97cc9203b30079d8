-- ===== src/Examples/Requests.antt =====
-- serde, tokio and reqwest: a concrete function for each operation of the interfaces. The one other
-- host is a sidecar at `http://b/`, whose state is the world.
use mesh_pad.Base.{
  Bool, ◌&&◌, leb, ◌≢◌, ◌≤◌, ◌<◌, arith, ◌≡◌, refl, String, Option, none, some, List, [], ◌∷◌, map,
  ◌>>=◌, Result, ok, err, ok_or_else, ◌==◌, string_key, if◌then◌else◌, true, false,
}
use mesh_pad.Base.Text.{concat, trim, ends_with}
use mesh_pad.External.Json.{field}
use mesh_pad.External.Http.{Http, Reply, silent, failed, answered}
use mesh_pad.External.Serde.{Serde}
use mesh_pad.External.Tokio.{Tokio}
use mesh_pad.External.Axum.{Axum, HttpBody, default_body_limit, read_value, first_route}
use mesh_pad.Sidecar.{SidecarState}
use mesh_pad.Sidecar.Requests.{
  StartRequest, SyncRequest, WirePushRequest, WirePullRequest, WireAttachmentPushRequest,
  WireAttachmentPullRequest, default_display_name,
}
use mesh_pad.Sidecar.WireBase.{normalize_wire_base}
use mesh_pad.SidecarApi.{
  wire_batch_export_json, wire_catalog_json, wire_pull_json, wire_batch_import_json,
}
use mesh_pad.SidecarApi.Router.{Handler}
use mesh_pad.SidecarApi.Exchange.{Reaches}
use mesh_pad.SidecarApi.Dispatch.Hosts.{Responds}
use mesh_pad.Examples.Trees.{
  Tree, string, null, trees, tree_get, tree_as_array, tree_as_str, get_members, list_of-items,
}
use mesh_pad.Examples.Latin.{latin}
use mesh_pad.Examples.Network.{network}

abbrev required : Option Tree → Option String
required field = do v ← field; tree_as_str v

abbrev maybe : Option Tree → Option (Option String)
maybe none = some none
maybe (some null) = some none
maybe (some (string s)) = some (some s)
maybe (some _) = none

abbrev pushed_text : Option String → Option (List String) → Option (List String)
pushed_text none rest = none
pushed_text (some s) none = none
pushed_text (some s) (some rest) = some (s ∷ rest)

abbrev strings : List Tree → Option (List String)
strings [] = some []
strings (v ∷ vs) = pushed_text (tree_as_str v) (strings vs)

pub strings_lem : (ids : List String) → strings (map string ids) ≡ some ids
strings_lem [] = refl
strings_lem (id ∷ ids) = rw (strings_lem ids) refl

abbrev defaulted : Option Tree → Option String
defaulted none = some default_display_name
defaulted (some v) = tree_as_str v

abbrev start_request : Tree → Option StartRequest
start_request v = do
  id ← required (tree_get v "peer_id")
  name ← defaulted (tree_get v "display_name")
  some (record { peer_id = id; display_name = name })

abbrev sync_request : Tree → Option SyncRequest
sync_request v = do
  id ← maybe (tree_get v "peer_id")
  base ← maybe (tree_get v "remote_wire_base")
  some (record { peer_id = id; remote_wire_base = base })

abbrev wire_push_request : Tree → Option (WirePushRequest Tree)
wire_push_request v = do
  id ← maybe (tree_get v "peer_id")
  snapshot ← tree_get v "snapshot"
  some (record { peer_id = id; snapshot = snapshot })

abbrev wire_pull_request : Tree → Option WirePullRequest
wire_pull_request v = do
  id ← maybe (tree_get v "peer_id")
  listed ← tree_get v "note_ids"
  vs ← tree_as_array listed
  ids ← strings vs
  some (record { peer_id = id; note_ids = ids })

abbrev attachment_push_request : Tree → Option WireAttachmentPushRequest
attachment_push_request v = do
  id ← maybe (tree_get v "peer_id")
  note_id ← required (tree_get v "note_id")
  name ← required (tree_get v "name")
  text ← required (tree_get v "bytes_base64")
  some (record { peer_id = id; note_id = note_id; name = name; bytes_base64 = text })

abbrev attachment_pull_request : Tree → Option WireAttachmentPullRequest
attachment_pull_request v = do
  id ← maybe (tree_get v "peer_id")
  note_id ← required (tree_get v "note_id")
  name ← required (tree_get v "name")
  some (record { peer_id = id; note_id = note_id; name = name })

abbrev read : {A : Type 0} → Option A → Result A String
read r = ok_or_else r "data did not match"

instance abbrev pub derived : Serde
derived = record {
  start_request = λ v. read (start_request v);
  sync_request = λ v. read (sync_request v);
  wire_push_request = λ v. read (wire_push_request v);
  wire_pull_request = λ v. read (wire_pull_request v);
  attachment_push_request = λ v. read (attachment_push_request v);
  attachment_pull_request = λ v. read (attachment_pull_request v);
  values = λ v. read (tree_as_array v);
  values-array = λ vs. rw (list_of-items vs) refl;
  start-object =
      λ fs id e e'. rw (get_members fs "peer_id", get_members fs "display_name", e, e') refl;
  wire_push-object =
      λ fs v e e'. rw (get_members fs "peer_id", get_members fs "snapshot", e, e') refl;
  wire_pull-object = λ fs ids e e'.
      rw
        (
          get_members fs "peer_id",
          get_members fs "note_ids",
          e,
          e',
          list_of-items (map string ids),
          strings_lem ids,
        )
        refl;
  attachment_push-object = λ fs note_id name text e e' e'' e'''.
      rw
        (
          get_members fs "peer_id",
          get_members fs "note_id",
          get_members fs "name",
          get_members fs "bytes_base64",
          e,
          e',
          e'',
          e''',
        )
        refl;
  attachment_pull-object = λ fs note_id name e e' e''.
      rw (get_members fs "peer_id", get_members fs "note_id", get_members fs "name", e, e', e'')
        refl;
}

instance abbrev pub channels : Tokio
channels = record { send_error = "channel closed"; recv_error = "channel closed" }

abbrev answer_get : SidecarState → String → Reply Tree × SidecarState
answer_get w url =
    if url == "http://b/v1/wire/batch/export"
    then (answered true (ok (wire_batch_export_json w)), w)
    else if url == "http://b/v1/wire/catalog"
    then (answered true (ok (wire_catalog_json w)), w)
    else (failed "error sending request", w)

abbrev answer_pull : SidecarState → Result WirePullRequest String → Reply Tree × SidecarState
answer_pull w (ok body) = (answered true (ok (wire_pull_json w body)), w)
answer_pull w (err e) = (answered false (err e), w)

abbrev answer_import : Tree × SidecarState → Reply Tree × SidecarState
answer_import (v, w) = (answered true (ok v), w)

abbrev answer_post : SidecarState → String → Tree → Reply Tree × SidecarState
answer_post w url body =
    if url == "http://b/v1/wire/pull"
    then answer_pull w (derived.wire_pull_request body)
    else if url == "http://b/v1/wire/batch/import"
    then answer_import (wire_batch_import_json w body)
    else (failed "error sending request", w)

instance abbrev pub host : Http Tree
host = record { World = SidecarState; get = answer_get; post = answer_post }

pub host-Reaches : Reaches (normalize_wire_base "http://b") (λ w. w)
unfolding normalize_wire_base trim ends_with
host-Reaches = record {
  export_reply = λ w. refl;
  export_view = λ w. refl;
  catalog_reply = λ w. refl;
  catalog_view = λ w. refl;
  pull_reply = λ w ids. rw (list_of-items (map string ids), strings_lem ids) refl;
  pull_view = λ w ids. rw (list_of-items (map string ids), strings_lem ids) refl;
  push_reply = λ w batch. refl;
  push_view = λ w batch. refl;
}

abbrev fits : HttpBody Tree → Bool
fits body = body.json_type && leb body.bytes default_body_limit

abbrev extract : {T : Type 0} → (Tree → Result T String) → HttpBody Tree → Option T
extract read body = if fits body then read_value read body.value else none

pub fits-untyped : (body : HttpBody Tree) → body.json_type ≡ false → fits body ≡ false
fits-untyped body e = ground (arith, e)

pub fits-large : (body : HttpBody Tree) → default_body_limit < body.bytes → fits body ≡ false
fits-large body h = ground (arith, h)

pub fits-read :
    (body : HttpBody Tree)
    → body.json_type ≡ true
    → body.bytes ≤ default_body_limit
    → fits body ≡ true
fits-read body e h = ground (arith, e, h)

instance abbrev pub exact_routes : Axum Tree Handler
exact_routes = record {
  find = λ routes method path. first_route method path routes;
  find-exact = λ routes method path. refl;
  extract = extract;
  extract-untyped = λ read body e. rw (fits-untyped body e) refl;
  extract-large = λ read body h. rw (fits-large body h) refl;
  extract-read = λ read body e h. rw (fits-read body e h) refl;
}

-- The other host has an answer, or an error, for every request.
get-answers : (w : SidecarState) (url : String) → (answer_get w url).0 ≢ silent
get-answers w url = ground (arith)

post-answers : (w : SidecarState) (url : String) (v : Tree) → (answer_post w url v).0 ≢ silent
post-answers w url v = ground (arith)

pub host-Responds : (base : String) → Responds base
host-Responds base = record {
  batch = λ w. get-answers w (concat base "v1/wire/batch/export");
  catalog = λ w. get-answers w (concat base "v1/wire/catalog");
  notes = λ w v. post-answers w (concat base "v1/wire/pull") v;
  import = λ w v. post-answers w (concat base "v1/wire/batch/import") v;
}
