-- ===== src/Examples/Sidecars.antt =====
-- The routes of the sidecar at concrete requests.
use mesh_pad.Base.{
  false, Option, ◌≡◌, ◌≢◌, ◌%◌, u32_mod, String, refl, true, none, some, [], ◌∷◌, ◌++◌, ok, err,
  arith,
}
use native.Mathlib.Decide.{dec_lt}
use mesh_pad.Base.Text.{trim}
use mesh_pad.WireStore.{note_id_from_snapshot}
use mesh_pad.WireBatch.Exchange.{Agree, batch_sync}
use mesh_pad.P2p.Conversation.{stores, conversation}
use mesh_pad.Sidecar.{System, done, system_of, new_sidecar_state}
use mesh_pad.Sidecar.Requests.{SyncRequest}
use mesh_pad.Sidecar.Controller.{synced_for}
use mesh_pad.SidecarApi.Sync.{
  Environment, Synced, sync_json, sync_reply, unsynced, sync_peer_id, stores_of,
}
use mesh_pad.SidecarApi.Dispatch.{get, post, route_of, dispatch_json}
use mesh_pad.SidecarApi.Dispatch.Hosts.{IsDone}
use mesh_pad.Sidecar.WireBase.{normalize_wire_base}
use mesh_pad.SidecarApi.Dispatch.Outcomes.{
  IsAnswered, dispatch_json-IsDone, dispatch_json_unchanged,
}
use mesh_pad.SidecarApi.Keyed.{dispatch_json-IsKeyed, dispatch_json_keeps}
use mesh_pad.SidecarApi.NoSwarm.{start_without_swarm}
use mesh_pad.WireStore
use mesh_pad.WireStore.Upsert.{note, IsKeyed}
use mesh_pad.AttachmentStore.Upsert.{blob}
use mesh_pad.Events.{sync_completed}
use mesh_pad.SidecarApi.SyncHttp.{sync_json_converges}
use mesh_pad.SidecarApi.SyncLibp2p.{batch_responses, sync_json-batch_sync}
use mesh_pad.SidecarApi.RoundTrip.{
  push_body, pull_body, pushed_attachment, pulled_attachment, pull-push, attachment_pull-push,
  attachment_pull-push_undecodable,
}
use mesh_pad.SidecarApi.Router.{http_request}
use mesh_pad.External.Axum.{HttpBody}
use mesh_pad.SidecarApi.Router.Extraction.{AnswersAlike}
use mesh_pad.SidecarApi.Router.Agreement.{http_request-dispatch_json}
use mesh_pad.SidecarApi.Lifecycle.{Shows}
use mesh_pad.Examples.Trees.{Tree, trees}
use mesh_pad.Examples.Latin.{latin}
use mesh_pad.Examples.Network.{network}
use mesh_pad.Examples.Requests.{derived, channels, exact_routes, host, host-Reaches, host-Responds}
use mesh_pad.Examples.Batches.{
  snapshot, left, right, left-IsWellFormed, right-IsWellFormed, left-NoEmptyBlob, right-NoEmptyBlob,
  left_wire, right_wire, left_files, left_wire-IsKeyed, nine,
}
use mesh_pad.Examples.Swarms.{config, local, remote, local-IsConsistent, connected}

abbrev pub env : Environment
env = record {
  peer_wire_port = some "8080";
  build = λ agent. some 0;
  batch_sync = record { reply = 1; meanwhile = batch_responses config local remote 7 5 "peer-b" 1 };
  pull = record { reply = 2; meanwhile = [] };
  push = record { reply = 3; meanwhile = [] };
  stop = [];
}

-- A sidecar that was not started, and another host that has other notes.
abbrev pub idle : System
idle = record {
  state = record (new_sidecar_state 45839) { wire = left_wire; attachments = left_files };
  world = record (new_sidecar_state 45839) { wire = right_wire };
}

abbrev pub asked : SyncRequest
asked = record { peer_id = some "peer-b"; remote_wire_base = none }

abbrev by_address : SyncRequest
by_address = record { peer_id = none; remote_wire_base = some "http://b" }

sync_json_converges_example :
    let s' = system_of (sync_json env by_address idle) in
    ((r : Synced) × (sync_json env by_address idle
        ≡ done (sync_reply (sync_peer_id idle.state by_address) r) s')
      × (r.import_via ≡ "http_wire_base"))
    × Agree left right (stores_of s'.state) (stores_of s'.world)
unfolding new_sidecar_state
sync_json_converges_example =
    sync_json_converges env none "http://b" (λ w. w) idle host-Reaches left-IsWellFormed
      right-IsWellFormed left-NoEmptyBlob right-NoEmptyBlob

-- The sidecar with a running loop that knows the peer 7 as `peer-b`.
abbrev pub running : System
running = record idle {
  state = record {
    inner = record {
      peer_id = some "peer-a";
      display_name = "A";
      running = true;
      p2p = some (record { config = config; node = some local });
    };
    wire = left_wire;
    attachments = left_files;
    events = [];
    http_port = 45839;
  };
}

sync_json-batch_sync_example :
    let s' = system_of (sync_json env asked running) in
    let remote' = (conversation config local remote 7 5 "peer-b" 1).1 in
    ((r : Synced) × (sync_json env asked running ≡ done (sync_reply "peer-b" r) s')
      × (r.import_via ≡ "libp2p_batch"))
    × (stores_of s'.state ≡ (batch_sync left (stores remote)).0)
    × (stores remote' ≡ (batch_sync left (stores remote)).1)
unfolding synced_for
sync_json-batch_sync_example =
    sync_json-batch_sync env running "peer-b" config local remote 7 5 refl refl local-IsConsistent
      connected refl

dispatch_json-IsKeyed_example :
    IsKeyed
      (system_of (
        dispatch_json env post "/v1/wire/push"
          (some (push_body (snapshot "b" "x")))
          idle)).state.wire
unfolding new_sidecar_state
dispatch_json-IsKeyed_example =
    dispatch_json-IsKeyed env post "/v1/wire/push" (some (push_body (snapshot "b" "x"))) idle
      left_wire-IsKeyed

dispatch_json_keeps_example :
    let s' =
      system_of
        (dispatch_json env post "/v1/wire/push" (some (push_body (snapshot "b" "x"))) idle) in
    ((id : String) → note left_wire id ≢ none → note s'.state.wire id ≢ none)
    × ((key : String) → blob left_files key ≢ none → blob s'.state.attachments key ≢ none)
dispatch_json_keeps_example =
    dispatch_json_keeps env post "/v1/wire/push" (some (push_body (snapshot "b" "x"))) idle

-- An environment in which libp2p builds no swarm.
abbrev without_swarm : Environment
without_swarm = record env { build = λ agent. none }

start_without_swarm_example :
    let s1 = system_of (
      dispatch_json without_swarm post "/v1/start"
        (some (trees.object (("peer_id", trees.string "peer-a") ∷ [])))
        idle) in
    let completed = sync_completed "peer-b" (WireStore.len idle.state.wire % u32_mod) in
    Shows without_swarm s1 true
    × (sync_json without_swarm asked s1
        ≡ done (sync_reply "peer-b" unsynced) (record s1 {
          state = record s1.state { events = idle.state.events ++ completed ∷ [] };
        }))
start_without_swarm_example =
    start_without_swarm without_swarm idle "peer-a" "peer-b" (λ agent. refl)

-- The host answers at every address, and no loop runs.
idle-IsAnswered : (base : Option String) → IsAnswered base idle
unfolding new_sidecar_state
idle-IsAnswered none = tt
idle-IsAnswered (some base) = host-Responds (normalize_wire_base base)

dispatch_json-IsDone_example :
    IsDone (dispatch_json env post " /v1/sync" (some (trees.object [])) idle)
unfolding new_sidecar_state
dispatch_json-IsDone_example =
    dispatch_json-IsDone env post " /v1/sync" (some (trees.object [])) idle
      (λ e b e'. idle-IsAnswered b.remote_wire_base)

no_route :
    dispatch_json env get "/v1/sync" none idle ≡ done (err "unsupported route Get /v1/sync") idle
unfolding dispatch_json trim route_of
no_route = refl

dispatch_json_unchanged_example : ◌≡◌ {A = System} idle idle
dispatch_json_unchanged_example =
    dispatch_json_unchanged env get "/v1/sync" none idle idle "unsupported route Get /v1/sync"
      no_route

identified_note : note_id_from_snapshot (snapshot "b" "x") ≡ some "b"
unfolding note_id_from_snapshot
identified_note = refl

pull-push_example :
    let s' =
      system_of
        (dispatch_json env post "/v1/wire/push" (some (push_body (snapshot "b" "x"))) idle) in
    (v : Tree) × (dispatch_json env post "/v1/wire/pull" (some (pull_body ("b" ∷ []))) s'
      ≡ done (ok v) s')
    × (trees.get v "notes" ≡ some (trees.array (snapshot "b" "x" ∷ [])))
pull-push_example = pull-push env idle (snapshot "b" "x") "b" identified_note

attachment_pull-push_example :
    (v : Tree) × (pulled_attachment env idle "b" "g.png" (latin.encode nine)
      ≡ done (ok v) (pushed_attachment env idle "b" "g.png" (latin.encode nine)))
    × (trees.get v "bytes_base64" ≡ some (trees.string (latin.encode nine)))
attachment_pull-push_example =
    attachment_pull-push env idle "b" "g.png" nine (λ e. cc) (λ e. cc) (omega arith)

attachment_pull-push_undecodable_example :
    (v : Tree) × (pulled_attachment env idle "a" "f.png" "λ"
      ≡ done (ok v) (pushed_attachment env idle "a" "f.png" "λ"))
    × (trees.get v "bytes_base64" ≡ some (trees.string ""))
unfolding dec_lt
attachment_pull-push_undecodable_example =
    attachment_pull-push_undecodable env idle "a" "f.png" "λ" (λ e. cc) (λ e. cc) refl

-- A body of 3 MiB.
abbrev large : HttpBody Tree
large = record { json_type = true; bytes = 3145728; value = some (trees.object []) }

http_request-dispatch_json_example :
    AnswersAlike false idle
      (http_request env post "/v1/wire/batch/import" large idle)
      (dispatch_json env post "/v1/wire/batch/import" large.value idle)
unfolding trim
http_request-dispatch_json_example =
    http_request-dispatch_json env post "/v1/wire/batch/import" large idle refl (λ e. cc)
