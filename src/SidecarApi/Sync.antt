-- ===== src/SidecarApi/Sync.antt =====
-- sidecar_api.rs: sync_json.
use mesh_pad.Base.{
  ℕ, ◌%◌, String, false, Option, none, some, List, [], ◌∷◌, ◌++◌, Result, ok, err, unwrap_or,
  or_else, u32_mod,
}
use mesh_pad.External.Json.{Json}
use mesh_pad.External.Base64.{Base64}
use mesh_pad.External.Libp2p.{Libp2p}
use mesh_pad.External.Http.{Http}
use mesh_pad.External.Serde.{Serde}
use mesh_pad.External.Tokio.{Tokio}
use mesh_pad.WireStore
use mesh_pad.WireBatch.Exchange.{Stores}
use mesh_pad.Events.{sync_completed}
use mesh_pad.P2p.{SyncBatchStats}
use mesh_pad.P2p.Loop.{Input}
use mesh_pad.Sidecar.{P2pController, SidecarState, Async, done, waiting, ◌>>=◌, pure}
use mesh_pad.Sidecar.Requests.{SyncRequest}
use mesh_pad.Sidecar.Remote.{import_wire_from_http, push_wire_batch_to_http}
use mesh_pad.Sidecar.Controller.{Await, controller_pull, controller_push, controller_batch_sync}

-- The variables of sync_json.
pub record Synced : Type 0 where
  pub wire_imported : ℕ
  pub wire_pushed : ℕ
  pub import_via : String

abbrev pub unsynced : Synced
unsynced = record { wire_imported = 0; wire_pushed = 0; import_via = "none" }

abbrev pub note_import : Result ℕ String → String → Synced → Synced
note_import (ok count) via r = record r { wire_imported = count; import_via = via }
note_import (err e) via r = r

abbrev pub note_push : Result ℕ String → Synced → Synced
note_push (ok count) r = record r { wire_pushed = count }
note_push (err e) r = r

module _ ⦃json : Json⦄ ⦃base64 : Base64⦄ ⦃libp2p : Libp2p json.Value⦄ where
  open libp2p use {Swarm}

  -- What a request meets outside the sidecar's state: a variable of the process, the swarm that
  -- libp2p builds for an agent string, and what the loop is handed while the request waits for it.
  pub record Environment : Type 0 where
    pub peer_wire_port : Option String
    pub build : String → Option Swarm
    pub batch_sync : Await
    pub pull : Await
    pub push : Await
    pub stop : List Input

  abbrev pub stores_of : SidecarState → Stores
  stores_of s = record { wire = s.wire; attachments = s.attachments }

  abbrev pub with_stores : SidecarState → Stores → SidecarState
  with_stores s t = record s { wire = t.wire; attachments = t.attachments }

  -- `body.peer_id`, else the runtime's, else `sidecar`
  abbrev pub sync_peer_id : SidecarState → SyncRequest → String
  sync_peer_id s body = unwrap_or (or_else body.peer_id s.inner.peer_id) "sidecar"

module _ ⦃json : Json⦄ ⦃base64 : Base64⦄ ⦃libp2p : Libp2p json.Value⦄ ⦃http : Http json.Value⦄
    ⦃serde : Serde⦄ ⦃tokio : Tokio⦄ where
  open json use {Value, bool, number, string, object}

  -- a request to another host that has come to a result, or waits for ever
  abbrev pub await_host : {A : Type 0} → Option A → Async A
  await_host none s = waiting s
  await_host (some a) s = done a s

  abbrev pub http_import : String → Async (Result ℕ String)
  http_import base s =
      let fetched = import_wire_from_http base (stores_of s.state) s.world in
      await_host fetched.result
        (record { state = with_stores s.state fetched.stores; world = fetched.world })

  abbrev pub http_push : String → Async (Result ℕ String)
  http_push base s =
      let (pushed, world') = push_wire_batch_to_http base (stores_of s.state) s.world in
      await_host pushed (record s { world = world' })

  unfoldable pub sync_http : String → Async Synced
  sync_http base = do
    imported ← http_import base
    pushed ← http_push base
    pure (note_push pushed (note_import imported "http_wire_base" unsynced))

  abbrev pub after_batch : Environment → String → Result SyncBatchStats String → Async Synced
  after_batch env peer (ok stats) = pure (record {
    wire_imported = stats.imported;
    wire_pushed = stats.pushed;
    import_via = "libp2p_batch";
  })
  after_batch env peer (err e) = do
    imported ← controller_pull env.pull peer
    pushed ← controller_push env.push peer
    pure (note_push pushed (note_import imported "libp2p" unsynced))

  unfoldable pub sync_libp2p : Environment → String → Async Synced
  sync_libp2p env peer = do
    stats ← controller_batch_sync env.batch_sync peer
    after_batch env peer stats

  abbrev pub sync_peer : Environment → String → Option P2pController → Async Synced
  sync_peer env peer none = pure unsynced
  sync_peer env peer (some controller) = sync_libp2p env peer

  abbrev pub transfer : Environment → Option String → Option String → Async Synced
  transfer env (some base) peer s = sync_http base s
  transfer env none none s = done unsynced s
  transfer env none (some peer) s = sync_peer env peer s.state.inner.p2p s

  abbrev pub sync_reply : String → Synced → Value
  sync_reply peer_id r = object (
      ("status", string "delegated")
      ∷ ("backend", string "rust-libp2p")
      ∷ ("lan_fallback", bool false)
      ∷ ("wire_imported", number r.wire_imported)
      ∷ ("wire_pushed", number r.wire_pushed)
      ∷ ("import_via", string r.import_via)
      ∷ ("peer_id", string peer_id)
      ∷ [])

  -- the event and the reply, after all transfers
  abbrev pub report : String → Synced → Async Value
  report peer_id r s =
      let note_count = WireStore.len s.state.wire % u32_mod in
      done (sync_reply peer_id r) (record s {
        state = record s.state {
          events = s.state.events ++ sync_completed peer_id note_count ∷ [];
        };
      })

  unfoldable pub sync_json : Environment → SyncRequest → Async Value
  unfolding sync_http sync_libp2p
  sync_json env body s =
      (transfer env body.remote_wire_base body.peer_id >>= report (sync_peer_id s.state body)) s
