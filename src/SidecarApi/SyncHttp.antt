-- ===== src/SidecarApi/SyncHttp.antt =====
-- sync_json by the address of another sidecar: both have the same notes and attachments after it.
use mesh_pad.Base.{ℕ, ◌≡◌, refl, sym, subst, ap, ◌∙◌, String, Option, none, some, Result, ok, err}
use mesh_pad.External.Json.{Json}
use mesh_pad.External.Base64.{Base64}
use mesh_pad.External.Libp2p.{Libp2p}
use mesh_pad.External.Http.{Http}
use mesh_pad.External.Serde.{Serde}
use mesh_pad.External.Tokio.{Tokio}
use mesh_pad.WireBatch.{export_batch}
use mesh_pad.WireBatch.Exchange.{Agree, agree, Stores, IsWellFormed, NoEmptyBlob, receive}
use mesh_pad.Sidecar.{SidecarState, System, Async, pure, system_of, done}
use mesh_pad.Sidecar.Requests.{SyncRequest}
use mesh_pad.Sidecar.WireBase.{normalize_wire_base}
use mesh_pad.Sidecar.Remote.{body_of, pushed_count, import_wire_from_http, push_wire_batch_to_http}
use mesh_pad.SidecarApi.{wire_batch_import_json}
use mesh_pad.SidecarApi.Sync.{
  Environment, Synced, stores_of, with_stores, report, sync_http, await_host, http_push, sync_json,
  sync_reply, sync_peer_id, note_import, note_push, unsynced,
}
use mesh_pad.SidecarApi.Exchange.{Reaches, IsOk, import_from_sidecar}
use mesh_pad.SidecarApi.SyncLibp2p.{bind}

module _ ⦃json : Json⦄ ⦃base64 : Base64⦄ ⦃libp2p : Libp2p json.Value⦄ ⦃http : Http json.Value⦄
    ⦃serde : Serde⦄ where
  open http use {World}

  -- The remote sidecar after the push of these stores.
  push_to_sidecar :
      (base : String) (view : World → SidecarState) (t : Stores) (w : World)
      → Reaches (normalize_wire_base base) view
      → stores_of (view (push_wire_batch_to_http base t w).1) ≡ receive (stores_of (view w)) t
  unfolding push_wire_batch_to_http receive wire_batch_import_json
  push_to_sidecar base view t w reaches =
      ap stores_of (reaches.push_view w (export_batch t.wire t.attachments))

module _ ⦃json : Json⦄ ⦃base64 : Base64⦄ ⦃libp2p : Libp2p json.Value⦄ ⦃http : Http json.Value⦄
    ⦃serde : Serde⦄ ⦃tokio : Tokio⦄ where
  open http use {World}

  counted : (o : Option (Result ℕ String)) → IsOk o → (n : ℕ) × (o ≡ some (ok n))
  counted (some (ok n)) h = (n, refl)
  counted (some (err e)) h = absurd h
  counted none h = absurd h

  abbrev over_http : ℕ → Result ℕ String → Synced
  over_http imported pushed = note_push pushed (note_import (ok imported) "http_wire_base" unsynced)

  over_http_via :
      (imported : ℕ) (pushed : Result ℕ String)
      → (over_http imported pushed).import_via ≡ "http_wire_base"
  over_http_via n (ok m) = refl
  over_http_via n (err e) = refl

  -- The system after the two requests over HTTP.
  abbrev transferred : String → System → System
  transferred base s =
      let fetched = import_wire_from_http base (stores_of s.state) s.world in
      record {
        state = with_stores s.state fetched.stores;
        world = (push_wire_batch_to_http base fetched.stores fetched.world).1;
      }

  abbrev finish : String → Result ℕ String → Async Synced
  finish base imported s =
      bind (http_push base s)
        (λ p. pure (note_push p (note_import imported "http_wire_base" unsynced)))

  sync_http_lem :
      (base : String) (s : System) (imported : ℕ) (pushed : Result ℕ String)
      → let fetched = import_wire_from_http base (stores_of s.state) s.world in
        fetched.result ≡ some (ok imported)
        → (push_wire_batch_to_http base fetched.stores fetched.world).0 ≡ some pushed
        → sync_http base s ≡ done (over_http imported pushed) (transferred base s)
  unfolding sync_http
  sync_http_lem base s imported pushed e e' =
      let fetched = import_wire_from_http base (stores_of s.state) s.world in
      let s1 : System = record {
        state = with_stores s.state fetched.stores;
        world = fetched.world;
      } in
      ap (λ o. bind (await_host o s1) (finish base)) e
      ∙ ap (λ o. bind (await_host o (transferred base s)) (λ p. pure (over_http imported p))) e'

  push_ends :
      (base : String) (view : World → SidecarState) (t : Stores) (w : World)
      → Reaches (normalize_wire_base base) view
      → (pushed : Result ℕ String) × ((push_wire_batch_to_http base t w).0 ≡ some pushed)
  unfolding push_wire_batch_to_http
  push_ends base view t w reaches = (
    _,
    ap (λ r. pushed_count (body_of r)) (reaches.push_reply w (export_batch t.wire t.attachments)),
  )

  -- A sync by the address of another sidecar, where both are well-formed and have no empty
  -- attachments and that one answers by its handlers: it ends, says that it imported over HTTP, and
  -- leaves both with the same note under every id and the same bytes under every key, those of the
  -- remote sidecar where it had some, and else those of the local one.
  pub sync_json_converges :
      (env : Environment) (peer : Option String) (base : String) (view : World → SidecarState)
      (s : System)
      → Reaches (normalize_wire_base base) view
      → IsWellFormed (stores_of s.state)
      → IsWellFormed (stores_of (view s.world))
      → NoEmptyBlob (stores_of s.state)
      → NoEmptyBlob (stores_of (view s.world))
      → let body : SyncRequest = record { peer_id = peer; remote_wire_base = some base } in
        let s' = system_of (sync_json env body s) in
        let local = stores_of s.state in
        let remote = stores_of (view s.world) in
        let local' = stores_of s'.state in
        let remote' = stores_of (view s'.world) in
        ((r : Synced) × (sync_json env body s ≡ done (sync_reply (sync_peer_id s.state body) r) s')
          × (r.import_via ≡ "http_wire_base"))
        × Agree local remote local' remote'
  unfolding sync_json
  sync_json_converges env peer base view s reaches l r no_l no_r =
      let body : SyncRequest = record { peer_id = peer; remote_wire_base = some base } in
      let id = sync_peer_id s.state body in
      let local = stores_of s.state in
      let remote = stores_of (view s.world) in
      let (both, seen, fine) = import_from_sidecar base view local s.world reaches l r in
      let fetched = import_wire_from_http base local s.world in
      let (imported, got) = counted fetched.result fine in
      let (pushed, sent) = push_ends base view fetched.stores fetched.world reaches in
      let ended = ap (λ m. bind m (report id)) (sync_http_lem base s imported pushed got sent) in
      let taken : stores_of (view (transferred base s).world) ≡ receive remote fetched.stores =
        push_to_sidecar base view fetched.stores fetched.world reaches
        ∙ ap (λ v. receive (stores_of v) fetched.stores) seen in
      (
        (
          over_http imported pushed,
          ended ∙ ap (done (sync_reply id (over_http imported pushed))) (sym (ap system_of ended)),
          over_http_via imported pushed,
        ),
        subst
            (λ o.
              Agree local remote (stores_of (system_of o).state)
                (stores_of (view (system_of o).world)))
            (sym ended)
            (subst (λ t. Agree local remote fetched.stores t) (sym taken)
              (agree local remote fetched.stores r no_l no_r both)),
      )
