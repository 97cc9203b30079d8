-- ===== src/Sidecar/Closed/Remote.antt =====
-- A property of the two stores that every arrival keeps is kept by an import from another host.
use mesh_pad.Base.{
  ℕ, Option, none, some, String, true, false, List, [], ◌∷◌, Result, ok, err, ltb, Bool-cases, inl,
  inr,
}
use mesh_pad.Base.Text.{concat}
use mesh_pad.External.Json.{Json}
use mesh_pad.External.Base64.{Base64}
use mesh_pad.External.Libp2p.{Libp2p}
use mesh_pad.External.Http.{Http, Reply, silent, failed, answered}
use mesh_pad.External.Serde.{Serde}
use mesh_pad.External.Tokio.{Tokio}
use mesh_pad.WireStore.Catalog.{ids_of_heads}
use mesh_pad.WireBatch.{list_field}
use mesh_pad.WireBatch.Exchange.{Stores}
use mesh_pad.WireBatch.Arrivals.{Arrival, snapshots, batch, arrive}
use mesh_pad.Sidecar.WireBase.{normalize_wire_base}
use mesh_pad.Sidecar.Remote.{
  import_reply, import_notes, pull_notes, pull_catalog, after_batch_import, import_wire_from_http,
}

module _ ⦃json : Json⦄ ⦃base64 : Base64⦄ ⦃libp2p : Libp2p json.Value⦄ ⦃http : Http json.Value⦄
    ⦃serde : Serde⦄ ⦃tokio : Tokio⦄ where
  open json use {Value}
  open http use {World}

  module _ (Q : Stores → Type 0) (closed : (s : Stores) (a : Arrival) → Q s → Q (arrive s a)) where
    import_reply-Keeps : (reply : Reply Value) (t : Stores) → Q t → Q (import_reply reply t).1
    unfolding arrive
    import_reply-Keeps (answered true (ok body)) t k = closed t (batch body) k
    import_reply-Keeps (answered true (err e)) t k = k
    import_reply-Keeps (answered false body) t k = k
    import_reply-Keeps (failed e) t k = k
    import_reply-Keeps silent t k = k

    import_notes-Keeps :
        (t : Stores) (body : Option (Result Value String)) (w : World)
        → Q t
        → Q (import_notes t body w).stores
    unfolding arrive
    import_notes-Keeps t (some (ok pull)) w k = closed t (snapshots (list_field pull "notes")) k
    import_notes-Keeps t (some (err e)) w k = k
    import_notes-Keeps t none w k = k

    pull_notes-Keeps :
        (base : String) (t : Stores) (ids : List String) (w : World)
        → Q t
        → Q (pull_notes base t ids w).stores
    pull_notes-Keeps base t [] w k = k
    pull_notes-Keeps base t (id ∷ ids) w k = import_notes-Keeps t _ _ k

    pull_catalog-Keeps :
        (base : String) (t : Stores) (catalog : Option (Result (List Value) String)) (w : World)
        → Q t
        → Q (pull_catalog base t catalog w).stores
    pull_catalog-Keeps base t none w k = k
    pull_catalog-Keeps base t (some (err e)) w k = k
    pull_catalog-Keeps base t (some (ok catalog)) w k =
        pull_notes-Keeps base t (ids_of_heads catalog) w k

    after_batch_import-Keeps :
        (base : String) (imported : Option ℕ) (t : Stores) (w : World)
        → Q t
        → Q (after_batch_import base imported t w).stores
    after_batch_import-Keeps base none t w k = k
    after_batch_import-Keeps base (some n) t w k = elim (Bool-cases (ltb 0 n)) [
      | inl some_imported ↦ rw some_imported k
      | inr nothing ↦ rw nothing (pull_catalog-Keeps base t _ _ k)
    ]

    pub import_wire_from_http-Keeps :
        (base : String) (t : Stores) (w : World) → Q t → Q (import_wire_from_http base t w).stores
    unfolding import_wire_from_http
    import_wire_from_http-Keeps base t w k =
        let reply = http.get w (concat (normalize_wire_base base) "v1/wire/batch/export") in
        after_batch_import-Keeps (normalize_wire_base base) (import_reply reply.0 t).0 _ reply.1
          (import_reply-Keeps reply.0 t k)
