-- ===== src/SidecarApi/Exchange.antt =====
-- A sync over HTTP with another sidecar: what import_wire_from_http and push_wire_batch_to_http do
-- when the other host answers by its handlers.
use mesh_pad.Base.{
  ◌≡◌, refl, sym, subst, ap, ◌∙◌, String, true, Option, none, some, List, [], ◌∷◌, map, Result, ok,
  err, ltb, Bool-cases, inl, inr, or_else,
}
use mesh_pad.Base.Text.{concat}
use mesh_pad.External.Json.{Json}
use mesh_pad.External.Base64.{Base64}
use mesh_pad.External.Libp2p.{Libp2p}
use mesh_pad.External.Http.{Http, answered}
use mesh_pad.External.Serde.{Serde}
use mesh_pad.WireStore
use mesh_pad.WireStore.{catalog_heads, import_snapshots}
use mesh_pad.WireStore.Upsert.{note, IsKeyed}
use mesh_pad.WireStore.Catalog.{ids_of_heads, import-pull-catalog}
use mesh_pad.WireBatch.{import_batch, export_batch, list_field}
use mesh_pad.WireBatch.Exchange.{HasBoth, receive-HasBoth, Stores, IsWellFormed, receive}
use mesh_pad.WireStore.Import.{import_snapshots-IsKeyed}
use mesh_pad.Sidecar.{SidecarState}
use mesh_pad.Sidecar.WireBase.{normalize_wire_base}
use mesh_pad.Sidecar.Remote.{pull_notes, fetch_catalog, import_wire_from_http}
use mesh_pad.SidecarApi.{
  wire_batch_export_json, wire_catalog_json, wire_pull_json, wire_batch_import_json,
}
use mesh_pad.SidecarApi.Sync.{stores_of}

module _ ⦃json : Json⦄ ⦃base64 : Base64⦄ ⦃libp2p : Libp2p json.Value⦄ ⦃http : Http json.Value⦄
    ⦃serde : Serde⦄ where
  open json use {Value, object, array, string}
  open http use {World, get, post}

  -- The host at the address is a sidecar, whose state `view` reads off the world: it answers the
  -- four requests of a sync by its handlers, and nothing else changes it in between.
  pub record Reaches (base : String) (view : World → SidecarState) : Type 0 where
    pub export_reply :
        (w : World)
        → (get w (concat base "v1/wire/batch/export")).0
          ≡ answered true (ok (wire_batch_export_json (view w)))
    pub export_view : (w : World) → view (get w (concat base "v1/wire/batch/export")).1 ≡ view w
    pub catalog_reply :
        (w : World)
        → (get w (concat base "v1/wire/catalog")).0
          ≡ answered true (ok (wire_catalog_json (view w)))
    pub catalog_view : (w : World) → view (get w (concat base "v1/wire/catalog")).1 ≡ view w
    pub pull_reply :
        (w : World) (ids : List String)
        → (post w
            (concat base "v1/wire/pull")
            (object (("note_ids", array (map string ids)) ∷ []))).0
          ≡ answered true (ok (wire_pull_json (view w) (record { peer_id = none; note_ids = ids })))
    pub pull_view :
        (w : World) (ids : List String)
        → view
            (post w
              (concat base "v1/wire/pull")
              (object (("note_ids", array (map string ids)) ∷ []))).1
          ≡ view w
    pub push_reply :
        (w : World) (batch : Value)
        → (post w (concat base "v1/wire/batch/import") batch).0
          ≡ answered true (ok (wire_batch_import_json (view w) batch).0)
    pub push_view :
        (w : World) (batch : Value)
        → view (post w (concat base "v1/wire/batch/import") batch).1
          ≡ (wire_batch_import_json (view w) batch).1

  notes-wire_pull_json :
      (s : SidecarState) (ids : List String)
      → list_field (wire_pull_json s (record { peer_id = none; note_ids = ids })) "notes"
        ≡ WireStore.pull s.wire ids
  unfolding wire_pull_json
  notes-wire_pull_json s ids = rw (json.get-object, json.as_array-array)

  abbrev pub IsOk : {A E : Type 0} → Option (Result A E) → Type 0
  IsOk (some (ok a)) = Unit
  IsOk (some (err e)) = ⊥
  IsOk none = ⊥

  absorbed : {A : Type 0} (a b : Option A) → or_else a (or_else a b) ≡ or_else a b
  absorbed none b = refl
  absorbed (some x) b = refl

  -- To import all notes of the remote sidecar once more changes nothing.
  again-HasBoth :
      (local remote t : Stores)
      → IsKeyed remote.wire
      → HasBoth local remote t
      → HasBoth local remote (record t {
        wire =
            (import_snapshots t.wire
              (WireStore.pull remote.wire (ids_of_heads (catalog_heads remote.wire)))).1;
      })
  again-HasBoth local remote t keyed h = record {
    notes = λ id.
        import-pull-catalog remote.wire t.wire id keyed
        ∙ ap (or_else (note remote.wire id)) (h.notes id)
        ∙ absorbed (note remote.wire id) (note local.wire id);
    blobs = h.blobs;
    well_formed = record {
      keyed = import_snapshots-IsKeyed t.wire _ h.well_formed.keyed;
      sound = h.well_formed.sound;
    };
  }

  module _ (base : String) (view : World → SidecarState) (reaches : Reaches base view)
      (local : Stores) where
    open reaches use {export_reply, export_view, catalog_reply, catalog_view, pull_reply, pull_view}

    pull_notes_lem :
        (w : World) (t : Stores) (ids : List String)
        → ids ≡ ids_of_heads (catalog_heads (view w).wire)
        → IsKeyed (view w).wire
        → HasBoth local (stores_of (view w)) t
        → HasBoth local (stores_of (view w)) (pull_notes base t ids w).stores
          × (view (pull_notes base t ids w).world ≡ view w)
          × IsOk (pull_notes base t ids w).result
    pull_notes_lem w t [] e keyed h = (h, refl, tt)
    pull_notes_lem w t (id ∷ ids) e keyed h =
        rw (pull_reply w (id ∷ ids), notes-wire_pull_json (view w) (id ∷ ids))
          (rw e (again-HasBoth local (stores_of (view w)) t keyed h), pull_view w (id ∷ ids), tt)

    fetch_catalog_lem :
        (w : World) (t : Stores)
        → IsKeyed (view w).wire
        → HasBoth local (stores_of (view w)) t
        → HasBoth local (stores_of (view w)) (fetch_catalog base t w).stores
          × (view (fetch_catalog base t w).world ≡ view w)
          × IsOk (fetch_catalog base t w).result
    unfolding wire_catalog_json
    fetch_catalog_lem w t keyed h =
        let same = catalog_view w in
        let w' = (get w (concat base "v1/wire/catalog")).1 in
        rw (catalog_reply w, serde.values-array (catalog_heads (view w).wire))
          (let (both, seen, fine) =
              pull_notes_lem w' t (ids_of_heads (catalog_heads (view w).wire))
                (ap (λ (s : SidecarState). ids_of_heads (catalog_heads s.wire)) (sym same))
                (subst (λ (s : SidecarState). IsKeyed s.wire) (sym same) keyed)
                (subst (λ s. HasBoth local (stores_of s) t) (sym same) h) in
            (
              subst
                  (λ s.
                    HasBoth local (stores_of s)
                      (pull_notes base t (ids_of_heads (catalog_heads (view w).wire)) w').stores)
                  same both,
              seen ∙ same,
              fine,
            ))

  -- The import from another sidecar: by its batch, or, where nothing of that was counted, by its
  -- catalog. Both give what `receive` specifies, the import is a success, and the other sidecar is
  -- as before.
  pub import_from_sidecar :
      (base : String) (view : World → SidecarState) (local : Stores) (w : World)
      → Reaches (normalize_wire_base base) view
      → IsWellFormed local
      → IsWellFormed (stores_of (view w))
      → HasBoth local (stores_of (view w)) (import_wire_from_http base local w).stores
        × (view (import_wire_from_http base local w).world ≡ view w)
        × IsOk (import_wire_from_http base local w).result
  unfolding import_wire_from_http wire_batch_export_json receive
  import_from_sidecar base view local w reaches l r =
      let base' = normalize_wire_base base in
      let remote = stores_of (view w) in
      let batch = export_batch remote.wire remote.attachments in
      let w' = (get w (concat base' "v1/wire/batch/export")).1 in
      let same : view w' ≡ view w = reaches.export_view w in
      let both = receive-HasBoth local remote l r in
      rw (reaches.export_reply w)
        (elim (Bool-cases (ltb 0 (import_batch batch local.wire local.attachments).count)) [
          | inl counted ↦ rw counted (both, same, tt)
          | inr nothing ↦
              let (both', seen, fine) =
                fetch_catalog_lem base' view reaches local w' (receive local remote)
                  (subst (λ (s : SidecarState). IsKeyed s.wire) (sym same) r.keyed)
                  (subst (λ s. HasBoth local (stores_of s) (receive local remote)) (sym same)
                    both) in
              rw nothing (
                subst
                    (λ s.
                      HasBoth local (stores_of s)
                        (fetch_catalog base' (receive local remote) w').stores)
                    same both',
                seen ∙ same,
                fine,
              )
        ])
