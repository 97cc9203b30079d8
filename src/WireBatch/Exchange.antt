-- ===== src/WireBatch/Exchange.antt =====
-- A batch from one sidecar to another, and the batch sync of two sidecars.
use mesh_pad.Base.{
  ◌≡◌, refl, subst, sym, ap, ◌∙◌, String, Option, none, some, List, [], ◌∷◌, or_else, arith, ◌>>=◌,
  ◌≢◌,
}
use mesh_pad.External.Json.{Json}
use mesh_pad.External.Base64.{Byte, Base64}
use mesh_pad.WireStore.{WireStore}
use mesh_pad.WireStore.Upsert.{note, IsKeyed}
use mesh_pad.WireStore.Catalog.{last_with-all_snapshots}
use mesh_pad.WireStore.Import.{last_with}
use mesh_pad.AttachmentStore.{WireAttachmentStore}
use mesh_pad.AttachmentStore.Upsert.{blob, IsSound}
use mesh_pad.WireBatch.{import_batch, export_batch}
use mesh_pad.WireBatch.Import.{
  notes_of, note-import_batch, blob-import_batch, import_batch-IsKeyed, import_batch-IsSound,
}
use mesh_pad.WireBatch.Export.{
  nonempty, version-export_batch, notes_of-export_batch, last_blob-export_batch,
  IsPlainEntry-export_batch,
}

module _ ⦃json : Json⦄ ⦃base64 : Base64⦄ where
  open json use {Value}

  -- What a sidecar holds.
  pub record Stores : Type 0 where
    pub wire : WireStore Value
    pub attachments : WireAttachmentStore

  pub record IsWellFormed (s : Stores) : Type 0 where
    pub keyed : IsKeyed s.wire
    pub sound : IsSound s.attachments

  -- One sidecar imports the batch that another exports.
  unfoldable pub receive : Stores → Stores → Stores
  receive to from =
      let r = import_batch (export_batch from.wire from.attachments) to.wire to.attachments in
      record { wire = r.wire; attachments = r.attachments }

  -- When a well-formed sidecar imports the batch that a well-formed one exports, it has the
  -- sender's note of each id that the sender has, and the sender's bytes of each key where the
  -- sender has some; it keeps all else, and stays well-formed.
  pub receive_lem :
      (to from : Stores)
      → IsWellFormed to
      → IsWellFormed from
      → ((id : String)
          → note (receive to from).wire id ≡ or_else (note from.wire id) (note to.wire id))
        × ((key : String)
            → blob (receive to from).attachments key
              ≡ or_else (blob from.attachments key >>= nonempty) (blob to.attachments key))
        × IsWellFormed (receive to from)
  unfolding receive
  receive_lem to from t f =
      let batch = export_batch from.wire from.attachments in
      let v1 = version-export_batch from.wire from.attachments in
      (
        λ id.
            note-import_batch batch to.wire to.attachments v1 id
            ∙ ap (λ o. or_else o (note to.wire id)) (sent_note id),
        λ key.
            blob-import_batch batch to.wire to.attachments v1 key
            ∙ ap (λ o. or_else o (blob to.attachments key))
                (last_blob-export_batch from.wire from.attachments key f.sound),
        record {
          keyed = import_batch-IsKeyed batch to.wire to.attachments v1 t.keyed;
          sound =
              import_batch-IsSound batch to.wire to.attachments v1
                (IsPlainEntry-export_batch from.wire from.attachments f.sound) t.sound;
        },
      )
    where
      sent_note :
          (id : String)
          → last_with id (notes_of (export_batch from.wire from.attachments)) ≡ note from.wire id
      sent_note id =
          rw (notes_of-export_batch from.wire from.attachments)
            (last_with-all_snapshots from.wire id f.keyed)

  -- When a well-formed sidecar imports the batch of a well-formed one a second time, no note and
  -- no attachment changes.
  pub receive_idem :
      (to from : Stores)
      → IsWellFormed to
      → IsWellFormed from
      → ((id : String)
          → note (receive (receive to from) from).wire id ≡ note (receive to from).wire id)
        × ((key : String)
            → blob (receive (receive to from) from).attachments key
              ≡ blob (receive to from).attachments key)
  receive_idem to from t f =
      let (notes, blobs, well) = receive_lem to from t f in
      let (notes', blobs', _) = receive_lem (receive to from) from well f in
      (λ id. ground (arith, notes id, notes' id), λ key. ground (arith, blobs key, blobs' key))

  -- No attachment is stored without bytes.
  abbrev pub NoEmptyBlob : Stores → Type 0
  NoEmptyBlob s = (key : String) → blob s.attachments key ≢ some []

  -- The batch sync of two sidecars: the initiator imports the peer's batch, exports its own, and the
  -- peer imports that.
  unfoldable pub batch_sync : Stores → Stores → Stores × Stores
  batch_sync local remote = let local' = receive local remote in (local', receive remote local')

  pub all_sent : (o : Option (List Byte)) → o ≢ some [] → (o >>= nonempty) ≡ o
  all_sent none h = refl
  all_sent (some []) h = absurd (h refl)
  all_sent (some (x ∷ xs)) h = refl

  pub or_else-ne-empty :
      (a b : Option (List Byte)) → a ≢ some [] → b ≢ some [] → or_else b a ≢ some []
  or_else-ne-empty a none ha hb = ha
  or_else-ne-empty a (some y) ha hb = hb

  same_note : {A : Type 0} (a b : Option A) → or_else b a ≡ or_else (or_else b a) b
  same_note none none = refl
  same_note none (some y) = refl
  same_note (some x) none = refl
  same_note (some x) (some y) = refl

  -- The stores that a local sidecar has after it got all that a remote one has: the remote note of
  -- each id that has one, the remote bytes of each key that has some, and else its own.
  pub record HasBoth (local remote t : Stores) : Type 0 where
    pub notes : (id : String) → note t.wire id ≡ or_else (note remote.wire id) (note local.wire id)
    pub blobs :
        (key : String)
        → blob t.attachments key
          ≡ or_else (blob remote.attachments key >>= nonempty) (blob local.attachments key)
    pub well_formed : IsWellFormed t

  pub receive-HasBoth :
      (local remote : Stores)
      → IsWellFormed local
      → IsWellFormed remote
      → HasBoth local remote (receive local remote)
  receive-HasBoth local remote l r =
      let (notes, blobs, well) = receive_lem local remote l r in
      record { notes = notes; blobs = blobs; well_formed = well }

  -- Two sidecars that had `local` and `remote` agree: they have the same note under every id and the
  -- same bytes under every key, those of `remote` where it had some, and else those of `local`.
  abbrev pub Agree : Stores → Stores → Stores → Stores → Type 0
  Agree local remote local' remote' =
      ((id : String)
        → (note local'.wire id ≡ or_else (note remote.wire id) (note local.wire id))
          × (note remote'.wire id ≡ note local'.wire id))
      × ((key : String)
          → (blob local'.attachments key
              ≡ or_else (blob remote.attachments key) (blob local.attachments key))
            × (blob remote'.attachments key ≡ blob local'.attachments key))

  -- Two well-formed sidecars without empty attachments agree after the one that has both pushed.
  pub agree :
      (local remote t : Stores)
      → IsWellFormed remote
      → NoEmptyBlob local
      → NoEmptyBlob remote
      → HasBoth local remote t
      → Agree local remote t (receive remote t)
  agree local remote t r no_l no_r h =
      let (notes', blobs', _) = receive_lem remote t r h.well_formed in
      let same_blob : (key : String)
          → blob t.attachments key
            ≡ or_else (blob remote.attachments key) (blob local.attachments key) =
        λ key. rw (all_sent _ (no_r key)) at (h.blobs key) in
      (
        λ id. (
          h.notes id,
          cc (h.notes id, notes' id, same_note (note local.wire id) (note remote.wire id)),
        ),
        λ key. (
          same_blob key,
          ground (
            arith,
            same_blob key,
            blobs' key,
            all_sent (blob t.attachments key) (
                subst (λ o. o ≢ some []) (sym (same_blob key))
                  (or_else-ne-empty (blob local.attachments key) (blob remote.attachments key)
                    (no_l key) (no_r key))),
            same_note (blob local.attachments key) (blob remote.attachments key),
          ),
        ),
      )

  -- After a batch sync of well-formed sidecars without empty attachments, the two have the same note
  -- under every id and the same blob under every key: the peer's where it had one, and else the
  -- initiator's.
  pub batch_sync_converges :
      (local remote : Stores)
      → IsWellFormed local
      → IsWellFormed remote
      → NoEmptyBlob local
      → NoEmptyBlob remote
      → let (local', remote') = batch_sync local remote in
        ((id : String)
          → (note local'.wire id ≡ or_else (note remote.wire id) (note local.wire id))
            × (note remote'.wire id ≡ note local'.wire id))
        × ((key : String)
            → (blob local'.attachments key
                ≡ or_else (blob remote.attachments key) (blob local.attachments key))
              × (blob remote'.attachments key ≡ blob local'.attachments key))
  unfolding batch_sync
  batch_sync_converges local remote l r no_l no_r =
      agree local remote (receive local remote) r no_l no_r (receive-HasBoth local remote l r)

  -- Where a well-formed sidecar has an attachment without bytes, a well-formed one that imports
  -- its batch has under that key what it had before: the empty attachment is lost.
  pub empty_blob_lost :
      (to from : Stores) (key : String)
      → IsWellFormed to
      → IsWellFormed from
      → blob from.attachments key ≡ some []
      → blob (receive to from).attachments key ≡ blob to.attachments key
  empty_blob_lost to from key t f e =
      let (_, blobs, _) = receive_lem to from t f in ground (arith, blobs key)
