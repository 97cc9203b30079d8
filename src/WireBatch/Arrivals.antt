-- ===== src/WireBatch/Arrivals.antt =====
-- What reaches the two stores of a sidecar: snapshots, batches and attachments, in their order.
use mesh_pad.Base.{
  ◌≡◌, ◌≢◌, refl, sym, subst, String, Option, none, some, List, [], ◌∷◌, ◌++◌, or_else, Bool-cases,
  inl, inr, ◌⊎◌, nat_beq, nat_beq_iff,
}
use mesh_pad.External.Json.{Json}
use mesh_pad.External.Base64.{Byte, Base64}
use mesh_pad.WireStore.{upsert, import_snapshots}
use mesh_pad.WireStore.Upsert.{note, IsKeyed, upsert-IsKeyed, note-upsert}
use mesh_pad.WireStore.Import.{import_snapshots-IsKeyed, note-import_loop}
use mesh_pad.AttachmentStore
use mesh_pad.AttachmentStore.Upsert.{blob, blob-upsert}
use mesh_pad.WireBatch.{import_batch, version}
use mesh_pad.WireBatch.Import.{
  import_batch-IsKeyed, import_batch_refused, note-import_batch, blob-import_batch,
}
use mesh_pad.WireBatch.Exchange.{Stores}

module _ ⦃json : Json⦄ ⦃base64 : Base64⦄ where
  open json use {Value}

  pub data Arrival : Type 0 where
    snapshot : Value → Arrival
    snapshots : List Value → Arrival
    batch : Value → Arrival
    attachment : String → String → List Byte → Arrival

  -- The stores after an arrival.
  unfoldable pub arrive : Stores → Arrival → Stores
  arrive s (snapshot v) = record s { wire = (upsert s.wire v).1 }
  arrive s (snapshots vs) = record s { wire = (import_snapshots s.wire vs).1 }
  arrive s (batch b) =
      let r = import_batch b s.wire s.attachments in
      record { wire = r.wire; attachments = r.attachments }
  arrive s (attachment note_id name bytes) = record s {
    attachments = (AttachmentStore.upsert s.attachments note_id name bytes).1;
  }

  unfoldable pub replay : Stores → List Arrival → Stores
  unfolding arrive
  replay s [] = s
  replay s (a ∷ log) = replay (arrive s a) log

  pub replay-append :
      (s : Stores) (log more : List Arrival) → replay s (log ++ more) ≡ replay (replay s log) more
  unfolding replay
  replay-append s [] more = refl
  replay-append s (a ∷ log) more = replay-append (arrive s a) log more

  module _ (Q : Stores → Type 0) (closed : (s : Stores) (a : Arrival) → Q s → Q (arrive s a)) where
    pub replay-closed : (s : Stores) (log : List Arrival) → Q s → Q (replay s log)
    unfolding replay
    replay-closed s [] q = q
    replay-closed s (a ∷ log) q = replay-closed (arrive s a) log (closed s a q)

  -- A batch of another version changes nothing.
  batch-cases : (s : Stores) (b : Value) → (version b ≡ 1) ⊎ (arrive s (batch b) ≡ s)
  unfolding arrive
  batch-cases s b = elim (Bool-cases (nat_beq (version b) 1)) [
    | inl one ↦ inl ((nat_beq_iff (version b) 1).0 one)
    | inr refused ↦ inr (
        rw
          (import_batch_refused b s.wire s.attachments
            (λ e. cc ((nat_beq_iff (version b) 1).1 e, refused)))
          refl)
  ]

  -- Every note stays under its own id.
  pub arrive-IsKeyed : (s : Stores) (a : Arrival) → IsKeyed s.wire → IsKeyed (arrive s a).wire
  unfolding arrive import_snapshots
  arrive-IsKeyed s (snapshot v) k = upsert-IsKeyed s.wire v k
  arrive-IsKeyed s (snapshots vs) k = import_snapshots-IsKeyed s.wire vs k
  arrive-IsKeyed s (batch b) k = elim (batch-cases s b) [
    | inl one ↦ import_batch-IsKeyed b s.wire s.attachments one k
    | inr same ↦ subst (λ t. IsKeyed t.wire) (sym same) k
  ]
  arrive-IsKeyed s (attachment note_id name bytes) k = k

  or_else-there : {A : Type 0} (a b : Option A) → b ≢ none → or_else a b ≢ none
  or_else-there none b h = h
  or_else-there (some x) b h = λ e. cc

  -- A note that is there is there after any arrival.
  pub arrive-keeps_note :
      (id : String) (s : Stores) (a : Arrival)
      → note s.wire id ≢ none
      → note (arrive s a).wire id ≢ none
  unfolding arrive import_snapshots
  arrive-keeps_note id s (snapshot v) h = rw (note-upsert s.wire v id) (or_else-there _ _ h)
  arrive-keeps_note id s (snapshots vs) h =
      rw (note-import_loop vs 0 s.wire id) (or_else-there _ _ h)
  arrive-keeps_note id s (batch b) h = elim (batch-cases s b) [
    | inl one ↦ rw (note-import_batch b s.wire s.attachments one id) (or_else-there _ _ h)
    | inr same ↦ subst (λ t. note t.wire id ≢ none) (sym same) h
  ]
  arrive-keeps_note id s (attachment note_id name bytes) h = h

  -- An attachment that is there is there after any arrival.
  pub arrive-keeps_blob :
      (key : String) (s : Stores) (a : Arrival)
      → blob s.attachments key ≢ none
      → blob (arrive s a).attachments key ≢ none
  unfolding arrive
  arrive-keeps_blob key s (snapshot v) h = h
  arrive-keeps_blob key s (snapshots vs) h = h
  arrive-keeps_blob key s (batch b) h = elim (batch-cases s b) [
    | inl one ↦ rw (blob-import_batch b s.wire s.attachments one key) (or_else-there _ _ h)
    | inr same ↦ subst (λ t. blob t.attachments key ≢ none) (sym same) h
  ]
  arrive-keeps_blob key s (attachment note_id name bytes) h =
      rw (blob-upsert s.attachments note_id name bytes key) (or_else-there _ _ h)
