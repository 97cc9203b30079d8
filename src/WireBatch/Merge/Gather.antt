-- ===== src/WireBatch/Merge/Gather.antt =====
-- A sidecar that imports the batches of several others, one after the other.
use mathlib.Core.Quot
use mathlib.Core.Quot.{Quot, Quot-set}
use mesh_pad.Base.{
  ◌≡◌, ◌≢◌, refl, sym, ap, ◌∙◌, String, some, List, [], ◌∷◌, or_else-none, ◌++◌, All,
}
use mesh_pad.External.Json.{Json}
use mesh_pad.External.Base64.{Base64}
use mesh_pad.HashMap
use mesh_pad.WireStore
use mesh_pad.WireStore.Upsert.{IsKeyed-empty}
use mesh_pad.AttachmentStore
use mesh_pad.AttachmentStore.Upsert.{blob, IsSound-empty}
use mesh_pad.WireBatch.Merge.{
  Held, View, merge, merge_into, merge_assoc, merge_again, note-receive, blob-receive,
}

module _ ⦃json : Json⦄ ⦃base64 : Base64⦄ where
  -- A sidecar that imports the batches of several, one after the other.
  unfoldable pub gather : View → List View → View
  gather v [] = v
  gather v (w ∷ ws) = gather (merge v w) ws

  pub no_empty_attachment : (key : String) → blob AttachmentStore.empty_store key ≢ some []
  unfolding HashMap.get
  no_empty_attachment key = cc

  -- What a sidecar holds before anything arrives.
  abbrev pub nothing_held : Held
  nothing_held = record {
    stores = record { wire = WireStore.empty_store; attachments = AttachmentStore.empty_store };
    well_formed = record { keyed = IsKeyed-empty; sound = IsSound-empty };
    no_empty = no_empty_attachment;
  }

  abbrev pub nothing : View
  nothing = Quot.mk nothing_held

  merge-nothing : (v : View) → merge v nothing ≡ v
  unfolding merge merge_into HashMap.get
  merge-nothing =
      Quot.ind (λ x. Quot-set (merge x nothing) x)
        (λ a.
          Quot.sound
            ((λ id. note-receive a nothing_held id, λ key. blob-receive a nothing_held key)))

  nothing-merge : (v : View) → merge nothing v ≡ v
  unfolding merge merge_into HashMap.get
  nothing-merge =
      Quot.ind (λ x. Quot-set (merge nothing x) x)
        (λ a. Quot.sound (
          λ id. note-receive nothing_held a id ∙ or_else-none _,
          λ key. blob-receive nothing_held a key ∙ or_else-none _,
        ))

  -- What several senders have, together.
  gathered : List View → View
  gathered ws = gather nothing ws

  gather_lem : (v : View) (ws : List View) → gather v ws ≡ merge v (gathered ws)
  unfolding gather gathered
  gather_lem v [] = sym (merge-nothing v)
  gather_lem v (w ∷ ws) =
      gather_lem (merge v w) ws
      ∙ merge_assoc v w (gathered ws)
      ∙ ap (merge v) (
          sym (gather_lem (merge nothing w) ws ∙ ap (λ x. merge x (gathered ws)) (nothing-merge w)))

  gathered-cons : (w : View) (ws : List View) → gathered (w ∷ ws) ≡ merge w (gathered ws)
  unfolding gather gathered
  gathered-cons w ws =
      gather_lem (merge nothing w) ws ∙ ap (λ x. merge x (gathered ws)) (nothing-merge w)

  gathered-append : (xs ys : List View) → gathered (xs ++ ys) ≡ merge (gathered xs) (gathered ys)
  unfolding gather gathered
  gathered-append [] ys = sym (nothing-merge (gathered ys))
  gathered-append (x ∷ xs) ys =
      gathered-cons x (xs ++ ys)
      ∙ ap (merge x) (gathered-append xs ys)
      ∙ sym (merge_assoc x (gathered xs) (gathered ys))
      ∙ ap (λ u. merge u (gathered ys)) (sym (gathered-cons x xs))

  abbrev pub Occurs : View → List View → Type 0
  Occurs w ws = (before : List View) × (after : List View) × (ws ≡ before ++ w ∷ after)

  -- A view that comes again later counts for nothing where it comes first.
  gathered-before :
      (w : View) (before after : List View)
      → merge w (gathered (before ++ w ∷ after)) ≡ gathered (before ++ w ∷ after)
  gathered-before w before after =
      let b = gathered before in
      let a = gathered after in
      let split : gathered (before ++ w ∷ after) ≡ merge (merge b w) a =
        gathered-append before (w ∷ after)
        ∙ ap (merge b) (gathered-cons w after)
        ∙ sym (merge_assoc b w a) in
      ap (merge w) split
      ∙ sym (merge_assoc w (merge b w) a)
      ∙ ap (λ u. merge u a) (sym (merge_assoc w b w) ∙ merge_again w b)
      ∙ sym split

  -- For sidecars that are well formed (each note under its own id, each attachment under the key of a
  -- note id without NUL, each key once) and have no empty attachment: a receiver that imports the
  -- batches of some senders, and then those of others, among whom the first are again with the same
  -- notes and attachments, has after it, by id and by key, what it has when it imports those of the
  -- others only: the last import of each sender is all that counts.
  pub gather_latest :
      (v : View) (first later : List View)
      → All (λ w. Occurs w later) first
      → gather v (first ++ later) ≡ gather v later
  unfolding gather
  gather_latest v [] later h = refl
  gather_latest v (w ∷ first) later ((before, after, e), rest) =
      let counts : merge w (gathered later) ≡ gathered later =
        ap (λ ws. merge w (gathered ws)) e ∙ gathered-before w before after ∙ sym (ap gathered e) in
      gather_latest (merge v w) first later rest
      ∙ gather_lem (merge v w) later
      ∙ merge_assoc v w (gathered later)
      ∙ ap (merge v) counts
      ∙ sym (gather_lem v later)
