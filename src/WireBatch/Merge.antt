-- ===== src/WireBatch/Merge.antt =====
-- What a sidecar holds, without the order of its maps: the quotient of the stores by what they have
-- under each id and key, and the import of a batch as an operation on it.
pub mod Gather
use mathlib.Core.Quot
use mathlib.Core.Quot.{Quot, Quot-set}
use mesh_pad.Base.{
  ◌≡◌, ◌≢◌, refl, sym, ap, subst, ◌∙◌, String, Option, none, some, List, [], ◌∷◌, or_else, ◌>>=◌,
  or_else_assoc, or_else-none, ◌++◌, All,
}
use mesh_pad.External.Json.{Json}
use mesh_pad.External.Base64.{Byte, Base64}
use mesh_pad.HashMap
use mesh_pad.WireStore
use mesh_pad.WireStore.Upsert.{note, IsKeyed-empty}
use mesh_pad.AttachmentStore
use mesh_pad.AttachmentStore.Upsert.{blob, IsSound-empty}
use mesh_pad.WireBatch.Export.{nonempty}
use mesh_pad.WireBatch.Exchange.{
  Stores, IsWellFormed, NoEmptyBlob, receive, HasBoth, receive-HasBoth, all_sent, or_else-ne-empty,
  batch_sync,
}

module _ ⦃json : Json⦄ ⦃base64 : Base64⦄ where
  open json use {Value}

  -- Well-formed stores without empty attachments.
  pub record Held : Type 0 where
    pub stores : Stores
    pub well_formed : IsWellFormed stores
    pub no_empty : NoEmptyBlob stores

  -- The same note under each id and the same bytes under each key.
  abbrev pub Same : Held → Held → Type 0
  Same a b =
      ((id : String) → note a.stores.wire id ≡ note b.stores.wire id)
      × ((key : String) → blob a.stores.attachments key ≡ blob b.stores.attachments key)

  abbrev pub View : Type 0
  View = Quot Same

  pub received : (a b : Held) → HasBoth a.stores b.stores (receive a.stores b.stores)
  received a b = receive-HasBoth a.stores b.stores a.well_formed b.well_formed

  pub note-receive :
      (a b : Held) (id : String)
      → note (receive a.stores b.stores).wire id
        ≡ or_else (note b.stores.wire id) (note a.stores.wire id)
  note-receive a b = (received a b).notes

  pub blob-receive :
      (a b : Held) (key : String)
      → blob (receive a.stores b.stores).attachments key
        ≡ or_else (blob b.stores.attachments key) (blob a.stores.attachments key)
  blob-receive a b key =
      (received a b).blobs key
      ∙ ap (λ o. or_else o (blob a.stores.attachments key)) (all_sent _ (b.no_empty key))

  -- The import of the batch of `b` into `a`.
  abbrev pub merge_held : Held → Held → Held
  merge_held a b = record {
    stores = receive a.stores b.stores;
    well_formed = (received a b).well_formed;
    no_empty = λ key.
        subst (λ o. o ≢ some []) (sym (blob-receive a b key))
          (or_else-ne-empty (blob a.stores.attachments key) (blob b.stores.attachments key)
            (a.no_empty key) (b.no_empty key));
  }

  pub Same-merge_held :
      (a a' b b' : Held) → Same a a' → Same b b' → Same (merge_held a b) (merge_held a' b')
  Same-merge_held a a' b b' s t = (
    λ id. rw (note-receive a b id, note-receive a' b' id, s.0 id, t.0 id) refl,
    λ key. rw (blob-receive a b key, blob-receive a' b' key, s.1 key, t.1 key) refl,
  )

  pub Same-refl : (a : Held) → Same a a
  Same-refl a = (λ id. refl, λ key. refl)

  unfoldable pub merge_into : Held → View → View
  merge_into a =
      Quot.lift Quot-set (λ b. Quot.mk (merge_held a b))
        (λ b b' h. Quot.sound (Same-merge_held a a b b' (Same-refl a) h))

  pub merge_into-Same : (a a' : Held) → Same a a' → (w : View) → merge_into a w ≡ merge_into a' w
  unfolding merge_into
  merge_into-Same a a' h =
      Quot.ind (λ w. Quot-set _ _) (λ b. Quot.sound (Same-merge_held a a' b b h (Same-refl b)))

  -- The import of a batch, on views: the second view is the sender's.
  unfoldable pub merge : View → View → View
  unfolding merge_into
  merge v w = Quot.lift Quot-set (λ a. merge_into a w) (λ a a' h. merge_into-Same a a' h w) v

  or_else-again : {A : Type 0} (a b : Option A) → or_else a (or_else b a) ≡ or_else a b
  or_else-again none none = refl
  or_else-again none (some y) = refl
  or_else-again (some x) b = refl

  Same-assoc : (a b c : Held) → Same (merge_held (merge_held a b) c) (merge_held a (merge_held b c))
  Same-assoc a b c = (
    λ id.
        rw
          (
            note-receive (merge_held a b) c id,
            note-receive a b id,
            note-receive a (merge_held b c) id,
            note-receive b c id,
          )
          (sym (or_else_assoc (note c.stores.wire id) _ _)),
    λ key.
        rw
          (
            blob-receive (merge_held a b) c key,
            blob-receive a b key,
            blob-receive a (merge_held b c) key,
            blob-receive b c key,
          )
          (sym (or_else_assoc (blob c.stores.attachments key) _ _)),
  )

  Same-again : (a b : Held) → Same (merge_held (merge_held a b) a) (merge_held b a)
  Same-again a b = (
    λ id.
        rw (note-receive (merge_held a b) a id, note-receive a b id, note-receive b a id)
          (or_else-again (note a.stores.wire id) (note b.stores.wire id)),
    λ key.
        rw (blob-receive (merge_held a b) a key, blob-receive a b key, blob-receive b a key)
          (or_else-again (blob a.stores.attachments key) (blob b.stores.attachments key)),
  )

  -- The imports of views, one after the other, are associative.
  pub merge_assoc : (u v w : View) → merge (merge u v) w ≡ merge u (merge v w)
  unfolding merge merge_into
  merge_assoc u v w =
      Quot.ind (λ x. Quot-set (merge (merge x v) w) (merge x (merge v w))) (λ a. on_v a v) u
    where
      on_w :
          (a b : Held) (z : View)
          → merge (merge (Quot.mk a) (Quot.mk b)) z ≡ merge (Quot.mk a) (merge (Quot.mk b) z)
      on_w a b =
          Quot.ind
            (λ z.
              Quot-set (merge (merge (Quot.mk a) (Quot.mk b)) z)
                (merge (Quot.mk a) (merge (Quot.mk b) z)))
            (λ c. Quot.sound (Same-assoc a b c))

      on_v : (a : Held) (y : View) → merge (merge (Quot.mk a) y) w ≡ merge (Quot.mk a) (merge y w)
      on_v a =
          Quot.ind (λ y. Quot-set (merge (merge (Quot.mk a) y) w) (merge (Quot.mk a) (merge y w)))
            (λ b. on_w a b w)

  -- A view that was imported before another counts for nothing once it is imported again.
  pub merge_again : (u v : View) → merge (merge u v) u ≡ merge v u
  unfolding merge merge_into
  merge_again u v = Quot.ind (λ x. Quot-set (merge (merge x v) x) (merge v x)) (λ a. on_v a v) u
    where
      on_v : (a : Held) (y : View) → merge (merge (Quot.mk a) y) (Quot.mk a) ≡ merge y (Quot.mk a)
      on_v a =
          Quot.ind (λ y. Quot-set (merge (merge (Quot.mk a) y) (Quot.mk a)) (merge y (Quot.mk a)))
            (λ b. Quot.sound (Same-again a b))
