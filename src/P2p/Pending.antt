-- ===== src/P2p/Pending.antt =====
-- The maps of pending requests: each holds an id once, and only ids that the swarm has given out, and
-- no id is in two of them. The id of a new request is in none.
pub mod Replies
pub mod Loop
pub mod Commands
use mesh_pad.Base.{
  ◌≡◌, ◌⊎◌, ◌==◌, HashKey, Option, none, some, Option-cases, Bool-cases, inl, inr, arith, subst,
}
use mesh_pad.External.Json.{Json}
use mesh_pad.External.Libp2p.{Libp2p}
use mesh_pad.HashMap
use mesh_pad.HashMap.{HashMap}
use mesh_pad.HashMap.Laws.{get-remove, get-insert}
use mesh_pad.HashMap.Distinct.{Distinct, insert-Distinct, remove-Distinct}
use mesh_pad.HashMap.Entries.{Every, Every-weaken, insert-Every, remove-Every, get-Every}
use mesh_pad.WireProtocol.{WireRequest}
use mesh_pad.P2p.{Node, PullCtx, PushCtx, BatchSyncCtx}
use mesh_pad.P2p.Replies.{id_key}

module _ ⦃json : Json⦄ ⦃libp2p : Libp2p json.Value⦄ where
  open json use {Value}
  open libp2p use {
    PeerId, RequestId, Swarm, Issued, send_request, send_request-fresh, send_request-issues,
    send_request-keeps,
  }

  module _ {V : Type 0} where
    abbrev pub IsIssued : Swarm → RequestId → V → Type 0
    IsIssued s id v = Issued s id

    pub record Tracked (s : Swarm) (m : HashMap RequestId V) : Type 0 where
      pub distinct : Distinct m
      pub issued : Every (IsIssued s) m

    pub Tracked-keeps :
        {s s' : Swarm} {m : HashMap RequestId V}
        → ((id : RequestId) → Issued s id → Issued s' id)
        → Tracked s m
        → Tracked s' m
    Tracked-keeps keeps t = record {
      distinct = t.distinct;
      issued = Every-weaken (λ id v. keeps id) t.issued;
    }

    pub Tracked-remove :
        {s : Swarm} (m : HashMap RequestId V) (id : RequestId)
        → Tracked s m
        → Tracked s (HashMap.remove m id)
    Tracked-remove m id t = record {
      distinct = remove-Distinct m id t.distinct;
      issued = remove-Every _ m id t.issued;
    }

    module _ (s : Swarm) (p : PeerId) (r : WireRequest Value) where
      pub Tracked-send_request :
          {m : HashMap RequestId V} → Tracked s m → Tracked (send_request s p r).1 m
      Tracked-send_request t = Tracked-keeps (send_request-keeps s p r) t

      pub Tracked-insert :
          (m : HashMap RequestId V) (v : V)
          → Tracked s m
          → Tracked (send_request s p r).1 (HashMap.insert m (send_request s p r).0 v)
      Tracked-insert m v t =
          let t' = Tracked-send_request t in
          record {
            distinct = insert-Distinct m _ v t.distinct;
            issued = insert-Every _ m _ v (send_request-issues s p r) t'.issued;
          }

      pub get-fresh :
          (m : HashMap RequestId V) → Tracked s m → HashMap.get m (send_request s p r).0 ≡ none
      get-fresh m t = elim (Option-cases (HashMap.get m (send_request s p r).0)) [
        | inl e ↦ e
        | inr (v, e) ↦ absurd (send_request-fresh s p r (get-Every _ m _ v t.issued e))
      ]

  -- No id is in both maps.
  abbrev pub Disjoint : {A B : Type 0} → HashMap RequestId A → HashMap RequestId B → Type 0
  Disjoint m n = (id : RequestId) → (HashMap.get m id ≡ none) ⊎ (HashMap.get n id ≡ none)

  module _ {A B : Type 0} (m : HashMap RequestId A) (n : HashMap RequestId B) where
    Disjoint-sym : Disjoint m n → Disjoint n m
    Disjoint-sym h id = elim (h id) [ inl e ↦ inr e | inr e ↦ inl e ]

    Disjoint-remove : (id : RequestId) → Disjoint m n → Disjoint (HashMap.remove m id) n
    Disjoint-remove id h j = elim (h j) [
      | inl e ↦ inl (ground (arith, get-remove m id j, e))
      | inr e ↦ inr e
    ]

    Disjoint-insert :
        (id : RequestId) (v : A)
        → HashMap.get n id ≡ none
        → Disjoint m n
        → Disjoint (HashMap.insert m id v) n
    Disjoint-insert id v free h j = elim (Bool-cases (id == j)) [
      | inl same ↦ inr (subst (λ i. HashMap.get n i ≡ none) ((id_key.same_iff id j).0 same) free)
      | inr other ↦ elim (h j) [ inl e ↦ inl (rw (get-insert m id j v, other) e) | inr e ↦ inr e ]
    ]

  -- No id is in two of the maps.
  pub record Apart (p : HashMap RequestId PullCtx) (q : HashMap RequestId PushCtx)
      (b : HashMap RequestId BatchSyncCtx) : Type 0 where
    pub pulls_pushes : Disjoint p q
    pub pulls_batch_syncs : Disjoint p b
    pub pushes_batch_syncs : Disjoint q b

  pub record IsConsistent (node : Node) : Type 0 where
    pub pulls : Tracked node.swarm node.pulls
    pub pushes : Tracked node.swarm node.pushes
    pub batch_syncs : Tracked node.swarm node.batch_syncs
    pub apart : Apart node.pulls node.pushes node.batch_syncs

  module _ {p : HashMap RequestId PullCtx} {q : HashMap RequestId PushCtx}
      {b : HashMap RequestId BatchSyncCtx} (a : Apart p q b) where
    module _ (id : RequestId) where
      pub Apart-remove_pull : Apart (HashMap.remove p id) q b
      Apart-remove_pull = record {
        pulls_pushes = Disjoint-remove p q id a.pulls_pushes;
        pulls_batch_syncs = Disjoint-remove p b id a.pulls_batch_syncs;
        pushes_batch_syncs = a.pushes_batch_syncs;
      }

      pub Apart-remove_push : Apart p (HashMap.remove q id) b
      Apart-remove_push = record {
        pulls_pushes = Disjoint-sym _ p (Disjoint-remove q p id (Disjoint-sym p q a.pulls_pushes));
        pulls_batch_syncs = a.pulls_batch_syncs;
        pushes_batch_syncs = Disjoint-remove q b id a.pushes_batch_syncs;
      }

      pub Apart-remove_batch_sync : Apart p q (HashMap.remove b id)
      Apart-remove_batch_sync = record {
        pulls_pushes = a.pulls_pushes;
        pulls_batch_syncs =
            Disjoint-sym _ p (Disjoint-remove b p id (Disjoint-sym p b a.pulls_batch_syncs));
        pushes_batch_syncs =
            Disjoint-sym _ q (Disjoint-remove b q id (Disjoint-sym q b a.pushes_batch_syncs));
      }

    -- A new request, in one of the maps.
    module _ (s : Swarm) (peer : PeerId) (r : WireRequest Value) where
      abbrev new_id : RequestId
      new_id = (send_request s peer r).0

      pub Apart-insert_pull :
          (v : PullCtx) → Tracked s q → Tracked s b → Apart (HashMap.insert p new_id v) q b
      Apart-insert_pull v tq tb = record {
        pulls_pushes = Disjoint-insert p q new_id v (get-fresh s peer r q tq) a.pulls_pushes;
        pulls_batch_syncs =
            Disjoint-insert p b new_id v (get-fresh s peer r b tb) a.pulls_batch_syncs;
        pushes_batch_syncs = a.pushes_batch_syncs;
      }

      pub Apart-insert_push :
          (v : PushCtx) → Tracked s p → Tracked s b → Apart p (HashMap.insert q new_id v) b
      Apart-insert_push v tp tb = record {
        pulls_pushes = Disjoint-sym _ p (
            Disjoint-insert q p new_id v (get-fresh s peer r p tp)
              (Disjoint-sym p q a.pulls_pushes));
        pulls_batch_syncs = a.pulls_batch_syncs;
        pushes_batch_syncs =
            Disjoint-insert q b new_id v (get-fresh s peer r b tb) a.pushes_batch_syncs;
      }

      pub Apart-insert_batch_sync :
          (v : BatchSyncCtx) → Tracked s p → Tracked s q → Apart p q (HashMap.insert b new_id v)
      Apart-insert_batch_sync v tp tq = record {
        pulls_pushes = a.pulls_pushes;
        pulls_batch_syncs = Disjoint-sym _ p (
            Disjoint-insert b p new_id v (get-fresh s peer r p tp)
              (Disjoint-sym p b a.pulls_batch_syncs));
        pushes_batch_syncs = Disjoint-sym _ q (
            Disjoint-insert b q new_id v (get-fresh s peer r q tq)
              (Disjoint-sym q b a.pushes_batch_syncs));
      }
