-- ===== src/P2p/Drain.antt =====
-- handle_swarm_event at the failures of all that is pending.
use mesh_pad.Base.{
  ◌≡◌, ◌==◌, ◌||◌, refl, sym, subst, ◌∙◌, Bool, true, false, Option, none, some, List, [], ◌∷◌,
  is_some, Bool-cases, inl, inr, arith, if◌then◌else◌, same_self, String,
}
use mesh_pad.External.Json.{Json}
use mesh_pad.External.Base64.{Base64}
use mesh_pad.External.Libp2p.{Libp2p}
use mesh_pad.HashMap
use mesh_pad.HashMap.{HashMap}
use mesh_pad.HashMap.Laws.{get-remove}
use mesh_pad.HashMap.Tally.{tally-nothing}
use mesh_pad.WireStore.{WireStore}
use mesh_pad.AttachmentStore.{WireAttachmentStore}
use mesh_pad.P2p.{Sender, P2pConfig, PullCtx, PushCtx, BatchSyncCtx, outbound_failure, Node}
use mesh_pad.P2p.Replies.{id_key}
use mesh_pad.P2p.Loop.{
  Input, event, run_swarm, handle_failure, failed, start_node, handle_swarm_event,
}
use mesh_pad.P2p.Pending.{IsConsistent, Disjoint}
use mesh_pad.P2p.Pending.Loop.{handle_swarm_event-IsConsistent}
use mesh_pad.P2p.Ledger.{pending, answered, account}
use mesh_pad.P2p.Ledger.Run.{
  start_node-IsConsistent, run_swarm-IsConsistent, run_swarm-account, asked, run_swarm_once,
}

module _ ⦃json : Json⦄ ⦃base64 : Base64⦄ ⦃libp2p : Libp2p json.Value⦄ where
  open libp2p use {RequestId, Swarm}

  -- A request that is in one of the three maps.
  abbrev pub waits : Node → RequestId → Bool
  waits node id =
      is_some (HashMap.get node.pulls id)
      || is_some (HashMap.get node.pushes id)
      || is_some (HashMap.get node.batch_syncs id)

  abbrev pub reported : RequestId → List (RequestId × String) → Bool
  reported id [] = false
  reported id ((j, error) ∷ rest) = (j == id) || reported id rest

  -- the failures, as the loop is handed them
  abbrev pub failures : List (RequestId × String) → List Input
  failures [] = []
  failures ((id, error) ∷ rest) = event (outbound_failure id error) ∷ failures rest

  other_none :
      {A B : Type 0} (m : HashMap RequestId A) (n : HashMap RequestId B) (id : RequestId) (v : A)
      → HashMap.get m id ≡ some v
      → Disjoint m n
      → HashMap.get n id ≡ none
  other_none m n id v e apart = elim (apart id) [ inl e' ↦ cc | inr e' ↦ e' ]

  module _ (node : Node) (c : IsConsistent node) (id : RequestId) (error : String) where
    waits-failed_self :
        (p : Option PullCtx) (q : Option PushCtx) (b : Option BatchSyncCtx)
        → HashMap.get node.pulls id ≡ p
        → HashMap.get node.pushes id ≡ q
        → HashMap.get node.batch_syncs id ≡ b
        → waits (failed node id error p q b) id ≡ false
    waits-failed_self (some ctx) q b ep eq eb = rw (
      get-remove,
      same_self id,
      other_none _ _ id ctx ep c.apart.pulls_pushes,
      other_none _ _ id ctx ep c.apart.pulls_batch_syncs,
    )
    waits-failed_self none (some ctx) b ep eq eb =
        rw (get-remove, same_self id, ep, other_none _ _ id ctx eq c.apart.pushes_batch_syncs)
    waits-failed_self none none (some ctx) ep eq eb = rw (get-remove, same_self id, ep, eq)
    waits-failed_self none none none ep eq eb = rw (ep, eq, eb)

    waits-failed_ne :
        (j : RequestId) (p : Option PullCtx) (q : Option PushCtx) (b : Option BatchSyncCtx)
        → (id == j) ≡ false
        → waits (failed node id error p q b) j ≡ waits node j
    waits-failed_ne j (some ctx) q b h = rw (get-remove, h)
    waits-failed_ne j none (some ctx) b h = rw (get-remove, h)
    waits-failed_ne j none none (some ctx) h = rw (get-remove, h)
    waits-failed_ne j none none none h = refl

    waits-handle_failure :
        (j : RequestId)
        → waits (handle_failure node id error) j ≡ (if id == j then false else waits node j)
    unfolding handle_failure
    waits-handle_failure j =
        let p = HashMap.get node.pulls id in
        let q = HashMap.get node.pushes id in
        let b = HashMap.get node.batch_syncs id in
        elim (Bool-cases (id == j)) [
          | inl same ↦ rw same (
              subst (λ i. waits (failed node id error p q b) i ≡ false)
                ((id_key.same_iff id j).0 same) (waits-failed_self p q b refl refl refl))
          | inr other ↦ rw other (waits-failed_ne j p q b other)
        ]

  nothing_waits :
      (config : P2pConfig) (list : List (RequestId × String)) (node : Node)
      → IsConsistent node
      → ((id : RequestId) → waits node id ≡ true → reported id list ≡ true)
      → (id : RequestId) → waits (run_swarm config node (failures list)) id ≡ false
  unfolding run_swarm handle_swarm_event
  nothing_waits config [] node c all id = elim (Bool-cases (waits node id)) [
    | inl waiting ↦ cc (all id waiting)
    | inr idle ↦ idle
  ]
  nothing_waits config ((j, error) ∷ rest) node c all id =
      nothing_waits config rest (handle_failure node j error)
        (handle_swarm_event-IsConsistent node c config (outbound_failure j error))
        (λ i h.
          let after : (if j == i then false else waits node i) ≡ true =
            sym (waits-handle_failure node c j error i) ∙ h in
          elim (Bool-cases (j == i)) [
            | inl same ↦ ground (arith, after, same)
            | inr other ↦ ground (arith, after, other, all i)
          ])
        id

  asked-failures :
      (caller : Sender) (list : List (RequestId × String)) → asked caller (failures list) ≡ 0
  unfolding asked
  asked-failures caller [] = refl
  asked-failures caller ((id, error) ∷ rest) = asked-failures caller rest

  pending-nothing :
      (caller : Sender) (node : Node)
      → ((id : RequestId) → waits node id ≡ false)
      → pending caller node ≡ 0
  unfolding pending
  pending-nothing caller node h = omega (
    arith,
    tally-nothing _ node.pulls (λ id. ground (arith, h id)),
    tally-nothing _ node.pushes (λ id. ground (arith, h id)),
    tally-nothing _ node.batch_syncs (λ id. ground (arith, h id)),
  )

  -- After any run of the loop from its start, when each request that is then in one of the three maps
  -- of pending requests is reported as failed, in any order and among any others, nothing is pending
  -- any more, and every caller has got as many answers as the commands by which it asked before the
  -- loop stopped.
  pub answered-failures :
      (config : P2pConfig) (swarm : Swarm) (wire : WireStore json.Value)
      (attachments : WireAttachmentStore) (inputs : List Input) (list : List (RequestId × String))
      (caller : Sender)
      → ((id : RequestId)
          → waits (run_swarm config (start_node swarm wire attachments) inputs) id ≡ true
          → reported id list ≡ true)
      → let node = run_swarm config (start_node swarm wire attachments) inputs in
        let last = run_swarm config node (failures list) in
        (pending caller last ≡ 0) × (answered caller last.answers ≡ asked caller inputs)
  unfolding account
  answered-failures config swarm wire attachments inputs list caller all =
      let start = start_node swarm wire attachments in
      let node = run_swarm config start inputs in
      let c : IsConsistent node =
        run_swarm-IsConsistent config inputs start
          (start_node-IsConsistent swarm wire attachments) in
      let none_left : pending caller (run_swarm config node (failures list)) ≡ 0 =
        pending-nothing caller (run_swarm config node (failures list))
          (nothing_waits config list node c all) in
      (
        none_left,
        omega (
          arith,
          none_left,
          run_swarm_once config swarm wire attachments inputs caller,
          run_swarm-account config caller (failures list) node c,
          asked-failures caller list,
        ),
      )
