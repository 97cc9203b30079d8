-- ===== src/Examples/Interleavings.antt =====
-- A batch sync among other commands and events, at a concrete node.
use mesh_pad.Base.{ℕ, ◌≡◌, refl, List, [], ◌∷◌, ◌++◌, ok, All, subst, sym}
use mesh_pad.HashMap
use mesh_pad.WireProtocol.{WireRequest, WireResponse}
use mesh_pad.WireBatch.{export_batch}
use mesh_pad.AttachmentStore
use mesh_pad.P2p.{
  pull_from_meshpad_peer, synced, wire_request, wire_response, outbound_failure, mdns_expired,
}
use mesh_pad.P2p.Respond.{answer_request, handle_request}
use mesh_pad.P2p.Loop.{Input, command, event, run_swarm, handle_command, handle_swarm_event}
use mesh_pad.P2p.Conversation.{stores}
use mesh_pad.P2p.Frame.Waits.{Spares}
use mesh_pad.P2p.Interleaved.{
  first_id, second_id, asked, imported, given_back, took, interleaved-batch_sync,
}
use mesh_pad.Examples.Trees.{Tree, trees}
use mesh_pad.Examples.Latin.{latin}
use mesh_pad.Examples.Network.{network}
use mesh_pad.Examples.Batches.{snapshot, right_wire}
use mesh_pad.Examples.Swarms.{config, local, local-IsConsistent, connected}

-- Another peer pushes a note, and a caller asks for a pull.
abbrev between : List Input
between =
    event (wire_request 8 (WireRequest.push (snapshot "c" "x")) 0)
    ∷ command (pull_from_meshpad_peer "peer-b" 2)
    ∷ []

-- The pull fails, and the other peer pushes again.
abbrev later : List Input
later =
    event (outbound_failure 1 "timeout")
    ∷ event (wire_request 8 (WireRequest.push (snapshot "d" "y")) 1)
    ∷ event (mdns_expired [])
    ∷ []

abbrev theirs : Tree
theirs = export_batch right_wire AttachmentStore.empty_store

spared : All (Spares (first_id local 7)) between
spared = (refl, (tt, tt))

second_two : second_id (asked config local "peer-b" 1 between) 7 theirs ≡ 2
unfolding run_swarm handle_command handle_swarm_event HashMap.get answer_request handle_request
second_two = refl

spared_later : All (Spares (second_id (asked config local "peer-b" 1 between) 7 theirs)) later
spared_later = subst (λ (id : ℕ). All (Spares id) later) (sym second_two) (refl, (refl, (refl, tt)))

interleaved-batch_sync_example :
    let at_batch = asked config local "peer-b" 1 between in
    let got = imported at_batch theirs in
    let taken_in = took config at_batch (first_id local 7) theirs in
    let at_ack = run_swarm config taken_in later in
    let last =
      handle_swarm_event config at_ack
        (wire_response (second_id at_batch 7 theirs) (WireResponse.batch_ack 2)) in
    (stores taken_in ≡ record { wire = got.wire; attachments = got.attachments })
    × (taken_in.swarm ≡ (network.send_request at_batch.swarm 7 (given_back at_batch theirs)).1)
    × (taken_in.answers ≡ at_batch.answers)
    × (stores last ≡ stores at_ack)
    × (last.answers
        ≡ at_ack.answers ++ synced 1 (ok (record { imported = got.count; pushed = 2 })) ∷ [])
interleaved-batch_sync_example =
    interleaved-batch_sync config local 7 "peer-b" 1 between later theirs 2 local-IsConsistent
      connected spared spared_later
