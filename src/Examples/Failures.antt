-- ===== src/Examples/Failures.antt =====
-- The failures of all that is pending, at a concrete run.
use mesh_pad.Base.{false, ℕ, ◌≡◌, refl, String, true, [], ◌∷◌, List, arith, sym, ◌∙◌}
use mesh_pad.HashMap
use mesh_pad.P2p.{
  BatchSyncCtx, awaiting_remote_batch, wire_request, wire_response, push_to_meshpad_peer,
  batch_sync_with_meshpad_peer,
}
use mesh_pad.WireStore.{all_snapshots, upsert, note_id_from_snapshot}
use mesh_pad.P2p.Respond.{meet, answer_request, handle_request}
use mesh_pad.P2p.Replies.{handle_push_response}
use mesh_pad.WireProtocol.{WireRequest, WireResponse}
use mesh_pad.P2p.Loop.{
  Input, command, event, breaks, run_swarm, handle_command, handle_swarm_event, handle_response,
}
use mesh_pad.P2p.Ledger.{pending, answered}
use mesh_pad.P2p.Ledger.Run.{asked}
use mesh_pad.P2p.Drain.{waits, reported, failures, answered-failures}
use mesh_pad.Examples.Trees.{trees}
use mesh_pad.Examples.Latin.{latin}
use mesh_pad.Examples.Network.{network}
use mesh_pad.Examples.Batches.{left_wire, left_files}
use mesh_pad.Examples.Swarms.{config, fresh}

-- A hello, a push that is acknowledged, a batch sync that is pending, and one with an unknown peer.
-- The loop goes on.
abbrev running : List Input
running =
    event (wire_request 7 (WireRequest.hello "peer-b" "B") 0)
    ∷ command (push_to_meshpad_peer "peer-b" 1)
    ∷ event (wire_response 0 WireResponse.push_ack)
    ∷ command (batch_sync_with_meshpad_peer "peer-b" 1)
    ∷ command (batch_sync_with_meshpad_peer "peer-c" 1)
    ∷ []

goes_on : breaks running ≡ false
unfolding breaks
goes_on = refl

-- The request of a batch sync waits.
abbrev one_failure : List (ℕ × String)
one_failure = (1, "timeout") ∷ []

abbrev last_sync : BatchSyncCtx
last_sync = record { peer = 7; reply = 1; step = awaiting_remote_batch; imported = 0 }

left_over :
    let node = run_swarm config fresh running in
    (node.pulls ≡ HashMap.empty)
    × (node.pushes ≡ HashMap.empty)
    × (node.batch_syncs ≡ record { entries = (1, last_sync) ∷ [] })
unfolding run_swarm handle_command HashMap.get handle_swarm_event handle_response answer_request
    handle_request meet HashMap.insert all_snapshots upsert note_id_from_snapshot
    handle_push_response HashMap.remove
left_over = (refl, refl, refl)

waiting : (id : ℕ) → waits (run_swarm config fresh running) id ≡ reported id one_failure
unfolding HashMap.get
waiting id = rw (left_over.0, left_over.1, left_over.2) (ground arith)

waiting_reported :
    (id : ℕ) → waits (run_swarm config fresh running) id ≡ true → reported id one_failure ≡ true
waiting_reported id h = sym (waiting id) ∙ h

answered-failures_example :
    let last = run_swarm config (run_swarm config fresh running) (failures one_failure) in
    (pending 1 last ≡ 0) × (answered 1 last.answers ≡ asked 1 running)
answered-failures_example =
    answered-failures config 0 left_wire left_files running one_failure 1 waiting_reported
