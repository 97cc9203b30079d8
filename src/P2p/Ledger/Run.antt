-- ===== src/P2p/Ledger/Run.antt =====
-- Whole runs of the loop: every request of a caller is pending or answered, once.
use mesh_pad.Base.{inl, ℕ, ◌+◌, ◌≡◌, ◌∙◌, List, [], ◌∷◌, arith, ap}
use mesh_pad.External.Json.{Json}
use mesh_pad.External.Base64.{Base64}
use mesh_pad.External.Libp2p.{Libp2p}
use mesh_pad.HashMap.Tally.{tally}
use mesh_pad.HashMap.Laws.{get-empty}
use mesh_pad.P2p.Replies.{id_key}
use mesh_pad.HashMap.Distinct.{Distinct-empty}
use mesh_pad.HashMap.Entries.{Every-empty}
use mesh_pad.WireStore.{WireStore}
use mesh_pad.AttachmentStore.{WireAttachmentStore}
use mesh_pad.P2p.{
  Sender, stop, pull_from_meshpad_peer, push_to_meshpad_peer, batch_sync_with_meshpad_peer,
  P2pConfig, Node,
}
use mesh_pad.P2p.Loop.{start_node, Input, command, closed, event, run_swarm}
use mesh_pad.P2p.Pending.{IsConsistent}
use mesh_pad.P2p.Pending.Loop.{handle_swarm_event-IsConsistent}
use mesh_pad.P2p.Pending.Commands.{handle_command-IsConsistent}
use mesh_pad.P2p.Ledger.{asks, pending, answered, account}
use mesh_pad.P2p.Ledger.Loop.{handle_swarm_event-account, handle_command-account}

module _ ⦃json : Json⦄ ⦃base64 : Base64⦄ ⦃libp2p : Libp2p json.Value⦄ where
  open json use {Value}
  open libp2p use {Swarm}

  -- How often the caller asks, up to the command that stops the loop.
  unfoldable pub asked : Sender → List Input → ℕ
  asked caller [] = 0
  asked caller (command stop ∷ rest) = 0
  asked caller (closed ∷ rest) = 0
  asked caller (command cmd ∷ rest) = asks caller cmd + asked caller rest
  asked caller (event e ∷ rest) = asked caller rest

  pub start_node-IsConsistent :
      (swarm : Swarm) (wire : WireStore Value) (attachments : WireAttachmentStore)
      → IsConsistent (start_node swarm wire attachments)
  start_node-IsConsistent swarm wire attachments = record {
    pulls = record { distinct = Distinct-empty ⦃e = _⦄; issued = Every-empty _ };
    pushes = record { distinct = Distinct-empty ⦃e = _⦄; issued = Every-empty _ };
    batch_syncs = record { distinct = Distinct-empty ⦃e = _⦄; issued = Every-empty _ };
    apart = record {
      pulls_pushes = λ id. inl (get-empty id);
      pulls_batch_syncs = λ id. inl (get-empty id);
      pushes_batch_syncs = λ id. inl (get-empty id);
    };
  }

  pub run_swarm-IsConsistent :
      (config : P2pConfig) (inputs : List Input) (node : Node)
      → IsConsistent node
      → IsConsistent (run_swarm config node inputs)
  unfolding run_swarm
  run_swarm-IsConsistent config [] node c = c
  run_swarm-IsConsistent config (command stop ∷ rest) node c = c
  run_swarm-IsConsistent config (closed ∷ rest) node c = c
  run_swarm-IsConsistent config (command (pull_from_meshpad_peer id reply) ∷ rest) node c =
      run_swarm-IsConsistent config rest _
        (handle_command-IsConsistent node c (pull_from_meshpad_peer id reply))
  run_swarm-IsConsistent config (command (push_to_meshpad_peer id reply) ∷ rest) node c =
      run_swarm-IsConsistent config rest _
        (handle_command-IsConsistent node c (push_to_meshpad_peer id reply))
  run_swarm-IsConsistent config (command (batch_sync_with_meshpad_peer id reply) ∷ rest) node c =
      run_swarm-IsConsistent config rest _
        (handle_command-IsConsistent node c (batch_sync_with_meshpad_peer id reply))
  run_swarm-IsConsistent config (event e ∷ rest) node c =
      run_swarm-IsConsistent config rest _ (handle_swarm_event-IsConsistent node c config e)

  pub run_swarm-account :
      (config : P2pConfig) (caller : Sender) (inputs : List Input) (node : Node)
      → IsConsistent node
      → account caller (run_swarm config node inputs) ≡ account caller node + asked caller inputs
  unfolding run_swarm asked
  run_swarm-account config caller [] node c = omega arith
  run_swarm-account config caller (command stop ∷ rest) node c = omega arith
  run_swarm-account config caller (closed ∷ rest) node c = omega arith
  run_swarm-account config caller (command (pull_from_meshpad_peer id reply) ∷ rest) node c =
      omega (
        arith,
        run_swarm-account config caller rest _
            (handle_command-IsConsistent node c (pull_from_meshpad_peer id reply)),
        handle_command-account caller node c (pull_from_meshpad_peer id reply),
      )
  run_swarm-account config caller (command (push_to_meshpad_peer id reply) ∷ rest) node c = omega (
    arith,
    run_swarm-account config caller rest _
        (handle_command-IsConsistent node c (push_to_meshpad_peer id reply)),
    handle_command-account caller node c (push_to_meshpad_peer id reply),
  )
  run_swarm-account config caller (command (batch_sync_with_meshpad_peer id reply) ∷ rest) node c =
      omega (
        arith,
        run_swarm-account config caller rest _
            (handle_command-IsConsistent node c (batch_sync_with_meshpad_peer id reply)),
        handle_command-account caller node c (batch_sync_with_meshpad_peer id reply),
      )
  run_swarm-account config caller (event e ∷ rest) node c =
      run_swarm-account config caller rest _ (handle_swarm_event-IsConsistent node c config e)
      ∙ ap (λ n. n + asked caller rest) (handle_swarm_event-account caller node c config e)

  -- After any run of the loop from its start, a caller's requests that wait in the three maps of
  -- pending requests and the answers that it got are together as many as the commands by which it
  -- asked before the loop stopped. So a caller that asked once is waiting or has been answered,
  -- and not both and not twice.
  pub run_swarm_once :
      (config : P2pConfig) (swarm : Swarm) (wire : WireStore Value)
      (attachments : WireAttachmentStore) (inputs : List Input) (caller : Sender)
      → let node = run_swarm config (start_node swarm wire attachments) inputs in
        pending caller node + answered caller node.answers ≡ asked caller inputs
  unfolding account tally answered
  run_swarm_once config swarm wire attachments inputs caller = omega (
    arith,
    run_swarm-account config caller inputs (start_node swarm wire attachments)
        (start_node-IsConsistent swarm wire attachments),
  )
