-- ===== src/External/Tokio.antt =====
-- tokio: what the errors of its channels print.
use mesh_pad.Base.{String}

pub record Tokio : Type 0 where
  -- mpsc::error::SendError: the receiver is gone
  pub send_error : String
  -- oneshot::error::RecvError: the sender is gone
  pub recv_error : String
