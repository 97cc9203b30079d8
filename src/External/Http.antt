-- ===== src/External/Http.antt =====
-- reqwest: a request to another host, which may change the world outside this sidecar.
use mesh_pad.Base.{String, Bool, Result}

-- What `send().await` gives, and the `json().await` that may follow: an error, as it is printed, or a
-- response with whether its status is a success, and its body as JSON or the error of reading it so;
-- or nothing ever, since a client has no timeout unless it is given one.
pub data Reply (Value : Type 0) : Type 0 where
  silent : Reply Value
  failed : String → Reply Value
  answered : Bool → Result Value String → Reply Value

pub record Http (Value : Type 0) : Type 1 where
  pub World : Type 0
  pub get : World → String → Reply Value × World
  pub post : World → String → Value → Reply Value × World
