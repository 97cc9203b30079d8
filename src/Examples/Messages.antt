-- ===== src/Examples/Messages.antt =====
-- The JSON of messages and the stream of events, at concrete ones.
use mesh_pad.Base.{◌≡◌, refl, some, none, [], ◌∷◌, map, inl, arith}
use mesh_pad.Events.{SidecarEvent, sync_completed}
use mesh_pad.WireProtocol.{WireRequest, WireResponse}
use mesh_pad.WireProtocol.Encoding.{
  request_json, request_of, request_of-request_json, response_json, response_of,
  response_of-response_json,
}
use mesh_pad.Sidecar.EventStream.{payload, events_sse, events_sse_lem}
use mesh_pad.Examples.Trees.{trees}
use mesh_pad.Examples.Texts.{printed, numbered}

request_of-request_json_example :
    request_of (request_json (WireRequest.pull ("a" ∷ "b" ∷ [])))
    ≡ some (WireRequest.pull ("a" ∷ "b" ∷ []))
request_of-request_json_example = request_of-request_json (WireRequest.pull ("a" ∷ "b" ∷ []))

response_of-response_json_example :
    response_of (response_json (WireResponse.batch_ack 3)) ≡ some (WireResponse.batch_ack 3)
response_of-response_json_example =
    response_of-response_json (WireResponse.batch_ack 3) (omega arith)

-- A count that no 32-bit number is does not come back.
too_large : response_of (response_json (WireResponse.batch_ack 4294967296)) ≡ none
unfolding response_of response_json
too_large = refl

abbrev first : SidecarEvent
first = sync_completed "peer-b" 1

abbrev second : SidecarEvent
second = sync_completed "peer-c" 2

abbrev third : SidecarEvent
third = sync_completed "peer-b" 3

-- A client that has the first of three events.
events_sse_lem_example :
    events_sse 4 (first ∷ second ∷ third ∷ []) 1 ≡ map payload (second ∷ third ∷ [])
events_sse_lem_example =
    events_sse_lem (first ∷ []) [] (second ∷ third ∷ []) (first ∷ second ∷ third ∷ []) 1 4
      (record { split = refl; seen = refl }) (inl refl) (omega arith) (omega arith)
