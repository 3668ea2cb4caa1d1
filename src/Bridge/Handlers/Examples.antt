-- ===== src/Bridge/Handlers/Examples.antt =====
-- Messages to the sample server.
use dropout.Prelude.{◌≡◌, refl, arith, List, [], ◌∷◌}
use dropout.Prelude.Dict.{lookup}
use dropout.Prelude.Exec.{ok, for_each}
use dropout.Bytes.{Bytes}
use dropout.Wire.{MessageHeader, build_header}
use dropout.Wire.RoundTrip.{header_of}
use dropout.Samples.{sample_platform, sample_bridge}
use dropout.Bridge.Handlers.{dispatch_message, read_loop, caught, handle_client}
use dropout.Bridge.Handlers.WellFormed.{IsWellFormed, dispatch_message-IsWellFormed}
use dropout.Bridge.Handlers.Dispatch.{dispatch_message_others}
use dropout.Bridge.Handlers.Stream.{
  Message, frames, deliver, handle_client_dispatches, read_loop_enough,
}

-- A chunk of the second client.
abbrev chunk_header : MessageHeader
chunk_header = header_of 0x21 7 2 1 4

dispatch_message-IsWellFormed_example :
    IsWellFormed
      (dispatch_message sample_platform chunk_header (0 ∷ 1 ∷ 0 ∷ 2 ∷ []) 5 sample_bridge).1
dispatch_message-IsWellFormed_example =
    dispatch_message-IsWellFormed sample_platform chunk_header (0 ∷ 1 ∷ 0 ∷ 2 ∷ []) 5 sample_bridge
      (((refl, (refl, tt)), ((refl, tt), (tt, tt))), tt)

dispatch_message_others_example :
    lookup 8
      (dispatch_message sample_platform chunk_header (0 ∷ 1 ∷ 0 ∷ 2 ∷ []) 5 sample_bridge).1.rounds
    ≡ lookup 8 sample_bridge.rounds
dispatch_message_others_example =
    dispatch_message_others sample_platform chunk_header (0 ∷ 1 ∷ 0 ∷ 2 ∷ []) 5 8 sample_bridge
      (omega arith)

-- The chunk, and the end of the third client.
abbrev messages : List Message
messages =
    record {
      message_type = 0x21;
      round_id = 7;
      client_id = 2;
      sequence_number = 1;
      payload = 0 ∷ 1 ∷ 0 ∷ 2 ∷ [];
    }
    ∷ record { message_type = 0x31; round_id = 7; client_id = 3; sequence_number = 0; payload = [] }
    ∷ []

abbrev stream : Bytes
stream =
    0 ∷ 1 ∷ 0 ∷ 0 ∷ 0 ∷ 0 ∷ 0 ∷ 7 ∷ 2 ∷ 33 ∷ 0 ∷ 1 ∷ 0 ∷ 4 ∷ 0 ∷ 0 ∷ 0 ∷ 1 ∷ 0 ∷ 2 ∷ 0 ∷ 1 ∷ 0 ∷ 0
    ∷ 0 ∷ 0 ∷ 0 ∷ 7 ∷ 3 ∷ 49 ∷ 0 ∷ 0 ∷ 0 ∷ 0 ∷ 0 ∷ 0 ∷ []

framed : frames messages ≡ ok stream
unfolding build_header
framed = refl

handle_client_dispatches_example :
    handle_client (dispatch_message sample_platform) stream 5 sample_bridge ≡ (
      let (result, bridge) =
        for_each messages (deliver (dispatch_message sample_platform) 5) sample_bridge in
      (caught result, bridge))
handle_client_dispatches_example =
    handle_client_dispatches (dispatch_message sample_platform) 5 messages stream sample_bridge
      framed

read_loop_enough_example :
    read_loop (dispatch_message sample_platform) 37 stream 5 sample_bridge
    ≡ read_loop (dispatch_message sample_platform) 100 stream 5 sample_bridge
read_loop_enough_example =
    read_loop_enough (dispatch_message sample_platform) 37 100 stream 5 sample_bridge (omega arith)
      (omega arith)
