-- ===== src/Bridge/Handlers.antt =====
-- The message handlers, `_dispatch_message` and the connection loop `_handle_client`.
pub mod WellFormed
pub mod Dispatch
pub mod Stream
pub mod Examples
use dropout.Prelude.{
  ℕ, zero, suc, ◌+◌, ◌*◌, ◌^◌, Bool, true, false, not, ◌&&◌, Option, none, some, List, [], ◌∷◌,
  ◌++◌, ltb, leb, ◌==◌, if◌then◌else◌, length, get_elem?, take, drop, bit_or,
}
use dropout.Prelude.Dict.{Dict, lookup, insert, contains}
use dropout.Prelude.Exec.{
  Error, Result, Exec, ok, err, index_error, attribute_error, incomplete_read, connection_reset,
  pure, raise, lift, gets, modify, and_then, continue, ◌>>=◌, ◌>>◌,
}
use dropout.Bytes.{Bytes, from_be32}
use dropout.Platform.{Platform}
use dropout.Wire.{MessageHeader, parse_header, header_size}
use dropout.Wire.MsgType
use dropout.Bridge.State.{
  ClientState, RoundState, Io, ProtocolBridge, Session, new_client, new_round, is_set, set_client,
}
use dropout.Bridge.Aggregate.{elem}
use dropout.Bridge.Round.{trigger_recovery, check_round_completion, unmask_and_aggregate}

-- An action on one round of the server; without such a round the handlers return at once.
abbrev pub in_round : ℕ → Exec Session Unit → Exec ProtocolBridge Unit
in_round round_id body bridge = elim (lookup round_id bridge.rounds) [
  | none ↦ (ok tt, bridge)
  | some round ↦
      let (result, s) = body (record { round = round; io = bridge.io }) in
      (result, record bridge { rounds = insert round_id s.round bridge.rounds; io = s.io })
]

-- The same, for a client of the round that must be there too.
abbrev pub with_client : ℕ → (ClientState → Exec Session Unit) → Exec Session Unit
with_client client_id body s = elim (lookup client_id s.round.clients) [
  | none ↦ (ok tt, s)
  | some c ↦ body c s
]

-- payload[i]
unfoldable pub byte_at : Bytes → ℕ → Result ℕ
byte_at payload i = elim (get_elem? payload i) [ none ↦ err index_error | some b ↦ ok b ]

-- self.rounds[round.round_id] = round; self.current_round_id = round.round_id
abbrev pub add_round : RoundState → ProtocolBridge → ProtocolBridge
add_round round b = record b {
  rounds = insert round.round_id round b.rounds;
  current_round_id = round.round_id;
}

-- A ROUND_INIT payload: two bytes, and two numbers that are read low byte first.
unfoldable pub start_round : ℕ → Bytes → Exec ProtocolBridge Unit
unfolding byte_at
start_round round_id payload = do
  expected_clients ← lift (byte_at payload 0)
  threshold ← lift (byte_at payload 1)
  c0 ← lift (byte_at payload 2)
  c1 ← lift (byte_at payload 3)
  m0 ← lift (byte_at payload 4)
  m1 ← lift (byte_at payload 5)
  m2 ← lift (byte_at payload 6)
  m3 ← lift (byte_at payload 7)
  let chunk_size = bit_or c0 (c1 * 2 ^ 8)
  let model_size = bit_or (bit_or (bit_or m0 (m1 * 2 ^ 8)) (m2 * 2 ^ 16)) (m3 * 2 ^ 24)
  modify (add_round (new_round round_id expected_clients threshold chunk_size model_size))

unfoldable pub handle_round_init : MessageHeader → Bytes → Exec ProtocolBridge Unit
unfolding start_round
handle_round_init header payload = do
  known ← gets (λ b. contains header.round_id b.rounds)
  if known then pure tt else start_round header.round_id payload

-- The client with its new key, made if it is not there.
abbrev pub register_key : ℕ → ℕ → Bytes → Option ClientState → ClientState
register_key client_id round_id payload none = record (new_client client_id round_id) {
  public_key = some payload;
}
register_key client_id round_id payload (some c) = record c { public_key = some payload }

-- self.client_writers[client_id] = writer
abbrev pub set_writer : ℕ → ℕ → Session → Session
set_writer client_id writer s = record s {
  io = record s.io { client_writers = insert client_id writer s.io.client_writers };
}

pub store_key : MessageHeader → Bytes → Exec Session Unit
store_key header payload s =
    let client =
      register_key header.client_id header.round_id payload
        (lookup header.client_id s.round.clients) in
    (ok tt, set_client header.client_id client s)

unfoldable pub handle_public_key : MessageHeader → Bytes → ℕ → Exec ProtocolBridge Unit
unfolding store_key
handle_public_key header payload writer =
    in_round header.round_id
      (store_key header payload >> modify (set_writer header.client_id writer))

unfoldable pub store_chunk : MessageHeader → Bytes → ClientState → Exec Session Unit
store_chunk header payload c s =
    if length payload == s.round.chunk_size * 2
    then (
      ok tt,
      set_client header.client_id
          (record c { received_chunks = insert header.sequence_number payload c.received_chunks })
          s,
    )
    else (ok tt, s)

unfoldable pub handle_mask_chunk : MessageHeader → Bytes → Exec ProtocolBridge Unit
unfolding store_chunk
handle_mask_chunk header payload =
    in_round header.round_id (with_client header.client_id (store_chunk header payload))

-- int.from_bytes(payload[:4], "big") if there are four bytes; the old count if not.
abbrev pub sample_count_from : Bytes → ℕ → ℕ
sample_count_from (a ∷ b ∷ c ∷ d ∷ rest) old = from_be32 a b c d
sample_count_from _ old = old

-- `if header.client_id not in dropout_clients: dropout_clients.append(header.client_id)`
abbrev pub add_dropout : ℕ → Session → Session
add_dropout client_id s = if elem client_id s.round.dropout_clients then s else record s {
  round = record s.round { dropout_clients = s.round.dropout_clients ++ (client_id ∷ []) };
}

-- await reader.readexactly(n): the bytes, and what is left of the stream.
abbrev pub read_exactly : ℕ → Bytes → Result (Bytes × Bytes)
read_exactly n stream =
    if ltb (length stream) n then err incomplete_read else ok (take n stream, drop n stream)

-- The two `except` clauses: a stream that ends and a lost connection are no failure.
abbrev pub caught : Result (Unit {0}) → Result (Unit {0})
caught (err incomplete_read) = ok tt
caught (err connection_reset) = ok tt
caught r = r

-- Over the `_check_round_completion` of the class.
unfoldable pub handle_client_complete :
    Exec Session Unit → MessageHeader → Bytes → Exec ProtocolBridge Unit
handle_client_complete check header payload = in_round header.round_id (
    with_client header.client_id (λ c.
      modify (
        set_client header.client_id
          (record c { sample_count = sample_count_from payload c.sample_count; completed = true }))
      >> check))

-- Over the `_trigger_recovery` and the `_check_round_completion` of the class.
unfoldable pub handle_dropout_notify :
    Exec Session Unit → Exec Session Unit → MessageHeader → Bytes → Exec ProtocolBridge Unit
handle_dropout_notify recover check header payload =
    in_round header.round_id (do modify (add_dropout header.client_id); recover; check)

abbrev append_share : Bytes → Option (List Bytes) → Option (List Bytes)
append_share payload none = some (payload ∷ [])
append_share payload (some shares) = some (shares ++ (payload ∷ []))

unfoldable pub handle_shamir_share : MessageHeader → Bytes → Exec ProtocolBridge Unit
handle_shamir_share header payload = in_round header.round_id (
    with_client header.client_id (λ c. modify (
      set_client header.client_id
        (record c { shamir_shares = append_share payload c.shamir_shares }))))

module _ (platform : Platform) where
  -- `_handle_pairwise_pubkey` and `_handle_pairwise_ciphertext` are not methods of the class.
  unfoldable pub dispatch_message : MessageHeader → Bytes → ℕ → Exec ProtocolBridge Unit
  dispatch_message header payload writer =
      if header.message_type == MsgType.kem_public_key
      then handle_public_key header payload writer
      else if header.message_type == MsgType.mask_chunk
      then handle_mask_chunk header payload
      else if header.message_type == MsgType.client_complete
      then handle_client_complete (check_round_completion platform (unmask_and_aggregate platform))
          header payload
      else if header.message_type == MsgType.dropout_notify
      then handle_dropout_notify (trigger_recovery platform)
          (check_round_completion platform (unmask_and_aggregate platform)) header payload
      else if header.message_type == MsgType.round_init
      then handle_round_init header payload
      else if header.message_type == MsgType.pairwise_kem_pubkey
      then raise attribute_error
      else if header.message_type == MsgType.pairwise_kem_ciphertext
      then raise attribute_error
      else if header.message_type == MsgType.shamir_share
      then handle_shamir_share header payload
      else pure tt

-- `_handle_client`, over the `_dispatch_message` of the class.
module _ {S : Type 0} (dispatch : MessageHeader → Bytes → ℕ → Exec S Unit) where
  -- The `while` loop of `_handle_client`. Each round reads a header, so the length of the stream
  -- is fuel enough.
  pub read_loop : ℕ → Bytes → ℕ → Exec S Unit
  read_loop zero stream writer = raise incomplete_read
  read_loop (suc fuel) stream writer = do
    (header_data, stream1) ← lift (read_exactly header_size stream)
    header ← lift (parse_header header_data)
    (payload, stream2) ← lift (read_exactly header.payload_length stream1)
    dispatch header payload writer
    read_loop fuel stream2 writer

  -- `_handle_client` over all that the peer sends: the two `except` clauses end the connection
  -- quietly, any other exception leaves the method.
  unfoldable pub handle_client : Bytes → ℕ → Exec S Unit
  handle_client stream writer state =
      let (result, state') = read_loop (suc (length stream)) stream writer state in
      (caught result, state')
