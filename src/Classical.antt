-- ===== src/Classical.antt =====
-- The classical server of host_server/baseline_server.py: the class ClassicalProtocolBridge, with
-- the methods of protocol_bridge.py but for its own key exchange and two more handlers. In the file
-- `_dispatch_message` stands outside the class; it is modelled as the method that it was meant to be.
pub mod MsgType
pub mod Wire
pub mod Keys
pub mod Round
pub mod WellFormed
pub mod Examples
use dropout.Prelude.{ℕ, some, leb, length, take, ◌==◌, if◌then◌else◌}
use dropout.Prelude.Exec.{Exec, pure, modify, ◌>>◌}
use dropout.Bytes.{Bytes}
use dropout.Platform.{Platform, KeyExchange}
use dropout.Bridge.State.{set_client}
use dropout.Bridge.Handlers.{in_round, with_client, set_writer}
use dropout.Bridge.Handlers
use Wire.{MessageHeader}
use Round.{
  ClassicalProtocolBridge, Session, trigger_recovery, check_round_completion, unmask_and_aggregate,
}

abbrev pub handle_round_init : MessageHeader → Bytes → Exec ClassicalProtocolBridge Unit
handle_round_init = Handlers.handle_round_init

abbrev pub handle_public_key : MessageHeader → Bytes → ℕ → Exec ClassicalProtocolBridge Unit
handle_public_key = Handlers.handle_public_key

abbrev pub handle_mask_chunk : MessageHeader → Bytes → Exec ClassicalProtocolBridge Unit
handle_mask_chunk = Handlers.handle_mask_chunk

-- A public key for a client that must be there, and the writer that it came from.
unfoldable pub handle_pairwise_pubkey :
    MessageHeader → Bytes → ℕ → Exec ClassicalProtocolBridge Unit
handle_pairwise_pubkey header payload writer = in_round header.round_id (
    with_client header.client_id (λ c.
      modify (set_client header.client_id (record c { public_key = some payload }))
      >> modify (set_writer header.client_id writer)))

-- The first 32 bytes are the secret of the client; a shorter payload is ignored.
unfoldable pub handle_pairwise_ciphertext :
    MessageHeader → Bytes → Exec ClassicalProtocolBridge Unit
handle_pairwise_ciphertext header payload = in_round header.round_id (
    with_client header.client_id (λ c.
      if leb 32 (length payload)
      then modify
          (set_client header.client_id (record c { shared_secret = some (take 32 payload) }))
      else pure tt))

module _ (x : KeyExchange) (platform : Platform) where
  -- `_check_round_completion` with the `_unmask_and_aggregate` of this class.
  abbrev pub check : Exec Session Unit
  check = check_round_completion x platform (unmask_and_aggregate x platform)

  abbrev pub handle_client_complete : MessageHeader → Bytes → Exec ClassicalProtocolBridge Unit
  handle_client_complete = Handlers.handle_client_complete check

  abbrev pub handle_dropout_notify : MessageHeader → Bytes → Exec ClassicalProtocolBridge Unit
  handle_dropout_notify = Handlers.handle_dropout_notify (trigger_recovery x platform) check

  unfoldable pub dispatch_message : MessageHeader → Bytes → ℕ → Exec ClassicalProtocolBridge Unit
  dispatch_message header payload writer =
      if header.message_type == MsgType.kem_public_key
      then handle_public_key header payload writer
      else if header.message_type == MsgType.mask_chunk
      then handle_mask_chunk header payload
      else if header.message_type == MsgType.client_complete
      then handle_client_complete header payload
      else if header.message_type == MsgType.dropout_notify
      then handle_dropout_notify header payload
      else if header.message_type == MsgType.round_init
      then handle_round_init header payload
      else if header.message_type == MsgType.pairwise_kem_pubkey
      then handle_pairwise_pubkey header payload writer
      else if header.message_type == MsgType.pairwise_kem_ciphertext
      then handle_pairwise_ciphertext header payload
      else pure tt

  abbrev pub handle_client : Bytes → ℕ → Exec ClassicalProtocolBridge Unit
  handle_client = Handlers.handle_client dispatch_message
