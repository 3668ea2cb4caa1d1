-- ===== src/Incoming.antt =====
-- The server on the lower side of the merge in host_server/protocol_bridge.py, lines 677 to 1273: a
-- second class ProtocolBridge. Most of its methods are those of the upper side, word for word, and
-- have their names here; it has no Shamir shares, and it aggregates in two steps.
pub mod MsgType
pub mod Wire
pub mod Keys
pub mod Round
pub mod WellFormed
pub mod Completes
pub mod Examples
use dropout.Prelude.{ℕ, ◌==◌, if◌then◌else◌}
use dropout.Prelude.Exec.{Exec, attribute_error, pure, raise}
use dropout.Bytes.{Bytes}
use dropout.Platform.{Platform}
use dropout.Bridge.Handlers
use Wire.{MessageHeader}
use Round.{ProtocolBridge, Session, trigger_recovery, check_round_completion, unmask_and_aggregate}

abbrev pub handle_round_init : MessageHeader → Bytes → Exec ProtocolBridge Unit
handle_round_init = Handlers.handle_round_init

abbrev pub handle_public_key : MessageHeader → Bytes → ℕ → Exec ProtocolBridge Unit
handle_public_key = Handlers.handle_public_key

abbrev pub handle_mask_chunk : MessageHeader → Bytes → Exec ProtocolBridge Unit
handle_mask_chunk = Handlers.handle_mask_chunk

module _ (platform : Platform) where
  -- `_check_round_completion` with the `_unmask_and_aggregate` of this class.
  abbrev pub check : Exec Session Unit
  check = check_round_completion platform (unmask_and_aggregate platform)

  abbrev pub handle_client_complete : MessageHeader → Bytes → Exec ProtocolBridge Unit
  handle_client_complete = Handlers.handle_client_complete check

  abbrev pub handle_dropout_notify : MessageHeader → Bytes → Exec ProtocolBridge Unit
  handle_dropout_notify = Handlers.handle_dropout_notify (trigger_recovery platform) check

  -- `_handle_pairwise_pubkey` and `_handle_pairwise_ciphertext` are not methods of the class.
  unfoldable pub dispatch_message : MessageHeader → Bytes → ℕ → Exec ProtocolBridge Unit
  dispatch_message header payload writer =
      if header.message_type == MsgType.kem_public_key
      then handle_public_key header payload writer
      else if header.message_type == MsgType.mask_chunk
      then handle_mask_chunk header payload
      else if header.message_type == MsgType.client_complete
      then handle_client_complete header payload
      else if header.message_type == MsgType.dropout_notify
      then handle_dropout_notify header payload
      else if header.message_type == MsgType.round_init
      then handle_round_init header payload
      else if header.message_type == MsgType.pairwise_kem_pubkey
      then raise attribute_error
      else if header.message_type == MsgType.pairwise_kem_ciphertext
      then raise attribute_error
      else pure tt

  abbrev pub handle_client : Bytes → ℕ → Exec ProtocolBridge Unit
  handle_client = Handlers.handle_client dispatch_message
