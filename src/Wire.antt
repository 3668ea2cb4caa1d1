-- ===== src/Wire.antt =====
-- The message header of host_server/protocol_bridge.py: `MessageHeader`, `_parse_header` and
-- `_build_header`, with the format ">IIBBHHH" of 16 bytes.
pub mod MsgType
pub mod RoundTrip
pub mod Examples
use dropout.Prelude.{ℕ, Bool, ◌&&◌, List, [], ◌∷◌, ◌++◌, ltb, if◌then◌else◌}
use dropout.Prelude.Exec.{Result, ok, err, struct_error}
use dropout.Bytes.{Bytes, be16, be32, from_be16, from_be32}

abbrev pub protocol_version : ℕ
protocol_version = 0x00010000

abbrev pub header_size : ℕ
header_size = 16

pub record MessageHeader : Type 0 where
  pub protocol_version : ℕ
  pub round_id : ℕ
  pub client_id : ℕ
  pub message_type : ℕ
  pub sequence_number : ℕ
  pub payload_length : ℕ
  pub reserved : ℕ

-- struct.unpack raises unless there are 16 bytes.
unfoldable pub parse_header : Bytes → Result MessageHeader
parse_header (a ∷ b ∷ c ∷ d ∷ e ∷ f ∷ g ∷ h ∷ i ∷ j ∷ k ∷ l ∷ m ∷ n ∷ o ∷ p ∷ []) = ok (record {
  protocol_version = from_be32 a b c d;
  round_id = from_be32 e f g h;
  client_id = i;
  message_type = j;
  sequence_number = from_be16 k l;
  payload_length = from_be16 m n;
  reserved = from_be16 o p;
})
parse_header _ = err struct_error

-- The 16 bytes of a header whose values all fit.
abbrev pub header_bytes : ℕ → ℕ → ℕ → ℕ → ℕ → Bytes
header_bytes message_type round_id client_id sequence_number payload_length =
    be32 protocol_version
    ++ (be32 round_id
        ++ (client_id ∷ message_type ∷ (be16 sequence_number ++ (be16 payload_length ++ be16 0))))

-- struct.pack raises when a value does not fit its field.
unfoldable pub build_header : ℕ → ℕ → ℕ → ℕ → ℕ → Result Bytes
build_header message_type round_id client_id sequence_number payload_length =
    if ltb round_id 4294967296
      && (ltb client_id 256
          && (ltb message_type 256 && (ltb sequence_number 65536 && ltb payload_length 65536)))
    then ok (header_bytes message_type round_id client_id sequence_number payload_length)
    else err struct_error
