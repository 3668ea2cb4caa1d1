-- ===== src/Wire/RoundTrip.antt =====
-- `_parse_header` reads back what `_build_header` wrote.
use dropout.Prelude.{ℕ, ◌<◌, ◌≡◌, arith, length}
use dropout.Prelude.Exec.{ok}
use dropout.Bytes.{Bytes}
use dropout.Wire.{MessageHeader, parse_header, build_header, header_bytes}

abbrev pub header_of : ℕ → ℕ → ℕ → ℕ → ℕ → MessageHeader
header_of message_type round_id client_id sequence_number payload_length = record {
  protocol_version = 65536;
  round_id = round_id;
  client_id = client_id;
  message_type = message_type;
  sequence_number = sequence_number;
  payload_length = payload_length;
  reserved = 0;
}

-- A header that builds is 16 bytes long and parses to the fields that it was built from.
pub parse-build_header :
    (message_type round_id client_id sequence_number payload_length : ℕ) (bytes : Bytes)
    → build_header message_type round_id client_id sequence_number payload_length ≡ ok bytes
    → (length bytes ≡ 16)
      × (parse_header bytes
          ≡ ok (header_of message_type round_id client_id sequence_number payload_length))
unfolding parse_header build_header
parse-build_header mt r c s p bytes h = (ground arith, ground arith)

-- A header whose fields fit is built.
pub build_header_fits :
    (message_type round_id client_id sequence_number payload_length : ℕ)
    → message_type < 256
    → round_id < 4294967296
    → client_id < 256
    → sequence_number < 65536
    → payload_length < 65536
    → build_header message_type round_id client_id sequence_number payload_length
      ≡ ok (header_bytes message_type round_id client_id sequence_number payload_length)
unfolding build_header
build_header_fits mt r c s p h1 h2 h3 h4 h5 = ground arith
