-- ===== src/Incoming/Wire.antt =====
-- The message header of the lower side of the merge in host_server/protocol_bridge.py, which is
-- that of the upper side.
use dropout.Prelude.{ℕ}
use dropout.Prelude.Exec.{Result}
use dropout.Bytes.{Bytes}
use dropout.Wire

abbrev pub MessageHeader : Type 0
MessageHeader = Wire.MessageHeader

abbrev pub parse_header : Bytes → Result MessageHeader
parse_header = Wire.parse_header

abbrev pub build_header : ℕ → ℕ → ℕ → ℕ → ℕ → Result Bytes
build_header = Wire.build_header
