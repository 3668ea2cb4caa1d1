-- ===== src/Classical/Wire.antt =====
-- The message header of host_server/baseline_server.py, which is
-- that of host_server/protocol_bridge.py.
use dropout.Prelude.{ℕ}
use dropout.Prelude.Exec.{Result}
use dropout.Bytes.{Bytes}
use dropout.Wire

abbrev pub MessageHeader : Type 0
MessageHeader = Wire.MessageHeader

abbrev pub parse_header : Bytes → Result MessageHeader
parse_header = Wire.parse_header

abbrev pub build_header : ℕ → ℕ → ℕ → ℕ → ℕ → Result Bytes
build_header = Wire.build_header
