-- ===== src/Bytes.antt =====
-- Byte strings as lists of numbers, and the parts of Python's `struct`, `bytes` and `int` that the
-- program calls: big-endian fields, signed 16-bit arrays, and the exceptions for what does not fit.
pub mod Int16
pub mod Shift
use dropout.Prelude.{
  ℕ, zero, suc, ◌+◌, ◌-◌, ◌*◌, ◌/◌, ◌%◌, ◌^◌, ◌<◌, Bool, true, false, ◌&&◌, List, [], ◌∷◌, ◌++◌,
  ltb, leb, ◌==◌, if◌then◌else◌, length, All,
}
use dropout.Prelude.Int.{ℤ, pos, negsuc}
use dropout.Prelude.Exec.{Result, ok, err, value_error, overflow_error, struct_error, and_then}

abbrev pub Bytes : Type 0
Bytes = List ℕ

abbrev pub AreBytes : Bytes → Type 0
AreBytes = All (λ b. b < 256)

abbrev pub be16 : ℕ → Bytes
be16 v = (v / 256) ∷ (v % 256) ∷ []

abbrev pub be32 : ℕ → Bytes
be32 v = (v / 16777216) ∷ (v / 65536 % 256) ∷ (v / 256 % 256) ∷ (v % 256) ∷ []

abbrev pub from_be16 : ℕ → ℕ → ℕ
from_be16 a b = a * 256 + b

abbrev pub from_be32 : ℕ → ℕ → ℕ → ℕ → ℕ
from_be32 a b c d = a * 16777216 + b * 65536 + c * 256 + d

-- bytes([a, b, ...])
unfoldable pub bytes_of : List ℕ → Result Bytes
bytes_of [] = ok []
bytes_of (b ∷ bs) =
    and_then (bytes_of bs) (λ rest. if ltb b 256 then ok (b ∷ rest) else err value_error)

-- n.to_bytes(2, 'big'), n.to_bytes(4, 'big')
unfoldable pub to_bytes2 : ℕ → Result Bytes
to_bytes2 n = if ltb n 65536 then ok (be16 n) else err overflow_error

unfoldable pub to_bytes4 : ℕ → Result Bytes
to_bytes4 n = if ltb n 4294967296 then ok (be32 n) else err overflow_error

-- struct.pack(">H", n), struct.pack(">I", n)
unfoldable pub pack_uint16 : ℕ → Result Bytes
pack_uint16 n = if ltb n 65536 then ok (be16 n) else err struct_error

unfoldable pub pack_uint32 : ℕ → Result Bytes
pack_uint32 n = if ltb n 4294967296 then ok (be32 n) else err struct_error

-- The number that two bytes stand for under the format `h`.
abbrev pub signed16 : ℕ → ℤ
signed16 w = if ltb w 32768 then pos w else negsuc (65535 - w)

-- struct.pack(">{n}h", *values): a value outside -32768 .. 32767 raises.
unfoldable pub pack_int16 : ℤ → Result Bytes
pack_int16 (pos n) = if ltb n 32768 then ok (be16 n) else err struct_error
pack_int16 (negsuc n) = if ltb n 32768 then ok (be16 (65535 - n)) else err struct_error

unfoldable pub pack_int16s : List ℤ → Result Bytes
unfolding pack_int16
pack_int16s [] = ok []
pack_int16s (v ∷ vs) =
    and_then (pack_int16 v) (λ b. and_then (pack_int16s vs) (λ rest. ok (b ++ rest)))

-- struct.unpack(">{n}h", bytes): the length must be 2 * n exactly.
unfoldable pub unpack_int16s : ℕ → Bytes → Result (List ℤ)
unpack_int16s zero [] = ok []
unpack_int16s (suc n) (a ∷ b ∷ rest) =
    and_then (unpack_int16s n rest) (λ vs. ok (signed16 (from_be16 a b) ∷ vs))
unpack_int16s _ _ = err struct_error
