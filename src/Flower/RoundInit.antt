-- ===== src/Flower/RoundInit.antt =====
-- The ROUND_INIT payload of host_server/flower_server.py, read by the server of
-- host_server/protocol_bridge.py.
use dropout.Prelude.{
  ℕ, ◌+◌, ◌*◌, ◌/◌, ◌%◌, ◌<◌, ◌≡◌, arith, ltb, [], ◌∷◌, ◌++◌, inl, inr, Bool-cases, refl,
}
use dropout.Prelude.Exec.{ok, and_then-eq-ok, ok_injective}
use dropout.Bytes.{Bytes, bytes_of, be16, be32, pack_uint16, pack_uint32}
use dropout.Bytes.Shift.{from_low2, from_low4}
use dropout.Bridge.State.{ProtocolBridge, new_round}
use dropout.Bridge.Handlers.{add_round, start_round, byte_at}
use dropout.Flower.{round_init_payload}

-- The number that the two, and the four, bytes of a number stand for in the other order.
abbrev pub swapped16 : ℕ → ℕ
swapped16 n = n / 256 + n % 256 * 256

abbrev pub swapped32 : ℕ → ℕ
swapped32 n = n / 16777216 + n / 65536 % 256 * 256 + n / 256 % 256 * 65536 + n % 256 * 16777216

read_numbers :
    (round_id n size total : ℕ) (bridge : ProtocolBridge)
    → size < 65536
    → total < 4294967296
    → start_round round_id ((n ∷ 2 ∷ []) ++ (be16 size ++ be32 total)) bridge
      ≡ (ok tt, add_round (new_round round_id n 2 (swapped16 size) (swapped32 total)) bridge)
unfolding start_round byte_at
read_numbers round_id n size total bridge hs ht =
    rw
      (
        from_low2 (size / 256) (size % 256) (omega arith),
        from_low4 (total / 16777216) (total / 65536 % 256) (total / 256 % 256) (total % 256)
            (omega arith) (omega arith) (omega arith),
      )
      refl

pack_uint16-eq-ok : (n : ℕ) (out : Bytes) → pack_uint16 n ≡ ok out → (n < 65536) × (be16 n ≡ out)
unfolding pack_uint16
pack_uint16-eq-ok n out h = elim (Bool-cases (ltb n 65536)) [
  | inl e ↦ (ground arith, ok_injective (rw e at h))
  | inr e ↦ let no = rw e at h in cc
]

pack_uint32-eq-ok :
    (n : ℕ) (out : Bytes) → pack_uint32 n ≡ ok out → (n < 4294967296) × (be32 n ≡ out)
unfolding pack_uint32
pack_uint32-eq-ok n out h = elim (Bool-cases (ltb n 4294967296)) [
  | inl e ↦ (ground arith, ok_injective (rw e at h))
  | inr e ↦ let no = rw e at h in cc
]

counts-eq-ok : (n : ℕ) (out : Bytes) → bytes_of (n ∷ 2 ∷ []) ≡ ok out → n ∷ 2 ∷ [] ≡ out
unfolding bytes_of
counts-eq-ok n out h = elim (Bool-cases (ltb n 256)) [
  | inl e ↦ ok_injective (rw e at h)
  | inr e ↦ let no = rw e at h in cc
]

-- The payload that `_send_round_init` makes starts a round of the server with the number of clients
-- and the threshold 2, but with the bytes of the chunk size and of the model size in reverse order.
pub start_round-round_init_payload :
    (round_id num_clients num_chunks chunk_size : ℕ) (payload : Bytes) (bridge : ProtocolBridge)
    → round_init_payload num_clients num_chunks chunk_size ≡ ok payload
    → start_round round_id payload bridge ≡ (
      ok tt,
      add_round
          (new_round round_id num_clients 2
            (swapped16 chunk_size)
            (swapped32 (num_chunks * chunk_size * 2)))
          bridge,
    )
unfolding round_init_payload
start_round-round_init_payload round_id n m c payload bridge h =
    let (counts, b, h1) = and_then-eq-ok (bytes_of (n ∷ 2 ∷ [])) _ h in
    let (size, p, h2) = and_then-eq-ok (pack_uint16 c) _ h1 in
    let (total, q, h3) = and_then-eq-ok (pack_uint32 (m * c * 2)) _ h2 in
    let (small, size_is) = pack_uint16-eq-ok c size p in
    let (fits, total_is) = pack_uint32-eq-ok (m * c * 2) total q in
    rw (← ok_injective h3, ← counts-eq-ok n counts b, ← size_is, ← total_is)
      (read_numbers round_id n c (m * c * 2) bridge small fits)
