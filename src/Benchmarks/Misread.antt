-- ===== src/Benchmarks/Misread.antt =====
-- The telemetry that the server sends, as the benchmarks read it.
use dropout.Prelude.{
  ℕ, ◌-◌, ◌≡◌, refl, arith, ◌/◌, ◌%◌, Bool, true, false, if◌then◌else◌, some, List, [], ◌∷◌, ◌++◌,
  length, leb, Option, length-append, drop-append,
}
use dropout.Prelude.Exec.{Error, ok, err, ok_injective}
use mathlib.Core.Path.{subst}
use dropout.Bytes.{Bytes, from_be32}
use dropout.Bridge.Telemetry.{Telemetry, pack_telemetry}
use dropout.Wire.{MessageHeader}
use dropout.Benchmarks.{ParsedTelemetry, put_telemetry, parse_telemetry, unpack_words, telemetry_of}

-- The fields that come out when reading starts one word early.
abbrev pub misread : ℕ → Telemetry → ParsedTelemetry
misread word t = record {
  round_id = word;
  keygen_cycles = t.round_id;
  encaps_cycles = t.keygen_cycles;
  decaps_cycles = t.encaps_cycles;
  hkdf_cycles = t.decaps_cycles;
  mask_gen_cycles = t.hkdf_cycles;
  mask_apply_cycles = t.mask_gen_cycles;
  peak_sram = t.mask_apply_cycles;
  min_free_heap = t.peak_sram;
  largest_free_block = t.min_free_heap;
  stack_high_water = t.largest_free_block;
  heap_zero = false;
  aggregation_success = 0;
  final_accuracy = 0;
}

from_be32-be32 : (v : ℕ) → from_be32 (v / 16777216) (v / 65536 % 256) (v / 256 % 256) (v % 256) ≡ v
from_be32-be32 v = omega arith

if_ok : {A : Type 0} (c : Bool) (a b : A) (e : Error) → (if c then ok a else err e) ≡ ok b → a ≡ b
if_ok true a b e h = ok_injective h
if_ok false a b e h = cc

parse_misaligned :
    (a b c d : ℕ) (t : Telemetry) (bytes : Bytes)
    → pack_telemetry t ≡ ok bytes
    → (length bytes ≡ 60)
      × (parse_telemetry (a ∷ b ∷ c ∷ d ∷ bytes) ≡ ok (some (misread (from_be32 a b c d) t)))
unfolding pack_telemetry parse_telemetry unpack_words telemetry_of
parse_misaligned a b c d t bytes h =
    let packed = if_ok _ _ bytes _ h in
    subst
      (λ (packed_bytes : Bytes).
        (length packed_bytes ≡ 60)
        × (parse_telemetry (a ∷ b ∷ c ∷ d ∷ packed_bytes)
            ≡ ok (some (misread (from_be32 a b c d) t))))
      packed
      (
        refl,
        rw
            (
              from_be32-be32 t.round_id,
              from_be32-be32 t.keygen_cycles,
              from_be32-be32 t.encaps_cycles,
              from_be32-be32 t.decaps_cycles,
              from_be32-be32 t.hkdf_cycles,
              from_be32-be32 t.mask_gen_cycles,
              from_be32-be32 t.mask_apply_cycles,
              from_be32-be32 t.peak_sram,
              from_be32-be32 t.min_free_heap,
              from_be32-be32 t.largest_free_block,
            )
            refl,
      )

-- The fields that were packed.
abbrev pub packed_fields : Telemetry → ParsedTelemetry
packed_fields t = record {
  round_id = t.round_id;
  keygen_cycles = t.keygen_cycles;
  encaps_cycles = t.encaps_cycles;
  decaps_cycles = t.decaps_cycles;
  hkdf_cycles = t.hkdf_cycles;
  mask_gen_cycles = t.mask_gen_cycles;
  mask_apply_cycles = t.mask_apply_cycles;
  peak_sram = t.peak_sram;
  min_free_heap = t.min_free_heap;
  largest_free_block = t.largest_free_block;
  stack_high_water = t.stack_high_water;
  heap_zero = t.heap_zero;
  aggregation_success = t.aggregation_success;
  final_accuracy = t.final_accuracy;
}

-- Of a message that ends the round, with the packed telemetry after at least four bytes, the
-- benchmarks put one entry into their queue, which starts one word early: the four bytes are its
-- round number, every field holds the one before it, and the success and the accuracy are 0.
pub put_telemetry_misreads :
    (header : MessageHeader) (front : Bytes) (a b c d : ℕ) (t : Telemetry) (bytes : Bytes)
    (queue : List (Option ParsedTelemetry))
    → header.message_type ≡ 0x41
    → header.payload_length ≡ length (front ++ (a ∷ b ∷ c ∷ d ∷ bytes))
    → pack_telemetry t ≡ ok bytes
    → put_telemetry header (front ++ (a ∷ b ∷ c ∷ d ∷ bytes)) queue
      ≡ (ok tt, queue ++ (some (misread (from_be32 a b c d) t) ∷ []))
unfolding put_telemetry
put_telemetry_misreads header front a b c d t bytes queue kind size packed =
    let (sixty, parsed) = parse_misaligned a b c d t bytes packed in
    let whole = length-append front (a ∷ b ∷ c ∷ d ∷ bytes) in
    let ends : length (front ++ (a ∷ b ∷ c ∷ d ∷ bytes)) - 64 ≡ length front = ground arith in
    let enough : (leb 64 header.payload_length) ≡ true = ground arith in
    rw (put_telemetry, kind, enough, ends, drop-append front (a ∷ b ∷ c ∷ d ∷ bytes), parsed)
