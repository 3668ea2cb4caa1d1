-- ===== src/Benchmarks.antt =====
-- What experiments/run_benchmarks.py reads of the telemetry: `parse_telemetry` and
-- `handle_telemetry_client`. The queue is the list of what was put into it.
pub mod Misread
pub mod Examples
use dropout.Prelude.{
  ℕ, zero, suc, ◌+◌, ◌*◌, ◌-◌, Bool, true, false, not, ◌&&◌, Option, none, some, List, [], ◌∷◌,
  ◌++◌, ltb, leb, ◌==◌, if◌then◌else◌, length, take, drop,
}
use dropout.Prelude.Exec.{Result, Exec, ok, err, struct_error, pure, lift, modify, and_then, ◌>>=◌}
use dropout.Bytes.{Bytes, from_be32}
use dropout.Wire.{MessageHeader}
use dropout.Bridge.Handlers.{read_loop}

-- The accuracy is kept in 255ths, as it is packed.
pub record ParsedTelemetry : Type 0 where
  pub round_id : ℕ
  pub keygen_cycles : ℕ
  pub encaps_cycles : ℕ
  pub decaps_cycles : ℕ
  pub hkdf_cycles : ℕ
  pub mask_gen_cycles : ℕ
  pub mask_apply_cycles : ℕ
  pub peak_sram : ℕ
  pub min_free_heap : ℕ
  pub largest_free_block : ℕ
  pub stack_high_water : ℕ
  pub heap_zero : Bool
  pub aggregation_success : ℕ
  pub final_accuracy : ℕ

-- `n` words, and the bytes after them as they are.
unfoldable pub unpack_words : ℕ → Bytes → Result (List ℕ)
unpack_words zero telemetry_bytes = ok telemetry_bytes
unpack_words (suc n) (a ∷ b ∷ c ∷ d ∷ telemetry_bytes) =
    and_then (unpack_words n telemetry_bytes) (λ values. ok (from_be32 a b c d ∷ values))
unpack_words (suc n) _ = err struct_error

-- struct.unpack(">IIIIIIIIIIIIIIBBBB", data) gives eighteen values.
unfoldable pub telemetry_of : List ℕ → Result ParsedTelemetry
telemetry_of
      (v0 ∷ v1 ∷ v2 ∷ v3 ∷ v4 ∷ v5 ∷ v6 ∷ v7 ∷ v8 ∷ v9 ∷ v10 ∷ v11 ∷ v12 ∷ v13 ∷ v14 ∷ v15 ∷ v16
        ∷ v17 ∷ []) =
    ok (record {
      round_id = v0;
      keygen_cycles = v1;
      encaps_cycles = v2;
      decaps_cycles = v3;
      hkdf_cycles = v4;
      mask_gen_cycles = v5;
      mask_apply_cycles = v6;
      peak_sram = v7;
      min_free_heap = v8;
      largest_free_block = v9;
      stack_high_water = v10;
      heap_zero = not (v14 == 0);
      aggregation_success = v15;
      final_accuracy = v16;
    })
telemetry_of _ = err struct_error

-- Below 60 bytes the dictionary is empty.
unfoldable pub parse_telemetry : Bytes → Result (Option ParsedTelemetry)
parse_telemetry telemetry_bytes =
    if ltb (length telemetry_bytes) 60
    then ok none
    else and_then (unpack_words 14 (take 60 telemetry_bytes))
        (λ values. and_then (telemetry_of values) (λ telemetry. ok (some telemetry)))

-- payload[-64:]
abbrev pub last_64 : Bytes → Bytes
last_64 payload = drop (length payload - 64) payload

-- The body of the loop, once the message is read.
unfoldable pub put_telemetry : MessageHeader → Bytes → Exec (List (Option ParsedTelemetry)) Unit
put_telemetry header payload =
    if header.message_type == 0x41 && leb 64 header.payload_length
    then (do
      telemetry ← lift (parse_telemetry (last_64 payload))
      modify (λ queue. queue ++ (telemetry ∷ [])))
    else pure tt

-- Every exception ends the loop, and none leaves the function.
unfoldable pub handle_telemetry_client : Bytes → Exec (List (Option ParsedTelemetry)) Unit
handle_telemetry_client stream queue =
    let (result, queue') =
      read_loop (λ header payload writer. put_telemetry header payload) (suc (length stream)) stream
        0 queue in
    (ok tt, queue')
