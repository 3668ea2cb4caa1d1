-- ===== src/Benchmarks/Examples.antt =====
-- The telemetry of the sample round, after a chunk of two elements.
use dropout.Prelude.{◌≡◌, refl, false, some, [], ◌∷◌, ◌++◌}
use dropout.Prelude.Exec.{ok}
use dropout.Bytes.{Bytes, from_be32}
use dropout.Wire.{MessageHeader}
use dropout.Bridge.Telemetry.{Telemetry, pack_telemetry}
use dropout.Benchmarks.{put_telemetry}
use dropout.Benchmarks.Misread.{misread, put_telemetry_misreads}

abbrev measured : Telemetry
measured = record {
  round_id = 7;
  keygen_cycles = 300;
  encaps_cycles = 0;
  decaps_cycles = 0;
  hkdf_cycles = 0;
  mask_gen_cycles = 0;
  mask_apply_cycles = 0;
  peak_sram = 65536;
  min_free_heap = 0;
  largest_free_block = 0;
  stack_high_water = 0;
  heap_zero = false;
  bytes_tx = 8;
  bytes_rx = 4;
  packets = 2;
  retransmissions = 0;
  fragments = 0;
  aggregation_success = 1;
  final_accuracy = 255;
}

abbrev measured_bytes : Bytes
measured_bytes =
    0 ∷ 0 ∷ 0 ∷ 7 ∷ 0 ∷ 0 ∷ 1 ∷ 44 ∷ 0 ∷ 0 ∷ 0 ∷ 0 ∷ 0 ∷ 0 ∷ 0 ∷ 0 ∷ 0 ∷ 0 ∷ 0 ∷ 0 ∷ 0 ∷ 0 ∷ 0 ∷ 0
    ∷ 0 ∷ 0 ∷ 0 ∷ 0 ∷ 0 ∷ 1 ∷ 0 ∷ 0 ∷ 0 ∷ 0 ∷ 0 ∷ 0 ∷ 0 ∷ 0 ∷ 0 ∷ 0 ∷ 0 ∷ 0 ∷ 0 ∷ 0 ∷ 0 ∷ 0 ∷ 0 ∷ 0
    ∷ 0 ∷ 0 ∷ 0 ∷ 0 ∷ 0 ∷ 0 ∷ 0 ∷ 0 ∷ 0 ∷ 1 ∷ 255 ∷ 0 ∷ []

measured_packed : pack_telemetry measured ≡ ok measured_bytes
unfolding pack_telemetry
measured_packed = refl

abbrev last_chunk : MessageHeader
last_chunk = record {
  protocol_version = 65536;
  round_id = 7;
  client_id = 0;
  message_type = 0x41;
  sequence_number = 1;
  payload_length = 64;
  reserved = 0;
}

put_telemetry_misreads_example :
    put_telemetry last_chunk ([] ++ (0 ∷ 1 ∷ 2 ∷ 3 ∷ measured_bytes)) []
    ≡ (ok tt, [] ++ (some (misread (from_be32 0 1 2 3) measured) ∷ []))
put_telemetry_misreads_example =
    put_telemetry_misreads last_chunk [] 0 1 2 3 measured measured_bytes [] refl refl
      measured_packed
