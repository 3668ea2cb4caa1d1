-- ===== src/Bridge/Telemetry.antt =====
-- `_collect_telemetry` and `_pack_telemetry`. The accuracy is kept in 255ths, as it is packed; the
-- entries that are never packed are left out, but for those that depend on the round.
use dropout.Prelude.{ℕ, ◌*◌, Bool, false, ◌&&◌, [], ◌∷◌, ◌++◌, ltb, if◌then◌else◌, length}
use dropout.Prelude.Exec.{Result, ok, err, struct_error, and_then}
use dropout.Bytes.{Bytes, be32}
use dropout.Bridge.State.{RoundState}
use dropout.Bridge.Aggregate.{num_chunks_of}

pub record Telemetry : Type 0 where
  pub round_id : ℕ
  pub keygen_cycles : ℕ
  pub encaps_cycles : ℕ
  pub decaps_cycles : ℕ
  pub hkdf_cycles : ℕ
  pub mask_gen_cycles : ℕ
  pub mask_apply_cycles : ℕ
  pub peak_sram : ℕ
  pub min_free_heap : ℕ
  pub largest_free_block : ℕ
  pub stack_high_water : ℕ
  pub heap_zero : Bool
  pub bytes_tx : ℕ
  pub bytes_rx : ℕ
  pub packets : ℕ
  pub retransmissions : ℕ
  pub fragments : ℕ
  pub aggregation_success : ℕ
  pub final_accuracy : ℕ

unfoldable pub collect_telemetry : RoundState → Result Telemetry
collect_telemetry round = and_then (num_chunks_of round.model_size round.chunk_size) (λ num_chunks.
    ok (record {
      round_id = round.round_id;
      keygen_cycles = 0;
      encaps_cycles = 0;
      decaps_cycles = 0;
      hkdf_cycles = 0;
      mask_gen_cycles = 0;
      mask_apply_cycles = 0;
      peak_sram = 0;
      min_free_heap = 0;
      largest_free_block = 0;
      stack_high_water = 0;
      heap_zero = false;
      bytes_tx = round.model_size * length round.clients;
      bytes_rx = round.model_size;
      packets = length round.clients * num_chunks;
      retransmissions = 0;
      fragments = 0;
      aggregation_success = 1;
      final_accuracy = 255;
    }))

u32 : ℕ → Bool
u32 v = ltb v 4294967296

-- ">IIIIIIIIIIIIIIBBBB": fourteen words, of which the last three are 0, and four bytes.
unfoldable pub pack_telemetry : Telemetry → Result Bytes
unfolding u32
pack_telemetry t =
    if u32 t.round_id
      && (u32 t.keygen_cycles
          && (u32 t.encaps_cycles
              && (u32 t.decaps_cycles
                  && (u32 t.hkdf_cycles
                      && (u32 t.mask_gen_cycles
                          && (u32 t.mask_apply_cycles
                              && (u32 t.peak_sram
                                  && (u32 t.min_free_heap
                                      && (u32 t.largest_free_block
                                          && (u32 t.stack_high_water
                                              && (ltb t.aggregation_success 256
                                                  && ltb t.final_accuracy 256)))))))))))
    then ok (
        be32 t.round_id
        ++ (be32 t.keygen_cycles
            ++ (be32 t.encaps_cycles
                ++ (be32 t.decaps_cycles
                    ++ (be32 t.hkdf_cycles
                        ++ (be32 t.mask_gen_cycles
                            ++ (be32 t.mask_apply_cycles
                                ++ (be32 t.peak_sram
                                    ++ (be32 t.min_free_heap
                                        ++ (be32 t.largest_free_block
                                            ++ (be32 t.stack_high_water
                                                ++ (be32 0
                                                    ++ (be32 0
                                                        ++ (be32 0
                                                            ++ ((if t.heap_zero then 1 else 0)
                                                            ∷ t.aggregation_success
                                                            ∷ t.final_accuracy
                                                            ∷ 0
                                                            ∷ [])))))))))))))))
    else err struct_error
