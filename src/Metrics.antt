-- ===== src/Metrics.antt =====
-- The samples of experiments/metrics_logger.py: MetricsLogger, on the upper side of the merge. The
-- lock and the clock are left out; floating-point numbers are a parameter.
pub mod Flush
pub mod Summary
pub mod Calls
pub mod Examples
use dropout.Prelude.{
  ℕ, zero, suc, ◌+◌, ◌-◌, Bool, true, false, ◌&&◌, Option, none, some, List, [], ◌∷◌, ◌++◌,
  if◌then◌else◌, length,
}
use dropout.Prelude.Exec.{Exec, value_error, pure, raise, modify, for_each, ◌>>◌, ◌>>=◌}
use Prim.Native.String.{String}
use text.Mathlib.Text.{◌==◌ as str_eq}

pub record MetricSample (Float : Type 0) : Type 0 where
  pub timestamp : Float
  pub run_id : String
  pub device_id : String
  pub round_id : ℕ
  pub num_clients : ℕ
  pub dropout_rate : Float
  pub model_size_bytes : ℕ
  pub chunk_size_bytes : ℕ
  pub crypto_mode : String
  pub keygen_cycles : ℕ
  pub encapsulation_cycles : ℕ
  pub decapsulation_cycles : ℕ
  pub ntt_cycles : ℕ
  pub mask_generation_cycles : ℕ
  pub masking_cycles : ℕ
  pub peak_sram_bytes : ℕ
  pub minimum_free_heap_bytes : ℕ
  pub largest_free_heap_block_bytes : ℕ
  pub task_stack_high_water_bytes : ℕ
  pub heap_zero_confirmed : Bool
  pub bytes_tx : ℕ
  pub bytes_rx : ℕ
  pub packet_count : ℕ
  pub retransmissions : ℕ
  pub fragment_count : ℕ
  pub round_latency_ms : Float
  pub dropout_detection_ms : Float
  pub recovery_latency_ms : Float
  pub aggregation_success : Bool
  pub final_accuracy : Float

-- The last sample is the object that `current_sample` names: it is kept by its place in `samples`.
pub record MetricsLogger (Float : Type 0) : Type 0 where
  pub run_id : String
  pub samples : List (MetricSample Float)
  pub current_sample : Option ℕ

abbrev pub new_logger : {Float : Type 0} → String → MetricsLogger Float
new_logger run_id = record { run_id = run_id; samples = []; current_sample = none }

-- A change of the sample at a place.
unfoldable pub change_at :
    {Float : Type 0}
    → ℕ
    → (MetricSample Float → MetricSample Float)
    → List (MetricSample Float)
    → List (MetricSample Float)
change_at i f [] = []
change_at zero f (sample ∷ samples) = f sample ∷ samples
change_at (suc i) f (sample ∷ samples) = sample ∷ change_at i f samples

-- if self.current_sample: ...
unfoldable pub on_current :
    {Float : Type 0}
    → (MetricSample Float → MetricSample Float)
    → MetricsLogger Float
    → MetricsLogger Float
on_current f s = elim s.current_sample [
  | none ↦ s
  | some i ↦ record s { samples = change_at i f s.samples }
]

module _ {Float : Type 0} where
  unfoldable pub start_round :
      Float
      → Float
      → String
      → ℕ
      → ℕ
      → Float
      → ℕ
      → ℕ
      → String
      → MetricsLogger Float
      → MetricsLogger Float
  start_round zero_float now device_id round_id num_clients dropout_rate model_size_bytes
        chunk_size_bytes crypto_mode s =
      record s {
        samples = s.samples ++ (new_sample ∷ []);
        current_sample = some (length s.samples);
      }
    where
      new_sample : MetricSample Float
      new_sample = record {
        timestamp = now;
        run_id = s.run_id;
        device_id = device_id;
        round_id = round_id;
        num_clients = num_clients;
        dropout_rate = dropout_rate;
        model_size_bytes = model_size_bytes;
        chunk_size_bytes = chunk_size_bytes;
        crypto_mode = crypto_mode;
        keygen_cycles = 0;
        encapsulation_cycles = 0;
        decapsulation_cycles = 0;
        ntt_cycles = 0;
        mask_generation_cycles = 0;
        masking_cycles = 0;
        peak_sram_bytes = 0;
        minimum_free_heap_bytes = 0;
        largest_free_heap_block_bytes = 0;
        task_stack_high_water_bytes = 0;
        heap_zero_confirmed = false;
        bytes_tx = 0;
        bytes_rx = 0;
        packet_count = 0;
        retransmissions = 0;
        fragment_count = 0;
        round_latency_ms = zero_float;
        dropout_detection_ms = zero_float;
        recovery_latency_ms = zero_float;
        aggregation_success = false;
        final_accuracy = zero_float;
      }

  unfoldable pub record_cycles : ℕ → ℕ → ℕ → ℕ → ℕ → ℕ → MetricsLogger Float → MetricsLogger Float
  record_cycles keygen encaps decaps ntt mask_gen masking = on_current (λ sample. record sample {
    keygen_cycles = keygen;
    encapsulation_cycles = encaps;
    decapsulation_cycles = decaps;
    ntt_cycles = ntt;
    mask_generation_cycles = mask_gen;
    masking_cycles = masking;
  })

  unfoldable pub record_memory : ℕ → ℕ → ℕ → ℕ → Bool → MetricsLogger Float → MetricsLogger Float
  record_memory peak_sram min_free_heap largest_free_block stack_high_water heap_zero =
      on_current (λ sample. record sample {
        peak_sram_bytes = peak_sram;
        minimum_free_heap_bytes = min_free_heap;
        largest_free_heap_block_bytes = largest_free_block;
        task_stack_high_water_bytes = stack_high_water;
        heap_zero_confirmed = heap_zero;
      })

  unfoldable pub record_network : ℕ → ℕ → ℕ → ℕ → ℕ → MetricsLogger Float → MetricsLogger Float
  record_network bytes_tx bytes_rx packets retransmissions fragments = on_current (λ sample.
      record sample {
        bytes_tx = bytes_tx;
        bytes_rx = bytes_rx;
        packet_count = packets;
        retransmissions = retransmissions;
        fragment_count = fragments;
      })

  unfoldable pub record_timing : Float → Float → Float → MetricsLogger Float → MetricsLogger Float
  record_timing round_latency dropout_detection recovery_latency = on_current (λ sample.
      record sample {
        round_latency_ms = round_latency;
        dropout_detection_ms = dropout_detection;
        recovery_latency_ms = recovery_latency;
      })

  unfoldable pub record_result : Bool → Float → MetricsLogger Float → MetricsLogger Float
  record_result success accuracy =
      on_current
        (λ sample. record sample { aggregation_success = success; final_accuracy = accuracy })
