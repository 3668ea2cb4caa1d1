-- ===== src/Metrics/Flush.antt =====
-- `flush` of MetricsLogger in experiments/metrics_logger.py, which writes the samples to two files.
use dropout.Prelude.{Bool, true, false, Option, none, some, List, [], ◌∷◌, ◌++◌, if◌then◌else◌}
use dropout.Prelude.Exec.{Error, Exec, err, value_error, raise, modify, for_each, ◌>>◌}
use Prim.Native.String.{String}
use text.Mathlib.Text.{◌==◌ as str_eq}
use dropout.Metrics.{MetricSample, MetricsLogger}

-- dir(MetricSample) without the names that start with an underscore: a field of a dataclass is an
-- attribute of the class only if it has a default.
abbrev pub fieldnames : List String
fieldnames =
    "keygen_cycles" ∷ "encapsulation_cycles" ∷ "decapsulation_cycles" ∷ "ntt_cycles"
    ∷ "mask_generation_cycles" ∷ "masking_cycles" ∷ "peak_sram_bytes" ∷ "minimum_free_heap_bytes"
    ∷ "largest_free_heap_block_bytes" ∷ "task_stack_high_water_bytes" ∷ "heap_zero_confirmed"
    ∷ "bytes_tx" ∷ "bytes_rx" ∷ "packet_count" ∷ "retransmissions" ∷ "fragment_count"
    ∷ "round_latency_ms" ∷ "dropout_detection_ms" ∷ "recovery_latency_ms" ∷ "aggregation_success"
    ∷ "final_accuracy" ∷ []

-- The keys of asdict(sample).
abbrev pub sample_keys : List String
sample_keys =
    "timestamp" ∷ "run_id" ∷ "device_id" ∷ "round_id" ∷ "num_clients" ∷ "dropout_rate"
    ∷ "model_size_bytes" ∷ "chunk_size_bytes" ∷ "crypto_mode" ∷ "keygen_cycles"
    ∷ "encapsulation_cycles" ∷ "decapsulation_cycles" ∷ "ntt_cycles" ∷ "mask_generation_cycles"
    ∷ "masking_cycles" ∷ "peak_sram_bytes" ∷ "minimum_free_heap_bytes"
    ∷ "largest_free_heap_block_bytes" ∷ "task_stack_high_water_bytes" ∷ "heap_zero_confirmed"
    ∷ "bytes_tx" ∷ "bytes_rx" ∷ "packet_count" ∷ "retransmissions" ∷ "fragment_count"
    ∷ "round_latency_ms" ∷ "dropout_detection_ms" ∷ "recovery_latency_ms" ∷ "aggregation_success"
    ∷ "final_accuracy" ∷ []

unfoldable pub has_name : String → List String → Bool
has_name key [] = false
has_name key (name ∷ names) = if str_eq key name then true else has_name key names

unfoldable pub all_named : List String → List String → Bool
all_named [] names = true
all_named (key ∷ keys) names = if has_name key names then all_named keys names else false

-- What was handed to the two files that `flush` writes, `none` for a file that was not opened.
pub record Written (Float : Type 0) : Type 0 where
  pub csv : Option (List (MetricSample Float))
  pub json : Option (List (MetricSample Float))

-- What the operating system raises, if anything, for one file: for open(), and for the writing up to
-- the end of the `with` block.
pub record Disk : Type 0 where
  pub open_error : Option Error
  pub write_error : Option Error

abbrev add_row :
    {Float : Type 0}
    → MetricSample Float
    → Option (List (MetricSample Float))
    → Option (List (MetricSample Float))
add_row sample none = none
add_row sample (some rows) = some (rows ++ (sample ∷ []))

module _ {Float : Type 0} where
  -- writer.writerow(asdict(sample)): a DictWriter raises ValueError for a key that it has no name for.
  unfoldable pub write_row : MetricSample Float → Exec (Written Float) Unit
  write_row sample =
      if all_named sample_keys fieldnames
      then modify (λ files. record files { csv = add_row sample files.csv })
      else raise value_error

  -- with open(path, 'w') as f: body
  abbrev with_open : Disk → Exec (Written Float) Unit → Exec (Written Float) Unit
  with_open disk body files = elim disk.open_error [
    | some e ↦ (err e, files)
    | none ↦ elim disk.write_error [ none ↦ body files | some e ↦ (err e, (body files).1) ]
  ]

  -- Opening a file empties it.
  unfoldable pub write_csv : MetricsLogger Float → Exec (Written Float) Unit
  write_csv s = do modify (λ files. record files { csv = some [] }); for_each s.samples write_row

  unfoldable pub flush : Disk → Disk → MetricsLogger Float → Exec (Written Float) Unit
  flush csv_disk json_disk s = do
    with_open csv_disk (write_csv s)
    with_open json_disk (modify (λ files. record files { json = some s.samples }))
