-- ===== src/Metrics/Calls.antt =====
-- The calls of a MetricsLogger, and what its `flush` does after them.
use dropout.Prelude.{
  ℕ, zero, suc, ◌≡◌, refl, ap, ◌∙◌, arith, Bool, Option, none, some, List, [], ◌∷◌, ◌++◌, length,
  length-append,
}
use dropout.Prelude.Exec.{Error, Exec, err, value_error, for_each}
use Prim.Native.String.{String}
use dropout.Metrics.{
  MetricSample, MetricsLogger, new_logger, change_at, on_current, start_round, record_cycles,
  record_memory, record_network, record_timing, record_result,
}
use dropout.Metrics.Flush.{Written, Disk, has_name, all_named, write_row, write_csv, flush}

-- The loggers that calls lead to, by the number of rounds that were started.
pub data Calls {Float : Type 0} (zero_float : Float) : ℕ → MetricsLogger Float → Type 0 where
  created : (run_id : String) → Calls zero_float 0 (new_logger run_id)
  started :
      {n : ℕ} {s : MetricsLogger Float} (now : Float) (device_id : String)
      (round_id num_clients : ℕ) (dropout_rate : Float) (model_size_bytes chunk_size_bytes : ℕ)
      (crypto_mode : String)
      → Calls zero_float n s
      → Calls zero_float (suc n) (
          start_round zero_float now device_id round_id num_clients dropout_rate model_size_bytes
            chunk_size_bytes crypto_mode s)
  cycles :
      {n : ℕ} {s : MetricsLogger Float} (keygen encaps decaps ntt mask_gen masking : ℕ)
      → Calls zero_float n s
      → Calls zero_float n (record_cycles keygen encaps decaps ntt mask_gen masking s)
  memory :
      {n : ℕ} {s : MetricsLogger Float} (peak free block water : ℕ) (heap_zero : Bool)
      → Calls zero_float n s
      → Calls zero_float n (record_memory peak free block water heap_zero s)
  network :
      {n : ℕ} {s : MetricsLogger Float} (bytes_tx bytes_rx packets retransmissions fragments : ℕ)
      → Calls zero_float n s
      → Calls zero_float n (record_network bytes_tx bytes_rx packets retransmissions fragments s)
  timing :
      {n : ℕ} {s : MetricsLogger Float} (round detection recovery : Float)
      → Calls zero_float n s
      → Calls zero_float n (record_timing round detection recovery s)
  result :
      {n : ℕ} {s : MetricsLogger Float} (success : Bool) (accuracy : Float)
      → Calls zero_float n s
      → Calls zero_float n (record_result success accuracy s)

-- The exception of a `flush` of samples: of opening the CSV file, of writing it, or for the first row.
abbrev pub csv_error : Disk → Error
csv_error csv_disk = elim csv_disk.open_error [
  | some e ↦ e
  | none ↦ elim csv_disk.write_error [ some e ↦ e | none ↦ value_error ]
]

-- The place of the last of `n` samples.
abbrev pub last_place : ℕ → Option ℕ
last_place zero = none
last_place (suc n) = some n

abbrev HasRounds : {Float : Type 0} → ℕ → MetricsLogger Float → Type 0
HasRounds n s = (length s.samples ≡ n) × (s.current_sample ≡ last_place n)

length-last : {A : Type 0} (xs : List A) (a : A) → length (xs ++ (a ∷ [])) ≡ suc (length xs)
length-last xs a = let e = length-append xs (a ∷ []) in omega arith

module _ {Float : Type 0} where
  length-change_at :
      (i : ℕ) (f : MetricSample Float → MetricSample Float) (samples : List (MetricSample Float))
      → length (change_at i f samples) ≡ length samples
  unfolding change_at
  length-change_at i f [] = refl
  length-change_at zero f (sample ∷ samples) = refl
  length-change_at (suc i) f (sample ∷ samples) = ap suc (length-change_at i f samples)

  on_current-HasRounds :
      (n : ℕ) (f : MetricSample Float → MetricSample Float) (s : MetricsLogger Float)
      → HasRounds n s
      → HasRounds n (on_current f s)
  unfolding on_current
  on_current-HasRounds zero f s (size, place) = rw (on_current, place) (size, place)
  on_current-HasRounds (suc n) f s (size, place) =
      rw (on_current, place) (length-change_at n f s.samples ∙ size, place)

  module _ {zero_float : Float} where
    Calls-HasRounds : {n : ℕ} {s : MetricsLogger Float} → Calls zero_float n s → HasRounds n s
    unfolding start_round record_cycles record_memory record_network record_timing record_result
    Calls-HasRounds (created run_id) = (refl, refl)
    Calls-HasRounds (started {s} now device round clients rate model chunk mode calls) =
        let (size, place) = Calls-HasRounds calls in
        (length-last s.samples _ ∙ ap suc size, ap some size)
    Calls-HasRounds (cycles a b c d e f calls) = on_current-HasRounds _ _ _ (Calls-HasRounds calls)
    Calls-HasRounds (memory a b c d e calls) = on_current-HasRounds _ _ _ (Calls-HasRounds calls)
    Calls-HasRounds (network a b c d e calls) = on_current-HasRounds _ _ _ (Calls-HasRounds calls)
    Calls-HasRounds (timing a b c calls) = on_current-HasRounds _ _ _ (Calls-HasRounds calls)
    Calls-HasRounds (result a b calls) = on_current-HasRounds _ _ _ (Calls-HasRounds calls)

  -- What the CSV file is left with, from what it was.
  abbrev pub csv_left :
      Disk → Option (List (MetricSample Float)) → Option (List (MetricSample Float))
  csv_left csv_disk before = elim csv_disk.open_error [ some e ↦ before | none ↦ some [] ]

  -- What `flush` comes to when there are samples.
  abbrev pub flushed : Disk → Exec (Written Float) Unit
  flushed csv_disk files =
      (err (csv_error csv_disk), record files { csv = csv_left csv_disk files.csv })

  flush_rows :
      (csv_disk json_disk : Disk) (s : MetricsLogger Float) (sample : MetricSample Float)
      (samples : List (MetricSample Float)) (files : Written Float)
      → s.samples ≡ sample ∷ samples
      → flush csv_disk json_disk s files ≡ flushed csv_disk files
  unfolding flush write_csv for_each write_row has_name all_named
  flush_rows csv_disk json_disk s sample samples files same =
      opened csv_disk.open_error csv_disk.write_error refl refl
    where
      opened :
          (o w : Option Error)
          → csv_disk.open_error ≡ o
          → csv_disk.write_error ≡ w
          → flush csv_disk json_disk s files ≡ flushed csv_disk files
      opened (some e) w is_o is_w = rw (flush, is_o) refl
      opened none (some e) is_o is_w = rw (flush, write_csv, is_o, is_w, same) refl
      opened none none is_o is_w = rw (flush, write_csv, is_o, is_w, same) refl

  some_samples :
      (n : ℕ) (samples : List (MetricSample Float))
      → length samples ≡ suc n
      → (sample : MetricSample Float) × (rest : List (MetricSample Float)) × (samples
          ≡ sample ∷ rest)
  some_samples n [] size = absurd (omega arith)
  some_samples n (sample ∷ rest) size = (sample, rest, refl)

  -- A logger that calls lead to has one sample for each round that was started, and its current
  -- sample is the last of them. With any round `flush` raises: what the CSV file raises, or else
  -- ValueError, with no row in the CSV file and the JSON file untouched.
  pub flush_after_calls :
      {zero_float : Float} (csv_disk json_disk : Disk) (n : ℕ) (s : MetricsLogger Float)
      (files : Written Float)
      → Calls zero_float (suc n) s
      → (length s.samples ≡ suc n)
        × ((s.current_sample ≡ some n)
            × (flush csv_disk json_disk s files ≡ flushed csv_disk files))
  flush_after_calls csv_disk json_disk n s files calls =
      let (size, place) = Calls-HasRounds calls in
      let (sample, rest, same) = some_samples n s.samples size in
      (size, (place, flush_rows csv_disk json_disk s sample rest files same))
