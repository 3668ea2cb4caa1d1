-- ===== src/Metrics/Examples.antt =====
-- A logger with one round, whose result and time are recorded.
use dropout.Prelude.{[], ℕ, ◌≡◌, refl, true, none, some, get_or, ◌/◌}
use dropout.Prelude.Exec.{err, value_error, os_error}
use dropout.Metrics.{
  MetricsLogger, new_logger, start_round, record_timing, record_result, change_at, on_current,
}
use dropout.Metrics.Summary.{Averages, count_successful, sum_peak_sram, get_summary, summary_of}
use dropout.Metrics.Flush.{Disk, Written, flush}
use dropout.Metrics.Calls.{Calls, created, started, timing, result, flush_after_calls}

-- Numbers stand for the floating-point numbers of the example.
abbrev one_round : MetricsLogger ℕ
one_round =
    record_result true 1 (
      record_timing 3500 0 0
        (start_round 0 1000 "server" 0 3 0 1024 128 "pqc" (new_logger "exp_1")))

abbrev no_files : Written ℕ
no_files = record { csv = none; json = none }

one_round_calls : Calls 0 1 one_round
one_round_calls =
    result true 1 (timing 3500 0 0 (started 1000 "server" 0 3 0 1024 128 "pqc" (created "exp_1")))

abbrev good_disk : Disk
good_disk = record { open_error = none; write_error = none }

flushed_once :
    flush good_disk good_disk one_round no_files
    ≡ (err value_error, record { csv = some []; json = none })
flushed_once = (flush_after_calls good_disk good_disk 0 one_round no_files one_round_calls).1.1

-- The CSV file cannot be opened.
flushed_nothing :
    flush (record { open_error = some os_error; write_error = none }) good_disk one_round no_files
    ≡ (err os_error, no_files)
flushed_nothing = (flush_after_calls _ good_disk 0 one_round no_files one_round_calls).1.1

abbrev sample_averages : Averages ℕ
sample_averages = record {
  sum_floats = λ xs. get_or xs 0 0;
  divide = λ a b. a / b;
  quotient = λ a b. a / b;
  zero_float = 0;
}

no_summary : get_summary sample_averages (new_logger "exp_1") ≡ none
unfolding get_summary
no_summary = refl

one_summary :
    get_summary sample_averages one_round
    ≡ some (record {
      run_id = "exp_1";
      total_rounds = 1;
      successful_rounds = 1;
      success_rate = 1;
      avg_latency_ms = 3500;
      avg_peak_sram_bytes = 0;
      crypto_mode = "pqc";
    })
unfolding get_summary summary_of count_successful sum_peak_sram start_round record_timing
    record_result on_current change_at
one_summary = refl
