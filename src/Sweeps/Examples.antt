-- ===== src/Sweeps/Examples.antt =====
-- A sweep in which the first two rounds find no server to start.
use dropout.Prelude.{
  refl, ℕ, ◌<◌, ◌+◌, ◌*◌, ◌-◌, ◌≡◌, arith, false, none, some, [], ◌∷◌, length, map, ltb,
  if◌then◌else◌,
}
use dropout.Prelude.Exec.{err, runtime_error, value_error}
use dropout.Metrics.{new_logger}
use dropout.Metrics.Calls.{created}
use dropout.Sweeps.{Host, Config, Sweep, run_config, run_sweep}
use dropout.Sweeps.Benchmark.{
  TelemetryServer, for_all, ExperimentConfig, run_single_round, configs_of, run_experiment_matrix,
}
use dropout.Sweeps.Matrix.{run_experiment_matrix_raises}
use dropout.Sweeps.Rounds.{run_sweep_raises}

-- Numbers stand for floating-point numbers.
abbrev sample_host : Host
sample_host = record {
  Float = ℕ;
  tenths = λ n. n;
  time = λ call. call;
  elapsed_ms = λ earlier later. (later - earlier) * 1000;
  is_positive = λ rate. ltb 0 rate;
  scaled = λ n rate. n * rate;
  popen_error = λ call. if ltb call 2 then some runtime_error else none;
  has_ended = λ call. false;
  terminate_error = λ call. none;
  csv_disk = record { open_error = none; write_error = none };
  json_disk = record { open_error = none; write_error = none };
}

abbrev sample_config : Config sample_host
sample_config = record {
  num_clients = 2;
  dropout_rate = 0;
  model_size_bytes = 1024;
  chunk_size_bytes = 128;
  crypto_mode = "pqc";
  sample_mode = "pqc";
  kem_variant = none;
}

abbrev fresh : Sweep sample_host
fresh = record {
  logger = new_logger "sweep_1";
  time_calls = 0;
  popen_calls = 0;
  started = [];
  terminated = [];
  files = record { csv = none; json = none };
}

run_sweep_raises_example :
    ((run_sweep sample_host (map (run_config sample_host) (sample_config ∷ [])) 3 fresh).0
      ≡ err value_error)
    × ((length
            (run_sweep sample_host
              (map (run_config sample_host) (sample_config ∷ []))
              3
              fresh).1.logger.samples
          ≡ 0 + length (map (run_config sample_host) (sample_config ∷ [])) * 3)
        × (((run_sweep sample_host
                (map (run_config sample_host) (sample_config ∷ []))
                3
                fresh).1.files.csv
              ≡ some [])
            × ((run_sweep sample_host
                  (map (run_config sample_host) (sample_config ∷ []))
                  3
                  fresh).1.files.json
                ≡ none)))
run_sweep_raises_example =
    run_sweep_raises sample_host (sample_config ∷ []) 3 0 fresh (created "sweep_1") (omega arith)

abbrev one_experiment : ExperimentConfig sample_host
one_experiment = record {
  device_counts = 2 ∷ [];
  dropout_rates = 0 ∷ [];
  chunk_sizes = 128 ∷ [];
  crypto_modes = "pqc" ∷ [];
  model_sizes = 1024 ∷ [];
  rounds_per_config = 2;
}

-- No telemetry arrives.
abbrev silence : TelemetryServer
silence = record { received = λ calls. none; task_error = λ calls. none }

some_round :
    0
    < length
        (map (run_single_round sample_host silence) (configs_of sample_host silence one_experiment))
      * 2
unfolding configs_of for_all
some_round = omega arith

run_experiment_matrix_raises_example :
    ((run_experiment_matrix sample_host silence one_experiment fresh).0 ≡ err value_error)
    × ((length (run_experiment_matrix sample_host silence one_experiment fresh).1.logger.samples
          ≡ 0
            + length (
                map
                  (run_single_round sample_host silence)
                  (configs_of sample_host silence one_experiment))
              * 2)
        × (((run_experiment_matrix sample_host silence one_experiment fresh).1.files.csv ≡ some [])
            × ((run_experiment_matrix sample_host silence one_experiment fresh).1.files.json
                ≡ none)))
run_experiment_matrix_raises_example =
    run_experiment_matrix_raises sample_host silence one_experiment 0 fresh (λ calls. refl)
      (created "sweep_1") some_round
