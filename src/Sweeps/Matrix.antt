-- ===== src/Sweeps/Matrix.antt =====
-- The end of the benchmark runs.
use dropout.Prelude.{
  ℕ, suc, ◌+◌, ◌*◌, ◌<◌, ◌≡◌, refl, Bool, false, Option, none, some, List, [], ◌∷◌, length, map,
  All,
}
use dropout.Prelude.Exec.{ok, Error, err}
use dropout.Prelude.Exec.Keeps.{Keeps, keeps_rules, Keeps-pure, except-ok}
use dropout.Metrics.{record_memory, record_network, record_cycles}
use dropout.Metrics.Calls.{csv_error, csv_left, Calls, started, memory, network, cycles}
use dropout.Metrics.Flush.{Written}
use dropout.Benchmarks.{ParsedTelemetry}
use dropout.Sweeps.{RoundResult, Host, Config, Sweep, change_logger}
use dropout.Sweeps.Benchmark.{
  TelemetryServer, ExperimentConfig, stop_telemetry, record_error, record_telemetry, if_received,
  run_benchmark, run_single_round, configs_of, run_experiment_matrix,
}
use dropout.Sweeps.Rounds.{
  Logged, AddsSample, start_process-Logged, start_clients-Logged, terminate-Logged,
  stop_client-Logged, record_outcome-Logged, run_sweep_flushes,
}

module _ (host : Host) (telemetry : TelemetryServer) (files : Written host.Float) where
  module _ (n : ℕ) where
    memory-Logged :
        (peak free block water : ℕ) (heap_zero : Bool)
        → Keeps
            (Logged host files n)
            (change_logger host (record_memory peak free block water heap_zero))
    memory-Logged peak free block water heap_zero = record {
      at = λ s h. (memory peak free block water heap_zero h.0, h.1);
    }

    network-Logged :
        (tx rx packets retransmissions fragments : ℕ)
        → Keeps
            (Logged host files n)
            (change_logger host (record_network tx rx packets retransmissions fragments))
    network-Logged tx rx packets retransmissions fragments = record {
      at = λ s h. (network tx rx packets retransmissions fragments h.0, h.1);
    }

    cycles-Logged :
        (keygen encaps decaps ntt mask_gen masking : ℕ)
        → Keeps
            (Logged host files n)
            (change_logger host (record_cycles keygen encaps decaps ntt mask_gen masking))
    cycles-Logged keygen encaps decaps ntt mask_gen masking = record {
      at = λ s h. (cycles keygen encaps decaps ntt mask_gen masking h.0, h.1);
    }

    record_telemetry-Logged :
        (config : Config host) (t : ParsedTelemetry)
        → Keeps (Logged host files n) (record_telemetry host telemetry config t)
    unfolding record_telemetry
    record_telemetry-Logged config t =
        search (keeps_rules, memory-Logged, network-Logged, cycles-Logged) depth 12

    telemetry-Logged :
        (config : Config host) (received : Option ParsedTelemetry)
        → Keeps (Logged host files n) (if_received host telemetry config received)
    unfolding if_received
    telemetry-Logged config none = Keeps-pure tt
    telemetry-Logged config (some t) = record_telemetry-Logged config t

    stop_telemetry-Logged : Keeps (Logged host files n) (stop_telemetry host telemetry)
    unfolding stop_telemetry
    stop_telemetry-Logged = record {
      at = λ s h. stop (telemetry.task_error s.popen_calls) s refl h;
    }
      where
        stop :
            (raised : Option Error) (s : Sweep host)
            → telemetry.task_error s.popen_calls ≡ raised
            → Logged host files n s
            → Logged host files n (stop_telemetry host telemetry s).1
        stop none s e h = rw (stop_telemetry, e) h
        stop (some x) s e h = rw (stop_telemetry, e) h

    run_benchmark-Logged :
        (config : Config host) (round_num : ℕ) (start : host.Float)
        → Keeps (Logged host files n) (run_benchmark host telemetry config round_num start)
    unfolding run_benchmark
    run_benchmark-Logged config round_num start =
        search
          (
            keeps_rules, start_process-Logged, start_clients-Logged, terminate-Logged,
            stop_client-Logged, record_outcome-Logged, telemetry-Logged, stop_telemetry-Logged,
          )
          depth 30

  module _ (no_error : (calls : ℕ) → telemetry.task_error calls ≡ none) where
    record_error-Logged :
        (n : ℕ) (start : host.Float) (e : Error) (s : Sweep host)
        → Logged host files n s
        → (a : RoundResult host) × ((record_error host telemetry start e s).0 ≡ ok a)
          × Logged host files n (record_error host telemetry start e s).1
    unfolding stop_telemetry
    record_error-Logged n start e s h =
        let latency = host.elapsed_ms start (host.time s.time_calls) in
        let returned : RoundResult host = record {
          success = false;
          error = some e;
          latency_ms = latency;
        } in
        let logged = (record_outcome-Logged host files n start false (host.tenths 0)).at s h in
        (
          returned,
          rw (stop_telemetry, no_error s.popen_calls) refl,
          rw (stop_telemetry, no_error s.popen_calls) logged,
        )

    run_single_round-AddsSample :
        (config : Config host) → AddsSample host files (run_single_round host telemetry config)
    unfolding run_single_round
    run_single_round-AddsSample config n round_num s (calls, same) =
        let start = host.time (suc s.time_calls) in
        except-ok (Logged host files (suc n)) (run_benchmark host telemetry config round_num start)
          (record_error host telemetry start) (run_benchmark-Logged (suc n) config round_num start)
          (record_error-Logged (suc n) start) _ (started _ _ _ _ _ _ _ _ calls, same)

    configs-AddsSample :
        (configs : List (Config host))
        → All (AddsSample host files) (map (run_single_round host telemetry) configs)
    configs-AddsSample [] = tt
    configs-AddsSample (config ∷ configs) =
        (run_single_round-AddsSample config, configs-AddsSample configs)

-- Where the task of the telemetry raises nothing, and whatever telemetry arrives, whatever the clock
-- and the calls of Popen, poll and terminate give, and whether or not the files can be written: a
-- matrix of experiments with at least one round ends with an exception, that of opening or of writing
-- the CSV file if there is one and ValueError otherwise, with one sample more in the logger for every
-- round of every configuration, no row in the CSV file, which is untouched if it cannot be opened, and
-- the JSON file untouched.
pub run_experiment_matrix_raises :
    (host : Host) (telemetry : TelemetryServer) (config : ExperimentConfig host) (n : ℕ)
    (s : Sweep host)
    → ((calls : ℕ) → telemetry.task_error calls ≡ none)
    → Calls (host.tenths 0) n s.logger
    → 0
      < length (map (run_single_round host telemetry) (configs_of host telemetry config))
        * config.rounds_per_config
    → ((run_experiment_matrix host telemetry config s).0 ≡ err (csv_error host.csv_disk))
      × ((length (run_experiment_matrix host telemetry config s).1.logger.samples
            ≡ n
              + length (map (run_single_round host telemetry) (configs_of host telemetry config))
                * config.rounds_per_config)
          × (((run_experiment_matrix host telemetry config s).1.files.csv
                ≡ csv_left host.csv_disk s.files.csv)
              × ((run_experiment_matrix host telemetry config s).1.files.json ≡ s.files.json)))
run_experiment_matrix_raises host telemetry config n s no_error calls some_round =
    let runs = map (run_single_round host telemetry) (configs_of host telemetry config) in
    run_sweep_flushes host runs config.rounds_per_config n s
      (configs-AddsSample host telemetry s.files no_error (configs_of host telemetry config)) calls
      some_round
