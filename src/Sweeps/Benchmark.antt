-- ===== src/Sweeps/Benchmark.antt =====
-- The rounds of experiments/run_benchmarks.py, and the matrix of experiments that it runs.
use dropout.Prelude.{
  ℕ, ◌*◌, true, Option, none, some, List, [], ◌∷◌, ◌++◌, map, take, ltb, if◌then◌else◌,
}
use dropout.Prelude.Exec.{Error, ok, err, Exec, pure, lift, gets, for_each, except, ◌>>=◌, ◌>>◌}
use Prim.Native.String.{String}
use dropout.Metrics.{record_memory, record_network, record_cycles}
use dropout.Bridge.Aggregate.{num_chunks_of}
use dropout.Benchmarks.{ParsedTelemetry}
use dropout.Sweeps.{
  Host, Config, Environment, Sweep, RoundResult, Run, start_process, start_clients, terminate,
  stop_client, change_logger, start_sample, read_time, record_outcome, record_failure, run_sweep,
}

pub record ExperimentConfig (host : Host) : Type 0 where
  pub device_counts : List ℕ
  pub dropout_rates : List host.Float
  pub chunk_sizes : List ℕ
  pub crypto_modes : List String
  pub model_sizes : List ℕ
  pub rounds_per_config : ℕ

abbrev pub default_config : (host : Host) → ExperimentConfig host
default_config host = record {
  device_counts = 3 ∷ 5 ∷ 10 ∷ [];
  dropout_rates = host.tenths 0 ∷ host.tenths 1 ∷ host.tenths 3 ∷ [];
  chunk_sizes = 64 ∷ 128 ∷ 256 ∷ 512 ∷ [];
  crypto_modes = "pqc" ∷ "classical" ∷ [];
  model_sizes = 1024 ∷ 10240 ∷ 102400 ∷ [];
  rounds_per_config = 3;
}

-- max(1, int(device_count * dropout_rate))
abbrev pub num_dropout : (host : Host) → ℕ → host.Float → ℕ
num_dropout host device_count rate =
    let n = host.scaled device_count rate in if ltb 1 n then n else 1

-- The body of a loop for each element, one after the other.
unfoldable pub for_all : {A B : Type 0} → (A → List B) → List A → List B
for_all f [] = []
for_all f (x ∷ xs) = f x ++ for_all f xs

-- The server of the telemetry in a round, by the number of the calls of Popen before its end: what its
-- queue gives within a second, and what its task raises, once it is cancelled, other than
-- CancelledError.
pub record TelemetryServer : Type 0 where
  pub received : ℕ → Option ParsedTelemetry
  pub task_error : ℕ → Option Error

module _ (host : Host) (telemetry : TelemetryServer) where
  -- telemetry_task.cancel() and await telemetry_task
  unfoldable pub stop_telemetry : Exec (Sweep host) Unit
  stop_telemetry s = elim (telemetry.task_error s.popen_calls) [
    | none ↦ (ok tt, s)
    | some e ↦ (err e, s)
  ]

  unfoldable pub record_telemetry : Config host → ParsedTelemetry → Exec (Sweep host) Unit
  record_telemetry config t = do
    change_logger host (
        record_memory t.peak_sram t.min_free_heap t.largest_free_block t.stack_high_water
          t.heap_zero)
    num_chunks ← lift (num_chunks_of config.model_size_bytes config.chunk_size_bytes)
    change_logger host (
        record_network (config.model_size_bytes * config.num_clients) config.model_size_bytes
          (config.num_clients * num_chunks) 0 0)
    change_logger host (
        record_cycles t.keygen_cycles t.encaps_cycles t.decaps_cycles t.hkdf_cycles
          t.mask_gen_cycles t.mask_apply_cycles)

  -- if telemetry: ...
  unfoldable pub if_received : Config host → Option ParsedTelemetry → Exec (Sweep host) Unit
  if_received config none = pure tt
  if_received config (some t) = record_telemetry config t

  -- The `try` block.
  unfoldable pub run_benchmark : Config host → ℕ → host.Float → Exec (Sweep host) (RoundResult host)
  run_benchmark config round_num start = do
    let env : Environment host = record { config = config; round_num = round_num; client_id = none }
    server ← start_process host env
    clients ← start_clients host env 0 config.num_clients
    if host.is_positive config.dropout_rate
        then for_each (take (num_dropout host config.num_clients config.dropout_rate) clients)
            (terminate host)
        else pure tt
    received ← gets (λ s. telemetry.received s.popen_calls)
    latency ← record_outcome host start true (host.tenths 10)
    if_received config received
    terminate host server
    for_each clients (stop_client host)
    stop_telemetry
    pure (record { success = true; error = none; latency_ms = latency })

  -- The handler of its exceptions, from which a failed task of the telemetry escapes.
  abbrev pub record_error : host.Float → Error → Exec (Sweep host) (RoundResult host)
  record_error start e = do result ← record_failure host start e; stop_telemetry; pure result

  unfoldable pub run_single_round : Config host → Run host
  run_single_round config round_num = do
    start_sample host config round_num
    start ← read_time host
    except (run_benchmark config round_num start) (record_error start)

  abbrev pub config_of : ℕ → host.Float → ℕ → String → ℕ → Config host
  config_of device_count dropout_rate chunk_size crypto_mode model_size = record {
    num_clients = device_count;
    dropout_rate = dropout_rate;
    model_size_bytes = model_size;
    chunk_size_bytes = chunk_size;
    crypto_mode = crypto_mode;
    sample_mode = crypto_mode;
    kem_variant = none;
  }

  -- The configurations of the nested loops.
  unfoldable pub configs_of : ExperimentConfig host → List (Config host)
  configs_of config =
      for_all
        (λ devices.
          for_all
            (λ rate.
              for_all
                (λ chunk.
                  for_all
                    (λ mode.
                      map (λ size. config_of devices rate chunk mode size) config.model_sizes)
                    config.crypto_modes)
                config.chunk_sizes)
            config.dropout_rates)
        config.device_counts

  abbrev pub run_experiment_matrix : ExperimentConfig host → Exec (Sweep host) Unit
  run_experiment_matrix config =
      run_sweep host (map run_single_round (configs_of config)) config.rounds_per_config
