-- ===== src/Sweeps.antt =====
-- The rounds of the scripts in experiments/scripts/ that vary one parameter, run_dropout_sweep.py,
-- run_model_scaling.py, run_chunk_optimization.py and run_variant_comparison.py: they differ by their
-- constants. Processes, the files, the clock and floating-point numbers are a parameter; the pauses
-- and what is printed are left out.
pub mod Scripts
pub mod Rounds
pub mod Benchmark
pub mod Matrix
pub mod Examples
use dropout.Prelude.{
  ℕ, zero, suc, ◌+◌, Bool, true, false, Option, none, some, List, [], ◌∷◌, ◌++◌, ◌==◌,
  if◌then◌else◌,
}
use dropout.Prelude.Exec.{
  Error, Exec, ok, err, pure, raise, gets, modify, for_each, except, ◌>>=◌, ◌>>◌,
}
use Prim.Native.String.{String}
use dropout.Metrics.Flush.{Disk, Written, flush}
use dropout.Metrics.{MetricsLogger, start_round, record_timing, record_result}

pub record Host : Type 1 where
  pub Float : Type 0
  -- The literal of a number of tenths.
  pub tenths : ℕ → Float
  -- time.time() at its n-th call, and (later - earlier) * 1000.
  pub time : ℕ → Float
  pub elapsed_ms : Float → Float → Float
  -- rate > 0, and int(n * rate).
  pub is_positive : Float → Bool
  pub scaled : ℕ → Float → ℕ
  -- What the n-th call of subprocess.Popen raises, if anything, and whether poll() of the process
  -- that it gave finds it ended.
  pub popen_error : ℕ → Option Error
  pub has_ended : ℕ → Bool
  -- What terminate() of a process raises, if anything.
  pub terminate_error : ℕ → Option Error
  -- The files of the logger.
  pub csv_disk : Disk
  pub json_disk : Disk

-- What a round is run with: `crypto_mode` goes to the processes, `sample_mode` into the sample. The
-- variant is that of run_variant_comparison.py.
pub record Config (host : Host) : Type 0 where
  pub num_clients : ℕ
  pub dropout_rate : host.Float
  pub model_size_bytes : ℕ
  pub chunk_size_bytes : ℕ
  pub crypto_mode : String
  pub sample_mode : String
  pub kem_variant : Option String

-- The environment of a process, with the CLIENT_ID of a client.
pub record Environment (host : Host) : Type 0 where
  pub config : Config host
  pub round_num : ℕ
  pub client_id : Option ℕ

-- A process is named by the call of Popen that gave it; `files` are those that the logger writes.
pub record Sweep (host : Host) : Type 0 where
  pub logger : MetricsLogger host.Float
  pub time_calls : ℕ
  pub popen_calls : ℕ
  pub started : List (ℕ × Environment host)
  pub terminated : List ℕ
  pub files : Written host.Float

pub record RoundResult (host : Host) : Type 0 where
  pub success : Bool
  pub error : Option Error
  pub latency_ms : host.Float

module _ (host : Host) where
  abbrev pub read_time : Exec (Sweep host) host.Float
  read_time s = (ok (host.time s.time_calls), record s { time_calls = suc s.time_calls })

  abbrev pub change_logger :
      (MetricsLogger host.Float → MetricsLogger host.Float) → Exec (Sweep host) Unit
  change_logger f = modify (λ s. record s { logger = f s.logger })

  -- subprocess.Popen(...)
  unfoldable pub start_process : Environment host → Exec (Sweep host) ℕ
  start_process env s =
      let k = s.popen_calls in
      elim (host.popen_error k) [
        | some e ↦ (err e, record s { popen_calls = suc k })
        | none ↦ (ok k, record s { popen_calls = suc k; started = s.started ++ ((k, env) ∷ []) })
      ]

  -- for i in range(n), from `i` on.
  unfoldable pub start_clients : Environment host → ℕ → ℕ → Exec (Sweep host) (List ℕ)
  start_clients env i zero = pure []
  start_clients env i (suc left) = do
    proc ← start_process (record env { client_id = some (i + 1) })
    procs ← start_clients env (suc i) left
    pure (proc ∷ procs)

  -- proc.terminate()
  unfoldable pub terminate : ℕ → Exec (Sweep host) Unit
  terminate k s = elim (host.terminate_error k) [
    | some e ↦ (err e, s)
    | none ↦ (ok tt, record s { terminated = s.terminated ++ (k ∷ []) })
  ]

  -- if proc.poll() is None: proc.terminate()
  abbrev pub stop_client : ℕ → Exec (Sweep host) Unit
  stop_client k = if host.has_ended k then pure tt else terminate k

  abbrev pub start_sample : Config host → ℕ → Exec (Sweep host) Unit
  start_sample config round_num = do
    now ← read_time
    change_logger (
        start_round (host.tenths 0) now "server" round_num config.num_clients config.dropout_rate
          config.model_size_bytes config.chunk_size_bytes config.sample_mode)

  -- The end of a round, with its latency.
  abbrev pub record_outcome : host.Float → Bool → host.Float → Exec (Sweep host) host.Float
  record_outcome start success accuracy = do
    now ← read_time
    change_logger (record_timing (host.elapsed_ms start now) (host.tenths 0) (host.tenths 0))
    change_logger (record_result success accuracy)
    pure (host.elapsed_ms start now)

  -- The `try` block.
  unfoldable pub run_processes : Config host → ℕ → host.Float → Exec (Sweep host) (RoundResult host)
  run_processes config round_num start = do
    let env : Environment host = record { config = config; round_num = round_num; client_id = none }
    server ← start_process env
    clients ← start_clients env 0 config.num_clients
    latency ← record_outcome start true (host.tenths 10)
    terminate server
    for_each clients stop_client
    pure (record { success = true; error = none; latency_ms = latency })

  -- The handler of its exceptions: the processes that were started are left alone.
  abbrev pub record_failure : host.Float → Error → Exec (Sweep host) (RoundResult host)
  record_failure start e = do
    latency ← record_outcome start false (host.tenths 0)
    pure (record { success = false; error = some e; latency_ms = latency })

  -- run_dropout_rate, run_model_size, run_chunk_size and run_variant.
  unfoldable pub run_config : Config host → ℕ → Exec (Sweep host) (RoundResult host)
  run_config config round_num = do
    start_sample config round_num
    start ← read_time
    except (run_processes config round_num start) (record_failure start)

  abbrev pub Run : Type 0
  Run = ℕ → Exec (Sweep host) (RoundResult host)

  -- for round_num in range(rounds), from `i` on.
  unfoldable pub run_rounds : Run → ℕ → ℕ → Exec (Sweep host) Unit
  run_rounds run i zero = pure tt
  run_rounds run i (suc left) = do run i; run_rounds run (suc i) left

  abbrev pub flush_logger : Exec (Sweep host) Unit
  flush_logger s =
      let (result, files) = flush host.csv_disk host.json_disk s.logger s.files in
      (result, record s { files = files })

  -- `main` of the scripts, up to the summary that is printed at its end.
  unfoldable pub run_sweep : List Run → ℕ → Exec (Sweep host) Unit
  run_sweep runs rounds = do for_each runs (λ run. run_rounds run 0 rounds); flush_logger
