-- ===== src/Sweeps/Rounds.antt =====
-- The samples that the rounds of a sweep leave in the logger, and the end of a sweep.
use dropout.Prelude.{
  ℕ, zero, suc, ◌+◌, ◌*◌, ◌-◌, ◌<◌, ◌≡◌, refl, ap, ◌∙◌, arith, Bool, false, Option, none, some,
  List, [], ◌∷◌, length, map, All,
}
use dropout.Prelude.Exec.{Error, ok, err, for_each}
use dropout.Prelude.Exec.Keeps.{Keeps, keeps_rules, Keeps-pure, Keeps-bind, except-ok}
use dropout.Metrics.Calls.{csv_error, csv_left, Calls, started, timing, result, flush_after_calls}
use dropout.Metrics.Flush.{Written}
use dropout.Sweeps.{
  Host, Run, Config, Sweep, RoundResult, Environment, start_process, start_clients, run_processes,
  run_config, run_rounds, run_sweep, stop_client, terminate, record_outcome, record_failure,
  read_time,
}

module _ (host : Host) (files : Written host.Float) where
  -- The logger has come from calls that started `n` rounds, and the files are as they were.
  abbrev pub Logged : ℕ → Sweep host → Type 0
  Logged n s = Calls (host.tenths 0) n s.logger × (s.files ≡ files)

  module _ (n : ℕ) where
    pub start_process-Logged : (env : Environment host) → Keeps (Logged n) (start_process host env)
    unfolding start_process
    start_process-Logged env = record {
      at = λ s h. start (host.popen_error s.popen_calls) s refl h;
    }
      where
        start :
            (popen : Option Error) (s : Sweep host)
            → host.popen_error s.popen_calls ≡ popen
            → Logged n s
            → Logged n (start_process host env s).1
        start none s e h = rw (start_process, e) h
        start (some x) s e h = rw (start_process, e) h

    pub start_clients-Logged :
        (env : Environment host) (i left : ℕ) → Keeps (Logged n) (start_clients host env i left)
    unfolding start_clients
    start_clients-Logged env i zero = search keeps_rules depth 12
    start_clients-Logged env i (suc left) =
        Keeps-bind _ _ (start_process-Logged _)
          (λ proc. Keeps-bind _ _ (start_clients-Logged env (suc i) left) (λ procs. Keeps-pure _))

    pub terminate-Logged : (k : ℕ) → Keeps (Logged n) (terminate host k)
    unfolding terminate
    terminate-Logged k = record { at = λ s h. stop (host.terminate_error k) s refl h }
      where
        stop :
            (raised : Option Error) (s : Sweep host)
            → host.terminate_error k ≡ raised
            → Logged n s
            → Logged n (terminate host k s).1
        stop none s e h = rw (terminate, e) h
        stop (some x) s e h = rw (terminate, e) h

    pub stop_client-Logged : (k : ℕ) → Keeps (Logged n) (stop_client host k)
    stop_client-Logged k = search (keeps_rules, terminate-Logged) depth 12

    pub record_outcome-Logged :
        (start : host.Float) (success : Bool) (accuracy : host.Float)
        → Keeps (Logged n) (record_outcome host start success accuracy)
    record_outcome-Logged start success accuracy = record {
      at = λ s h. (result success accuracy (timing _ _ _ h.0), h.1);
    }

    run_processes-Logged :
        (config : Config host) (round_num : ℕ) (start : host.Float)
        → Keeps (Logged n) (run_processes host config round_num start)
    unfolding run_processes
    run_processes-Logged config round_num start =
        search
          (
            keeps_rules, start_process-Logged, start_clients-Logged, terminate-Logged,
            stop_client-Logged, record_outcome-Logged,
          )
          depth 16

    read_time-Logged : Keeps (Logged n) (read_time host)
    read_time-Logged = record { at = λ s h. h }

  -- A round returns in every case, with one more sample in the logger.
  run_config-Logged :
      (n : ℕ) (config : Config host) (round_num : ℕ) (s : Sweep host)
      → Logged n s
      → (a : RoundResult host) × ((run_config host config round_num s).0 ≡ ok a)
        × Logged (suc n) (run_config host config round_num s).1
  unfolding run_config
  run_config-Logged n config round_num s (calls, same) =
      let start = host.time (suc s.time_calls) in
      except-ok (Logged (suc n)) (run_processes host config round_num start)
        (record_failure host start) (run_processes-Logged (suc n) config round_num start)
        (λ e s h. (
          _,
          refl {a = (record_failure host start e s).0},
          (record_outcome-Logged (suc n) start false (host.tenths 0)).at s h,
        ))
        _ (started _ _ _ _ _ _ _ _ calls, same)

  -- What a round of any script does to the logger and the files.
  abbrev pub AddsSample : Run host → Type 0
  AddsSample run =
      (n round_num : ℕ) (s : Sweep host)
      → Logged n s
      → (a : RoundResult host) × ((run round_num s).0 ≡ ok a) × Logged (suc n) (run round_num s).1

  run_rounds-Logged :
      (run : Run host)
      → AddsSample run
      → (n i left m : ℕ) (s : Sweep host) → Logged n s
      → m ≡ n + left
      → ((run_rounds host run i left s).0 ≡ ok tt) × Logged m (run_rounds host run i left s).1
  unfolding run_rounds
  run_rounds-Logged run adds n i zero m s h total =
      let same : m ≡ n = omega arith in (refl, rw same h)
  run_rounds-Logged run adds n i (suc left) m s h total =
      let (a, ran, next) = adds n i s h in
      rw ran (run_rounds-Logged run adds (suc n) (suc i) left m _ next (omega arith))

  pub for_rounds-Logged :
      (runs : List (Run host))
      → All AddsSample runs
      → (rounds n m : ℕ) (s : Sweep host) → Logged n s
      → m ≡ n + length runs * rounds
      → ((for_each runs (λ run. run_rounds host run 0 rounds) s).0 ≡ ok tt)
        × Logged m (for_each runs (λ run. run_rounds host run 0 rounds) s).1
  unfolding for_each
  for_rounds-Logged [] all rounds n m s h total =
      let same : m ≡ n = omega arith in (refl, rw same h)
  for_rounds-Logged (run ∷ runs) (adds, all) rounds n m s h total =
      let (ran, next) = run_rounds-Logged run adds n 0 rounds (n + rounds) s h refl in
      rw ran (for_rounds-Logged runs all rounds (n + rounds) m _ next (omega arith))

  pub configs-AddsSample :
      (configs : List (Config host)) → All AddsSample (map (run_config host) configs)
  configs-AddsSample [] = tt
  configs-AddsSample (config ∷ configs) =
      (λ n round_num. run_config-Logged n config round_num, configs-AddsSample configs)

-- The end of a sweep over any rounds that return and add their sample.
pub run_sweep_flushes :
    (host : Host) (runs : List (Run host)) (rounds n : ℕ) (s : Sweep host)
    → All (AddsSample host s.files) runs
    → Calls (host.tenths 0) n s.logger
    → 0 < length runs * rounds
    → ((run_sweep host runs rounds s).0 ≡ err (csv_error host.csv_disk))
      × ((length (run_sweep host runs rounds s).1.logger.samples ≡ n + length runs * rounds)
          × (((run_sweep host runs rounds s).1.files.csv ≡ csv_left host.csv_disk s.files.csv)
              × ((run_sweep host runs rounds s).1.files.json ≡ s.files.json)))
unfolding run_sweep
run_sweep_flushes host runs rounds n s all calls some_round =
    let k = n + length runs * rounds - 1 in
    let (ran, (logged, same)) =
      for_rounds-Logged host s.files runs all rounds n (suc k) s (calls, refl) (omega arith) in
    let after = (for_each runs (λ run. run_rounds host run 0 rounds) s).1 in
    let (size, (place, flushes)) =
      flush_after_calls host.csv_disk host.json_disk k after.logger after.files logged in
    rw (ran, flushes)
      (
        refl,
        (size ∙ omega arith, (ap (λ f. csv_left host.csv_disk f.csv) same, ap (λ f. f.json) same)),
      )

-- Whatever the clock and the calls of Popen, poll and terminate give, and whether or not the files
-- can be written: a sweep that runs any round ends with an exception, that of opening or of writing
-- the CSV file if there is one and ValueError otherwise, with one sample more in the logger for every
-- round of every configuration, no row in the CSV file, which is untouched if it cannot be opened, and
-- the JSON file untouched.
pub run_sweep_raises :
    (host : Host) (configs : List (Config host)) (rounds n : ℕ) (s : Sweep host)
    → Calls (host.tenths 0) n s.logger
    → 0 < length (map (run_config host) configs) * rounds
    → ((run_sweep host (map (run_config host) configs) rounds s).0 ≡ err (csv_error host.csv_disk))
      × ((length (run_sweep host (map (run_config host) configs) rounds s).1.logger.samples
            ≡ n + length (map (run_config host) configs) * rounds)
          × (((run_sweep host (map (run_config host) configs) rounds s).1.files.csv
                ≡ csv_left host.csv_disk s.files.csv)
              × ((run_sweep host (map (run_config host) configs) rounds s).1.files.json
                  ≡ s.files.json)))
run_sweep_raises host configs rounds n s calls some_round =
    run_sweep_flushes host (map (run_config host) configs) rounds n s
      (configs-AddsSample host s.files configs) calls some_round
