-- ===== src/Sweeps/Scripts.antt =====
-- The constants of the four scripts, and their `main`.
use dropout.Prelude.{ℕ, none, some, [], ◌∷◌, map}
use dropout.Prelude.Exec.{Exec}
use Prim.Native.String.{String}
use dropout.Sweeps.{Host, Config, Sweep, Run, run_config, run_sweep}

module _ (host : Host) where
  -- run_dropout_sweep.py
  abbrev pub dropout_config : ℕ → Config host
  dropout_config rate = record {
    num_clients = 50;
    dropout_rate = host.tenths rate;
    model_size_bytes = 10240;
    chunk_size_bytes = 128;
    crypto_mode = "pqc";
    sample_mode = "pqc";
    kem_variant = none;
  }

  abbrev pub run_dropout_rate : ℕ → Run host
  run_dropout_rate rate = run_config host (dropout_config rate)

  abbrev pub dropout_sweep : Exec (Sweep host) Unit
  dropout_sweep = run_sweep host (map run_dropout_rate (0 ∷ 1 ∷ 2 ∷ 3 ∷ 4 ∷ 5 ∷ [])) 3

  -- run_model_scaling.py
  abbrev pub model_config : ℕ → Config host
  model_config model_size = record {
    num_clients = 5;
    dropout_rate = host.tenths 0;
    model_size_bytes = model_size;
    chunk_size_bytes = 128;
    crypto_mode = "pqc";
    sample_mode = "pqc";
    kem_variant = none;
  }

  abbrev pub run_model_size : ℕ → Run host
  run_model_size model_size = run_config host (model_config model_size)

  abbrev pub model_scaling : Exec (Sweep host) Unit
  model_scaling =
      run_sweep host (map run_model_size (10240 ∷ 51200 ∷ 102400 ∷ 256000 ∷ 512000 ∷ 1048576 ∷ []))
        3

  -- run_chunk_optimization.py
  abbrev pub chunk_config : ℕ → Config host
  chunk_config chunk_size = record {
    num_clients = 5;
    dropout_rate = host.tenths 0;
    model_size_bytes = 102400;
    chunk_size_bytes = chunk_size;
    crypto_mode = "pqc";
    sample_mode = "pqc";
    kem_variant = none;
  }

  abbrev pub run_chunk_size : ℕ → Run host
  run_chunk_size chunk_size = run_config host (chunk_config chunk_size)

  abbrev pub chunk_optimization : Exec (Sweep host) Unit
  chunk_optimization = run_sweep host (map run_chunk_size (64 ∷ 128 ∷ 256 ∷ 512 ∷ 1024 ∷ [])) 3

  -- run_variant_comparison.py, whose samples carry the name of the variant as their mode.
  abbrev pub variant_config : String × String → Config host
  variant_config (name, env_value) = record {
    num_clients = 5;
    dropout_rate = host.tenths 0;
    model_size_bytes = 10240;
    chunk_size_bytes = 128;
    crypto_mode = "pqc";
    sample_mode = name;
    kem_variant = some env_value;
  }

  abbrev pub run_variant : String × String → Run host
  run_variant variant = run_config host (variant_config variant)

  abbrev pub variant_comparison : Exec (Sweep host) Unit
  variant_comparison =
      run_sweep host
        (map run_variant (
          ("ML-KEM-512", "KEMLIB_ML_KEM_512")
          ∷ ("ML-KEM-768", "KEMLIB_ML_KEM_768")
          ∷ ("ML-KEM-1024", "KEMLIB_ML_KEM_1024")
          ∷ []))
        3
