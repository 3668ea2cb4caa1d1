-- ===== src/Metrics/Summary.antt =====
-- MetricsLogger.get_summary. Sums and quotients of floating-point numbers are a parameter.
use dropout.Prelude.{ℕ, ◌+◌, ltb, Option, none, some, List, [], ◌∷◌, map, length, if◌then◌else◌}
use dropout.Metrics.{MetricSample, MetricsLogger}
use Prim.Native.String.{String}

pub record Averages (Float : Type 0) : Type 0 where
  -- sum() of floating-point numbers
  pub sum_floats : List Float → Float
  -- a / b, of a floating-point number and of an integer by an integer
  pub divide : Float → ℕ → Float
  pub quotient : ℕ → ℕ → Float
  pub zero_float : Float

pub record Summary (Float : Type 0) : Type 0 where
  pub run_id : String
  pub total_rounds : ℕ
  pub successful_rounds : ℕ
  pub success_rate : Float
  pub avg_latency_ms : Float
  pub avg_peak_sram_bytes : Float
  pub crypto_mode : String

module _ {Float : Type 0} where
  -- sum(1 for s in self.samples if s.aggregation_success)
  unfoldable pub count_successful : List (MetricSample Float) → ℕ
  count_successful [] = 0
  count_successful (s ∷ samples) =
      (if s.aggregation_success then 1 else 0) + count_successful samples

  -- sum(s.peak_sram_bytes for s in self.samples)
  unfoldable pub sum_peak_sram : List (MetricSample Float) → ℕ
  sum_peak_sram [] = 0
  sum_peak_sram (s ∷ samples) = s.peak_sram_bytes + sum_peak_sram samples

  unfoldable pub summary_of :
      Averages Float → String → MetricSample Float → List (MetricSample Float) → Summary Float
  summary_of averages run_id first samples =
      let total = length samples in
      let successful = count_successful samples in
      record {
        run_id = run_id;
        total_rounds = total;
        successful_rounds = successful;
        success_rate =
            if ltb 0 total then averages.quotient successful total else averages.zero_float;
        avg_latency_ms =
            averages.divide (averages.sum_floats (map (λ s. s.round_latency_ms) samples)) total;
        avg_peak_sram_bytes = averages.quotient (sum_peak_sram samples) total;
        crypto_mode = first.crypto_mode;
      }

  -- The empty dictionary is `none`.
  unfoldable pub get_summary : Averages Float → MetricsLogger Float → Option (Summary Float)
  unfolding summary_of
  get_summary averages logger = elim logger.samples [
    | [] ↦ none
    | first ∷ rest ↦ some (summary_of averages logger.run_id first (first ∷ rest))
  ]
