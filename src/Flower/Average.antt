-- ===== src/Flower/Average.antt =====
-- The average of host_server/flower_server.py, against the weighted sum of the models.
use dropout.Prelude.{
  ℕ, zero, suc, ◌+◌, ◌-◌, ◌*◌, ◌%◌, ◌<◌, ◌≤◌, ◌≡◌, ◌∙◌, sym, All, arith, true, false, List, [], ◌∷◌,
  length, take, drop, get_or, ltb, ◌⊎◌, ◌/◌, ◌==◌, if◌then◌else◌, inl, inr, Bool-cases,
}
use dropout.Prelude.Int.{ℤ, pos, ◌+ℤ◌, ◌*ℤ◌, ◌%ℤ◌}
use dropout.Prelude.Dict.{Dict, insert, lookup-insert}
use dropout.Prelude.Exec.{ok, and_then-eq-ok, ok_injective}
use native.Mathlib.Nat.{mul-le-mul_right}
use dropout.Field.{residue-lt}
use dropout.Bytes.{Bytes, pack_int16s, unpack_int16s}
use dropout.Bytes.Int16.{IsInt16}
use dropout.Bridge.Aggregate.{zero_chunks, add_values, chunk_of}
use dropout.Bridge.Aggregate.Spec.{value_at}
use dropout.Bridge.Aggregate.Sums.{
  Adds, Adds-zero, Adds-trans, add_values_at, chunk_of-eq-ok, zero-weight,
}
use dropout.Bridge.Aggregate.Average.{value_at-zero_chunks, value_at-scale, scaled_back}
use dropout.Flower.Arrays.{Numpy, NdArray}
use dropout.Flower.Slices.{get_or_slice, get_or_past}
use dropout.Flower.RoundTrip.{flatten_fits, packed_unpacks, ceil_enough}
use dropout.Flower.{
  FitRes, ceil_div, pad, chunks_from, flatten, model_to_chunks, add_client_chunks, add_results,
  average_results,
}

module _ (ce : ℕ) (flat : List ℤ) (fits : All IsInt16 flat) (weight seq_num j : ℕ)
    (within : j < ce) where
  -- The value at the position, times the weight.
  abbrev weighted : ℤ
  weighted = get_or flat (seq_num * ce + j) (pos 0) *ℤ pos weight

  chunk-Adds :
      (i : ℕ) (bytes : Bytes) (values : List ℤ) (acc out : List ℕ) (chunks : Dict (List ℕ))
      → pack_int16s (pad ce (take ce (drop (i * ce) flat))) ≡ ok bytes
      → unpack_int16s ce bytes ≡ ok values
      → chunk_of i chunks ≡ ok acc
      → add_values weight values acc ≡ ok out
      → Adds seq_num j chunks (if i == seq_num then weighted else pos 0) (insert i out chunks)
  chunk-Adds i bytes values acc out chunks p u c a =
      let slice : values ≡ pad ce (take ce (drop (i * ce) flat)) =
        ok_injective (sym u ∙ packed_unpacks ce flat fits i bytes p) in
      let value : get_or values j (pos 0) ≡ get_or flat (i * ce + j) (pos 0) =
        rw slice (get_or_slice ce (i * ce) j flat within) in
      let added = add_values_at weight values acc out j a in
      let found = chunk_of-eq-ok i chunks acc c in
      elim (Bool-cases (i == seq_num)) [
        | inl e ↦
            let same : i ≡ seq_num = ground arith in
            let found' = rw same at found in
            let value' : get_or values j (pos 0) ≡ get_or flat (seq_num * ce + j) (pos 0) =
              rw same at value in
            rw (value_at, lookup-insert i seq_num out chunks, e, found', ← value') added
        | inr e ↦ rw (value_at, lookup-insert i seq_num out chunks, e) (omega arith)
      ]

  differs : (i left : ℕ) → (seq_num < i) ⊎ (i + suc left ≤ seq_num) → (i == seq_num) ≡ false
  differs i left (inl h) = ground arith
  differs i left (inr h) = ground arith

  still_past :
      (i left : ℕ)
      → (seq_num < i) ⊎ (i + suc left ≤ seq_num)
      → (seq_num < suc i) ⊎ (suc i + left ≤ seq_num)
  still_past i left (inl h) = inl (omega arith)
  still_past i left (inr h) = inr (omega arith)

  -- The chunks that are not the one in question.
  past-Adds :
      (i left : ℕ) (client_chunks : Dict Bytes) (chunks chunks' : Dict (List ℕ))
      → (seq_num < i) ⊎ (i + left ≤ seq_num)
      → chunks_from ce flat i left ≡ ok client_chunks
      → add_client_chunks ce weight client_chunks chunks ≡ ok chunks'
      → Adds seq_num j chunks (pos 0) chunks'
  unfolding chunks_from add_client_chunks
  past-Adds i zero client_chunks chunks chunks' past m h =
      let none_left = rw (← ok_injective m) at h in
      rw (← ok_injective none_left) (Adds-zero seq_num j chunks)
  past-Adds i (suc left) client_chunks chunks chunks' past m h =
      let (bytes, p, m1) =
        and_then-eq-ok (pack_int16s (pad ce (take ce (drop (i * ce) flat)))) _ m in
      let (rest, made, m2) = and_then-eq-ok (chunks_from ce flat (suc i) left) _ m1 in
      let h0 = rw (← ok_injective m2) at h in
      let (values, u, h1) = and_then-eq-ok (unpack_int16s ce bytes) _ h0 in
      let (acc, c, h2) = and_then-eq-ok (chunk_of i chunks) _ h1 in
      let (out, a, h3) = and_then-eq-ok (add_values weight values acc) _ h2 in
      let other = differs i left past in
      let here = rw other at (chunk-Adds i bytes values acc out chunks p u c a) in
      omega (
        arith,
        here,
        past-Adds (suc i) left rest (insert i out chunks) chunks' (still_past i left past) made h3,
      )

  chunks-Adds :
      (i left : ℕ) (client_chunks : Dict Bytes) (chunks chunks' : Dict (List ℕ))
      → i ≤ seq_num
      → seq_num < i + left
      → chunks_from ce flat i left ≡ ok client_chunks
      → add_client_chunks ce weight client_chunks chunks ≡ ok chunks'
      → Adds seq_num j chunks weighted chunks'
  unfolding chunks_from add_client_chunks
  chunks-Adds i zero client_chunks chunks chunks' lo hi m h = absurd (omega arith)
  chunks-Adds i (suc left) client_chunks chunks chunks' lo hi m h =
      let (bytes, p, m1) =
        and_then-eq-ok (pack_int16s (pad ce (take ce (drop (i * ce) flat)))) _ m in
      let (rest, made, m2) = and_then-eq-ok (chunks_from ce flat (suc i) left) _ m1 in
      let h0 = rw (← ok_injective m2) at h in
      let (values, u, h1) = and_then-eq-ok (unpack_int16s ce bytes) _ h0 in
      let (acc, c, h2) = and_then-eq-ok (chunk_of i chunks) _ h1 in
      let (out, a, h3) = and_then-eq-ok (add_values weight values acc) _ h2 in
      let step = chunk-Adds i bytes values acc out chunks p u c a in
      let mid = insert i out chunks in
      elim (Bool-cases (i == seq_num)) [
        | inl e ↦
            let here = rw e at step in
            let later = past-Adds (suc i) left rest mid chunks' (inl (ground arith)) made h3 in
            omega arith
        | inr e ↦
            let here = rw e at step in
            let later =
              chunks-Adds (suc i) left rest mid chunks' (ground arith) (omega arith) made h3 in
            omega arith
      ]

module _ (numpy : Numpy) (ce seq_num j : ℕ) (within : j < ce) where
  -- Over all results, the value at the position of the model times the number of examples.
  abbrev pub results_sum : List (FitRes numpy) → ℤ
  results_sum [] = pos 0
  results_sum (r ∷ results) =
      get_or (flatten numpy r.ndarrays) (seq_num * ce + j) (pos 0) *ℤ pos r.num_examples
      +ℤ results_sum results

  whole-Adds :
      (flat : List ℤ) (fits : All IsInt16 flat) (weight n : ℕ) (client_chunks : Dict Bytes)
      (chunks chunks' : Dict (List ℕ))
      → length flat ≤ n * ce
      → chunks_from ce flat 0 n ≡ ok client_chunks
      → add_client_chunks ce weight client_chunks chunks ≡ ok chunks'
      → Adds seq_num j chunks (get_or flat (seq_num * ce + j) (pos 0) *ℤ pos weight) chunks'
  whole-Adds flat fits weight n client_chunks chunks chunks' enough m h =
      elim (Bool-cases (ltb seq_num n)) [
        | inl e ↦
            chunks-Adds ce flat fits weight seq_num j within 0 n client_chunks chunks chunks'
              (omega arith) (ground arith) m h
        | inr e ↦
            let past : n ≤ seq_num = ground arith in
            let none_there =
              get_or_past flat (seq_num * ce + j) (omega (arith, mul-le-mul_right ce past)) in
            let same =
              past-Adds ce flat fits weight seq_num j within 0 n client_chunks chunks chunks'
                (inr (omega arith)) m h in
            rw none_there (omega (arith, same, zero-weight weight))
      ]

  result-Adds :
      (weight : ℕ) (arrays : List (NdArray numpy)) (client_chunks : Dict Bytes)
      (chunks chunks' : Dict (List ℕ))
      → model_to_chunks numpy ce arrays ≡ ok client_chunks
      → add_client_chunks ce weight client_chunks chunks ≡ ok chunks'
      → Adds seq_num j chunks
          (get_or (flatten numpy arrays) (seq_num * ce + j) (pos 0) *ℤ pos weight)
          chunks'
  unfolding model_to_chunks ceil_div
  result-Adds weight [] client_chunks chunks chunks' m h = cc
  result-Adds weight (a ∷ arrays) client_chunks chunks chunks' m h =
      let flat = flatten numpy (a ∷ arrays) in
      let positive : (ce == 0) ≡ false = ground arith in
      let m1 = rw positive at m in
      whole-Adds flat (flatten_fits numpy (a ∷ arrays)) weight ((length flat + ce - 1) / ce)
        client_chunks chunks chunks' (ceil_enough (length flat) ce (omega arith)) m1 h

  results-Adds :
      (results : List (FitRes numpy)) (chunks chunks' : Dict (List ℕ))
      → add_results numpy ce results chunks ≡ ok chunks'
      → Adds seq_num j chunks (results_sum results) chunks'
  unfolding add_results
  results-Adds [] chunks chunks' h = rw (← ok_injective h) (Adds-zero seq_num j chunks)
  results-Adds (r ∷ results) chunks chunks' h =
      let (client_chunks, m, h1) = and_then-eq-ok (model_to_chunks numpy ce r.ndarrays) _ h in
      let (mid, first, h2) =
        and_then-eq-ok (add_client_chunks ce r.num_examples client_chunks chunks) _ h1 in
      Adds-trans seq_num j chunks mid chunks' _ _
        (result-Adds r.num_examples r.ndarrays client_chunks chunks mid m first)
        (results-Adds results mid chunks' h2)

  -- When the sums of `aggregate_fit` are made and 3329 does not divide the total weight, the value
  -- at every position of every chunk, times that total, is in GF(3329) the sum of the values at that
  -- position of the models, times their numbers of examples.
  pub average_results_average :
      (num_chunks total : ℕ) (results : List (FitRes numpy)) (out : Dict (List ℕ))
      → average_results numpy ce num_chunks total results ≡ ok out
      → 0 < total % 3329
      → value_at seq_num j out * total % 3329 ≡ results_sum results %ℤ 3329
  unfolding average_results
  average_results_average num_chunks total results out h unit =
      let start = zero_chunks 0 num_chunks ce in
      let (sums, s, h1) = and_then-eq-ok (add_results numpy ce results start) _ h in
      let added = results-Adds results start sums s in
      let positive : ltb 0 total ≡ true = ground arith in
      let scaled = rw positive at h1 in
      rw (← ok_injective scaled, value_at-scale)
        (scaled_back (value_at seq_num j sums) total unit
          ∙ omega (
            arith,
            added,
            value_at-zero_chunks seq_num j 0 num_chunks ce,
            residue-lt (results_sum results),
          ))
