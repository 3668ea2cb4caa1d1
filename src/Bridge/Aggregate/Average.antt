-- ===== src/Bridge/Aggregate/Average.antt =====
-- `_finalize_aggregation` computes the weighted average in GF(3329).
use dropout.Prelude.{
  ℕ, zero, suc, ◌*◌, ◌/◌, ◌%◌, ◌<◌, ◌≡◌, refl, sym, ap, ◌∙◌, arith, List, [], ◌∷◌, ltb, inl, inr,
  Bool-cases, get_or, map, replicate, lt→ltb,
}
use dropout.Prelude.Int.{◌%ℤ◌}
use dropout.Prelude.Dict.{Dict, lookup, keys}
use dropout.Prelude.Exec.{ok, and_then-eq-ok, ok_injective}
use dropout.Field.{mod-mul, mod-mul_left, residue-lt}
use dropout.Shamir.{mod_inv}
use dropout.Shamir.Inverse.{mul-mod_inv_any, mod_inv-zero}
use dropout.Bridge.State.{round_complete, RoundState}
use dropout.Bridge.Aggregate.{
  num_chunks_of, zero_chunks, add_survivors, add_dropouts, scale, average, total_samples,
  finalize_aggregation,
}
use dropout.Bridge.Aggregate.Spec.{survivors_sum, value_at}
use dropout.Bridge.Aggregate.Sums.{add_survivors-Adds}
use native.Mathlib.Nat.{mul_assoc, mul_comm}

get_or-replicate : (n j : ℕ) → ◌≡◌ {A = ℕ} (get_or (replicate n 0) j 0) 0
get_or-replicate zero j = refl
get_or-replicate (suc n) zero = refl
get_or-replicate (suc n) (suc j) = get_or-replicate n j

pub value_at-zero_chunks :
    (seq_num j i left ce : ℕ) → value_at seq_num j (zero_chunks i left ce) ≡ 0
unfolding zero_chunks lookup
value_at-zero_chunks seq_num j i zero ce = refl
value_at-zero_chunks seq_num j i (suc left) ce =
    ground (arith, get_or-replicate ce j, value_at-zero_chunks seq_num j (suc i) left ce)

get_or-map :
    (inv : ℕ) (l : List ℕ) (j : ℕ)
    → get_or (map (λ x. x * inv % 3329) l) j 0 ≡ get_or l j 0 * inv % 3329
get_or-map inv [] j = omega arith
get_or-map inv (x ∷ l) zero = refl
get_or-map inv (x ∷ l) (suc j) = get_or-map inv l j

pub value_at-scale :
    (seq_num j inv : ℕ) (chunks : Dict (List ℕ))
    → value_at seq_num j (scale inv chunks) ≡ value_at seq_num j chunks * inv % 3329
unfolding scale lookup
value_at-scale seq_num j inv [] = omega arith
value_at-scale seq_num j inv ((k, l) ∷ chunks) =
    ground (arith, get_or-map inv l j, value_at-scale seq_num j inv chunks)

add_dropouts-eq :
    (round : RoundState) (ids : List ℕ) (chunks chunks' : Dict (List ℕ))
    → add_dropouts round ids chunks ≡ ok chunks'
    → chunks ≡ chunks'
unfolding add_dropouts
add_dropouts-eq round [] chunks chunks' h = ok_injective h
add_dropouts-eq round (k ∷ ids) chunks chunks' h =
    ground (arith, add_dropouts-eq round ids chunks chunks')

pub num_chunks_of-eq : (m c n : ℕ) → num_chunks_of m c ≡ ok n → n ≡ m / c
unfolding num_chunks_of
num_chunks_of-eq m c n h = ground arith

-- What a successful run leaves: the sums before the division, and their average.
finalize_inversion :
    (round round' : RoundState) (seq_num j : ℕ)
    → finalize_aggregation round ≡ ok round'
    → seq_num < round.model_size / round.chunk_size
    → (chunks : Dict (List ℕ)) × (round'.unmasked_chunks
        ≡ average (total_samples round.clients) chunks)
      × (value_at seq_num j chunks % 3329
          ≡ survivors_sum seq_num j round (keys round.clients) %ℤ 3329)
unfolding finalize_aggregation
finalize_inversion round round' seq_num j h fits =
    let (nc, e, h1) = and_then-eq-ok (num_chunks_of round.model_size round.chunk_size) _ h in
    let start = zero_chunks 0 nc round.chunk_size in
    let (summed, s, h2) =
      and_then-eq-ok (add_survivors nc round.chunk_size round (keys round.clients) start) _ h1 in
    let (chunks, d, h3) = and_then-eq-ok (add_dropouts round round.dropout_clients summed) _ h2 in
    let same = add_dropouts-eq round round.dropout_clients summed chunks d in
    let added =
      add_survivors-Adds nc round.chunk_size seq_num j
        (omega (arith, num_chunks_of-eq round.model_size round.chunk_size nc e)) round
        (keys round.clients) start summed s in
    (
      chunks,
      ap (λ r. r.unmasked_chunks) (sym (ok_injective h3)),
      rw (← same) (
          omega (
            arith,
            added,
            value_at-zero_chunks seq_num j 0 nc round.chunk_size,
            residue-lt (survivors_sum seq_num j round (keys round.clients)),
          )),
    )

pub scaled_back :
    (x total : ℕ) → 0 < total % 3329 → x * mod_inv total % 3329 * total % 3329 ≡ x % 3329
scaled_back x total h =
    rw
      (
        mod-mul_left,
        mul_assoc,
        mul_comm (mod_inv total) total,
        ← mod-mul x (total * mod_inv total),
        mul-mod_inv_any total h,
      )
      (omega arith)

pub average_back :
    (seq_num j total : ℕ) (chunks : Dict (List ℕ))
    → 0 < total % 3329
    → value_at seq_num j (average total chunks) * total % 3329 ≡ value_at seq_num j chunks % 3329
average_back seq_num j total chunks unit = elim (Bool-cases (ltb 1 total)) [
  | inl many ↦ rw (many, value_at-scale) (scaled_back (value_at seq_num j chunks) total unit)
  | inr few ↦ let one : total ≡ 1 = ground arith in rw (few, one) (omega arith)
]

-- When the aggregation of a round returns and its total number of samples is no multiple of 3329,
-- every element of every chunk times that total is, in GF(3329), the weighted sum of the samples
-- of the completed clients that were not dropped.
pub finalize_aggregation_average :
    (round round' : RoundState) (seq_num j : ℕ)
    → finalize_aggregation round ≡ ok round'
    → seq_num < round.model_size / round.chunk_size
    → 0 < total_samples round.clients % 3329
    → value_at seq_num j round'.unmasked_chunks * total_samples round.clients % 3329
      ≡ survivors_sum seq_num j round (keys round.clients) %ℤ 3329
finalize_aggregation_average round round' seq_num j h fits unit =
    let (chunks, averaged, sums) = finalize_inversion round round' seq_num j h fits in
    rw averaged (average_back seq_num j (total_samples round.clients) chunks unit) ∙ sums

-- When the aggregation returns and the total is a multiple of 3329, every element is 0, whatever
-- the clients sent.
pub finalize_aggregation_vanishes :
    (round round' : RoundState) (seq_num j : ℕ)
    → finalize_aggregation round ≡ ok round'
    → seq_num < round.model_size / round.chunk_size
    → 1 < total_samples round.clients
    → total_samples round.clients % 3329 ≡ 0
    → value_at seq_num j round'.unmasked_chunks ≡ 0
finalize_aggregation_vanishes round round' seq_num j h fits big multiple =
    let (chunks, averaged, sums) = finalize_inversion round round' seq_num j h fits in
    rw
      (
        averaged,
        lt→ltb 1 (total_samples round.clients) big,
        value_at-scale,
        mod_inv-zero (total_samples round.clients) multiple,
      )
      (omega arith)

-- A successful aggregation leaves all but the chunks and the stage as it is.
pub finalize_aggregation-same :
    {B : Type 0} (f : RoundState → B) (round round' : RoundState)
    → ((chunks : Dict (List ℕ))
        → f (record round { unmasked_chunks = chunks; stage = round_complete }) ≡ f round)
    → finalize_aggregation round ≡ ok round'
    → f round' ≡ f round
unfolding finalize_aggregation
finalize_aggregation-same f round round' leaves h =
    let (nc, e, h1) = and_then-eq-ok (num_chunks_of round.model_size round.chunk_size) _ h in
    let start = zero_chunks 0 nc round.chunk_size in
    let (summed, s, h2) =
      and_then-eq-ok (add_survivors nc round.chunk_size round (keys round.clients) start) _ h1 in
    let (chunks, d, h3) = and_then-eq-ok (add_dropouts round round.dropout_clients summed) _ h2 in
    sym (ap f (ok_injective h3)) ∙ leaves (average (total_samples round.clients) chunks)

pub finalize_aggregation-clients :
    (round round' : RoundState)
    → finalize_aggregation round ≡ ok round'
    → (round'.chunk_size ≡ round.chunk_size) × (round'.clients ≡ round.clients)
finalize_aggregation-clients round round' h = (
  finalize_aggregation-same (λ r. r.chunk_size) round round' (λ chunks. refl) h,
  finalize_aggregation-same (λ r. r.clients) round round' (λ chunks. refl) h,
)
