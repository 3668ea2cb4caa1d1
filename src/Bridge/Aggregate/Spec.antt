-- ===== src/Bridge/Aggregate/Spec.antt =====
-- What the aggregate means, written down without the loops of `_finalize_aggregation`: the weighted
-- sum of the samples at one position over the clients that count.
use dropout.Prelude.{ℕ, zero, suc, Option, none, some, List, [], ◌∷◌, ◌==◌, if◌then◌else◌, get_or}
use dropout.Prelude.Int.{ℤ, pos, ◌+ℤ◌, ◌*ℤ◌}
use dropout.Prelude.Dict.{Dict, lookup}
use dropout.Bytes.{Bytes, signed16, from_be16}
use dropout.Bridge.State.{ClientState, RoundState}
use dropout.Bridge.Aggregate.{elem, weight_of}

-- The big-endian signed sample at position `j` of a chunk; 0 past its end.
abbrev pub sample_at : Bytes → ℕ → ℤ
sample_at (a ∷ b ∷ rest) zero = signed16 (from_be16 a b)
sample_at (a ∷ b ∷ rest) (suc j) = sample_at rest j
sample_at _ _ = pos 0

module _ (seq_num j : ℕ) where
  abbrev pub received_sum : ℕ → Dict Bytes → ℤ
  received_sum weight [] = pos 0
  received_sum weight ((k, chunk) ∷ received) =
      (if k == seq_num then sample_at chunk j *ℤ pos weight else pos 0)
      +ℤ received_sum weight received

  abbrev pub client_sum : Option ClientState → ℤ
  client_sum none = pos 0
  client_sum (some c) = if c.completed then received_sum (weight_of c) c.received_chunks else pos 0

  -- Over the clients of `ids` that were not dropped and have completed.
  abbrev pub survivors_sum : RoundState → List ℕ → ℤ
  survivors_sum round [] = pos 0
  survivors_sum round (cid ∷ ids) =
      (if elem cid round.dropout_clients then pos 0 else client_sum (lookup cid round.clients))
      +ℤ survivors_sum round ids

  -- The element at position `j` of the chunk `seq_num`; 0 where there is none.
  abbrev pub value_at : Dict (List ℕ) → ℕ
  value_at chunks = elim (lookup seq_num chunks) [ none ↦ 0 | some l ↦ get_or l j 0 ]
