-- ===== src/Bridge/Aggregate/Sums.antt =====
-- The loops of `_finalize_aggregation` accumulate the sums of Spec, as remainders.
use dropout.Prelude.{
  ℕ, zero, suc, ◌+◌, ◌%◌, ◌<◌, ◌≡◌, arith, Bool, true, false, Option, none, some, List, [], ◌∷◌,
  leb, ◌==◌, if◌then◌else◌, inl, inr, Bool-cases, get_or,
}
use dropout.Prelude.Int.{ℤ, pos, ◌+ℤ◌, ◌*ℤ◌, ◌%ℤ◌}
use dropout.Prelude.Dict.{Dict, lookup, insert, lookup-insert}
use dropout.Prelude.Exec.{ok, and_then, and_then-eq-ok, ok_injective}
use dropout.Bytes.{Bytes, unpack_int16s}
use dropout.Field.{residue-+ℤ, residue-*ℤ, residue-lt}
use dropout.Bridge.State.{ClientState, RoundState}
use dropout.Bridge.Aggregate.{
  elem, weight_of, add_values, chunk_of, add_chunk, add_chunks, add_client, add_survivors,
}
use dropout.Bridge.Aggregate.Spec.{sample_at, received_sum, client_sum, survivors_sum, value_at}

pub zero-weight : (w : ℕ) → (pos 0 *ℤ pos w) %ℤ 3329 ≡ 0
zero-weight w = omega (arith, residue-*ℤ (pos 0) (pos w))

pub add_values_at :
    (weight : ℕ) (values : List ℤ) (acc out : List ℕ) (j : ℕ)
    → add_values weight values acc ≡ ok out
    → get_or out j 0 % 3329
      ≡ (get_or acc j 0 + (get_or values j (pos 0) *ℤ pos weight) %ℤ 3329) % 3329
unfolding add_values
add_values_at w [] acc out j h = rw (← ok_injective h, zero-weight w) (omega arith)
add_values_at w (v ∷ vs) [] out j h = cc
add_values_at w (v ∷ vs) (a ∷ acc) out zero h =
    let (rest, e, h2) = and_then-eq-ok (add_values w vs acc) _ h in
    rw (← ok_injective h2) (omega (arith, residue-+ℤ (pos a) (v *ℤ pos w), residue-lt (v *ℤ pos w)))
add_values_at w (v ∷ vs) (a ∷ acc) out (suc j) h =
    let (rest, e, h2) = and_then-eq-ok (add_values w vs acc) _ h in
    rw (← ok_injective h2) (add_values_at w vs acc rest j e)

unpack_int16s_at :
    (n : ℕ) (chunk : Bytes) (values : List ℤ) (j : ℕ)
    → unpack_int16s n chunk ≡ ok values
    → get_or values j (pos 0) ≡ sample_at chunk j
unfolding unpack_int16s
unpack_int16s_at zero [] values j h = rw (← ok_injective h)
unpack_int16s_at zero (a ∷ chunk) values j h = cc
unpack_int16s_at (suc n) [] values j h = cc
unpack_int16s_at (suc n) (a ∷ []) values j h = cc
unpack_int16s_at (suc n) (a ∷ b ∷ chunk) values zero h =
    let (rest, e, h2) = and_then-eq-ok (unpack_int16s n chunk) _ h in rw (← ok_injective h2)
unpack_int16s_at (suc n) (a ∷ b ∷ chunk) values (suc j) h =
    let (rest, e, h2) = and_then-eq-ok (unpack_int16s n chunk) _ h in
    rw (← ok_injective h2) (unpack_int16s_at n chunk rest j e)

-- From the first dictionary to the second, the element at a position grows by an integer.
module _ (seq_num j : ℕ) where
  abbrev pub Adds : Dict (List ℕ) → ℤ → Dict (List ℕ) → Type 0
  Adds chunks v chunks' =
      value_at seq_num j chunks' % 3329 ≡ (value_at seq_num j chunks + v %ℤ 3329) % 3329

  pub Adds-zero : (chunks : Dict (List ℕ)) → Adds chunks (pos 0) chunks
  Adds-zero chunks = omega arith

  pub Adds-trans : (a b c : Dict (List ℕ)) (v w : ℤ) → Adds a v b → Adds b w c → Adds a (v +ℤ w) c
  Adds-trans a b c v w h k = omega (arith, residue-+ℤ v w)

pub chunk_of-eq-ok :
    (k : ℕ) (chunks : Dict (List ℕ)) (acc : List ℕ)
    → chunk_of k chunks ≡ ok acc
    → lookup k chunks ≡ some acc
unfolding chunk_of
chunk_of-eq-ok k chunks acc h = ground arith

module _ (nc ce seq_num j : ℕ) (fits : seq_num < nc) where
  insert-Adds :
      (k weight : ℕ) (chunk : Bytes) (chunks : Dict (List ℕ)) (values : List ℤ) (acc out : List ℕ)
      → unpack_int16s ce chunk ≡ ok values
      → lookup k chunks ≡ some acc
      → add_values weight values acc ≡ ok out
      → Adds seq_num j chunks
          (if k == seq_num then sample_at chunk j *ℤ pos weight else pos 0)
          (insert k out chunks)
  insert-Adds k weight chunk chunks values acc out u l a = ground (
    arith,
    lookup-insert k seq_num out chunks,
    add_values_at weight values acc out j a,
    unpack_int16s_at ce chunk values j u,
  )

  add_chunk-Adds :
      (k weight : ℕ) (chunk : Bytes) (chunks chunks' : Dict (List ℕ))
      → add_chunk nc ce weight k chunk chunks ≡ ok chunks'
      → Adds seq_num j chunks
          (if k == seq_num then sample_at chunk j *ℤ pos weight else pos 0)
          chunks'
  unfolding add_chunk
  add_chunk-Adds k weight chunk chunks chunks' h = elim (Bool-cases (leb nc k)) [
    | inl past ↦ ground arith
    | inr present ↦ added (rw present at h)
  ]
    where
      added :
          and_then (unpack_int16s ce chunk) (λ values.
            and_then
              (chunk_of k chunks)
              (λ acc. and_then (add_values weight values acc) (λ acc'. ok (insert k acc' chunks))))
            ≡ ok chunks'
          → Adds seq_num j chunks
              (if k == seq_num then sample_at chunk j *ℤ pos weight else pos 0)
              chunks'
      added h' =
          let (values, u, h1) = and_then-eq-ok (unpack_int16s ce chunk) _ h' in
          let (acc, l, h2) = and_then-eq-ok (chunk_of k chunks) _ h1 in
          let (out, a, h3) = and_then-eq-ok (add_values weight values acc) _ h2 in
          rw (← ok_injective h3)
            (insert-Adds k weight chunk chunks values acc out u (chunk_of-eq-ok k chunks acc l) a)

  add_chunks-Adds :
      (weight : ℕ) (received : Dict Bytes) (chunks chunks' : Dict (List ℕ))
      → add_chunks nc ce weight received chunks ≡ ok chunks'
      → Adds seq_num j chunks (received_sum seq_num j weight received) chunks'
  unfolding add_chunks
  add_chunks-Adds weight [] chunks chunks' h = rw (← ok_injective h) (Adds-zero seq_num j chunks)
  add_chunks-Adds weight ((k, chunk) ∷ received) chunks chunks' h =
      let (mid, first, h1) = and_then-eq-ok (add_chunk nc ce weight k chunk chunks) _ h in
      Adds-trans seq_num j chunks mid chunks' _ _ (add_chunk-Adds k weight chunk chunks mid first)
        (add_chunks-Adds weight received mid chunks' h1)

  add_client-Adds :
      (c : Option ClientState) (chunks chunks' : Dict (List ℕ))
      → add_client nc ce c chunks ≡ ok chunks'
      → Adds seq_num j chunks (client_sum seq_num j c) chunks'
  unfolding add_client
  add_client-Adds none chunks chunks' h = cc
  add_client-Adds (some c) chunks chunks' h = elim (Bool-cases c.completed) [
    | inl e ↦ rw e (add_chunks-Adds (weight_of c) c.received_chunks chunks chunks' (rw e at h))
    | inr e ↦ rw (e, ← ok_injective (rw e at h)) (Adds-zero seq_num j chunks)
  ]

  add_survivor-Adds :
      (dropped : Bool) (c : Option ClientState) (chunks chunks' : Dict (List ℕ))
      → (if dropped then ok chunks else add_client nc ce c chunks) ≡ ok chunks'
      → Adds seq_num j chunks (if dropped then pos 0 else client_sum seq_num j c) chunks'
  add_survivor-Adds true c chunks chunks' h = rw (← ok_injective h) (Adds-zero seq_num j chunks)
  add_survivor-Adds false c chunks chunks' h = add_client-Adds c chunks chunks' h

  -- The loop over the survivors adds the sum over the survivors.
  pub add_survivors-Adds :
      (round : RoundState) (ids : List ℕ) (chunks chunks' : Dict (List ℕ))
      → add_survivors nc ce round ids chunks ≡ ok chunks'
      → value_at seq_num j chunks' % 3329
        ≡ (value_at seq_num j chunks + survivors_sum seq_num j round ids %ℤ 3329) % 3329
  unfolding add_survivors
  add_survivors-Adds round [] chunks chunks' h = rw (← ok_injective h) (Adds-zero seq_num j chunks)
  add_survivors-Adds round (cid ∷ ids) chunks chunks' h =
      let dropped = elem cid round.dropout_clients in
      let c = lookup cid round.clients in
      let (mid, first, h1) =
        and_then-eq-ok (if dropped then ok chunks else add_client nc ce c chunks) _ h in
      Adds-trans seq_num j chunks mid chunks' _ _ (add_survivor-Adds dropped c chunks mid first)
        (add_survivors-Adds round ids mid chunks' h1)
