-- ===== src/Flower/RoundTrip.antt =====
-- `_chunks_to_model` puts together again what `_model_to_chunks` cut.
use dropout.Prelude.{
  ℕ, zero, suc, ◌+◌, ◌-◌, ◌*◌, ◌/◌, ◌<◌, ◌≤◌, ◌≡◌, refl, sym, ap, ◌∙◌, arith, false, some, List, [],
  ◌∷◌, ◌++◌, map, length, length-append, length-replicate, take, drop, take-append, drop-append,
  replicate, All, append_assoc, All-append, All-take, All-drop, All-replicate, length-take_le, ◌==◌,
  ==-refl, inl, inr, Bool-cases,
}
use native.Mathlib.Nat.{div-add-mod, mod-lt}
use dropout.Prelude.Int.{ℤ, pos}
use dropout.Prelude.Dict.{Dict, lookup}
use dropout.Prelude.Exec.{ok}
use mathlib.Core.Path.{subst}
use dropout.Bytes.{Bytes, pack_int16s, unpack_int16s}
use dropout.Bytes.Int16.{IsInt16, pack_int16s_total, unpack-pack_int16s}
use dropout.Flower.Arrays.{Numpy, NdArray}
use dropout.Flower.Slices.{slices, slices_back}
use dropout.Flower.{
  ceil_div, pad, chunks_from, elements_from, flatten, model_to_chunks, arrays_from, chunks_to_model,
}

module _ (ce : ℕ) (flat : List ℤ) (fits : All IsInt16 flat) where
  slice_fits : (i : ℕ) → All IsInt16 (pad ce (take ce (drop (i * ce) flat)))
  slice_fits i =
      let chunk = take ce (drop (i * ce) flat) in
      All-append IsInt16 chunk (replicate (ce - length chunk) (pos 0))
        (All-take IsInt16 ce (drop (i * ce) flat) (All-drop IsInt16 (i * ce) flat fits))
        (All-replicate IsInt16 (ce - length chunk) (pos 0) (omega arith))

  slice_length : (i : ℕ) → length (pad ce (take ce (drop (i * ce) flat))) ≡ ce
  slice_length i =
      let chunk = take ce (drop (i * ce) flat) in
      omega (
        arith,
        length-append chunk (replicate (ce - length chunk) (pos 0)),
        length-replicate (ce - length chunk) (pos 0),
        length-take_le ce (drop (i * ce) flat),
      )

  abbrev Unpacks : Dict Bytes → ℕ → Type 0
  Unpacks chunks k =
      (bytes : Bytes) × ((lookup k chunks ≡ some bytes)
        × (unpack_int16s ce bytes ≡ ok (pad ce (take ce (drop (k * ce) flat)))))

  pub packed_unpacks :
      (k : ℕ) (bytes : Bytes)
      → pack_int16s (pad ce (take ce (drop (k * ce) flat))) ≡ ok bytes
      → unpack_int16s ce bytes ≡ ok (pad ce (take ce (drop (k * ce) flat)))
  packed_unpacks k bytes e = rw (slice_length k) at (unpack-pack_int16s _ bytes e)

  -- The chunks are made, and each unpacks to its slice.
  chunks_made :
      (i left : ℕ)
      → (chunks : Dict Bytes) × ((chunks_from ce flat i left ≡ ok chunks)
          × ((length chunks ≡ left) × ((k : ℕ) → i ≤ k → k < i + left → Unpacks chunks k)))
  unfolding chunks_from lookup
  chunks_made i zero = ([], (refl, (refl, λ k lo hi. absurd (omega arith))))
  chunks_made i (suc left) =
      let (bytes, e) = pack_int16s_total (pad ce (take ce (drop (i * ce) flat))) (slice_fits i) in
      let (chunks, (made, (size, unpacks))) = chunks_made (suc i) left in
      (
        (i, bytes) ∷ chunks,
        (
          rw (e, made),
          (
            ap suc size,
            λ k lo hi. elim (Bool-cases (i == k)) [
              | inl t ↦
                  let same : i ≡ k = ground arith in
                  (
                    bytes,
                    (
                      rw t,
                      subst
                          (λ m. unpack_int16s ce bytes ≡ ok (pad ce (take ce (drop (m * ce) flat))))
                          same (packed_unpacks i bytes e),
                    ),
                  )
              | inr t ↦ let (b, (l, u)) = unpacks k (ground arith) (omega arith) in (b, (rw t l, u))
            ],
          ),
        ),
      )

  elements_slices :
      (chunks : Dict Bytes) (i left : ℕ)
      → ((k : ℕ) → i ≤ k → k < i + left → Unpacks chunks k)
      → elements_from ce chunks i left ≡ ok (slices ce flat i left)
  unfolding elements_from
  elements_slices chunks i zero h = refl
  elements_slices chunks i (suc left) h =
      let (bytes, (l, u)) = h i (omega arith) (omega arith) in
      rw (l, u, elements_slices chunks (suc i) left (λ k lo hi. h k (omega arith) (omega arith)))

pub ceil_enough : (x c : ℕ) → 0 < c → x ≤ (x + c - 1) / c * c
ceil_enough x c h = omega (arith, div-add-mod (x + c - 1) c, mod-lt (x + c - 1) h)

module _ (numpy : Numpy) where
  -- The array after a cast of its elements to int16 and back.
  abbrev pub recast : NdArray numpy → NdArray numpy
  recast a = record a { elements = map numpy.from_int16 (map numpy.to_int16 a.elements) }

  pub flatten_fits : (arrays : List (NdArray numpy)) → All IsInt16 (flatten numpy arrays)
  unfolding flatten
  flatten_fits [] = tt
  flatten_fits (a ∷ arrays) =
      All-append IsInt16 (map numpy.to_int16 a.elements) (flatten numpy arrays) (cast a.elements)
        (flatten_fits arrays)
    where
      cast : (es : List numpy.Element) → All IsInt16 (map numpy.to_int16 es)
      cast [] = tt
      cast (e ∷ es) = (numpy.to_int16-IsInt16 e, cast es)

  length-cast : (es : List numpy.Element) → length (map numpy.to_int16 es) ≡ length es
  length-cast [] = refl
  length-cast (e ∷ es) = ap suc (length-cast es)

  arrays_back :
      (flat before after : List ℤ) (arrays : List (NdArray numpy))
      → flat ≡ before ++ (flatten numpy arrays ++ after)
      → arrays_from numpy flat (length before) arrays ≡ ok (map recast arrays)
  unfolding arrays_from flatten
  arrays_back flat before after [] h = refl
  arrays_back flat before after (a ∷ arrays) h =
      let here = map numpy.to_int16 a.elements in
      let size = length-cast a.elements in
      let later = flatten numpy arrays ++ after in
      let split : flat ≡ before ++ (here ++ later) =
        h ∙ ap (λ l. before ++ l) (append_assoc here (flatten numpy arrays) after) in
      let front : take (length a.elements) (here ++ later) ≡ here =
        rw size at (take-append here later) in
      let slice : take (length a.elements) (drop (length before) flat) ≡ here =
        rw (split, drop-append before (here ++ later)) front in
      let next =
        arrays_back flat (before ++ here) after arrays
          (split ∙ sym (append_assoc before here later)) in
      let moved : length (before ++ here) ≡ length before + length a.elements =
        omega (arith, length-append before here) in
      let rest = rw moved at next in rw (slice, size, ==-refl, rest)

  -- With a positive chunk size and at least one array, the chunks are made, and put together again
  -- over the same arrays they give every array back, its elements cast to int16 and back.
  pub model_to_chunks_back :
      (chunk_size : ℕ) (a : NdArray numpy) (arrays : List (NdArray numpy))
      → 0 < chunk_size
      → (chunks : Dict Bytes) × ((model_to_chunks numpy chunk_size (a ∷ arrays) ≡ ok chunks)
          × (chunks_to_model numpy chunk_size chunks (a ∷ arrays) ≡ ok (map recast (a ∷ arrays))))
  unfolding model_to_chunks chunks_to_model ceil_div
  model_to_chunks_back cs a arrays h =
      let flat = flatten numpy (a ∷ arrays) in
      let n = (length flat + cs - 1) / cs in
      let positive : (cs == 0) ≡ false = ground arith in
      let (chunks, (made, (size, unpacks))) = chunks_made cs flat (flatten_fits (a ∷ arrays)) 0 n in
      let enough : length flat ≤ (0 + n) * cs = omega (arith, ceil_enough (length flat) cs h) in
      let start : 0 * cs ≡ 0 = omega arith in
      let (zeros, all) = slices_back cs flat 0 n enough in
      let elements = elements_slices cs flat (flatten_fits (a ∷ arrays)) chunks 0 n unpacks in
      (
        chunks,
        (
          rw (positive, made),
          rw (size, elements, all, start)
              (arrays_back _ [] (replicate zeros (pos 0)) (a ∷ arrays) refl),
        ),
      )
