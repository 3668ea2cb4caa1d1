-- ===== src/Bytes/Int16.antt =====
-- Round trip and totality of the signed 16-bit arrays.
use dropout.Prelude.{
  ℕ, zero, suc, ◌-◌, ◌*◌, ◌<◌, ◌≡◌, refl, ap, ◌∙◌, arith, List, [], ◌∷◌, ◌++◌, length,
  length-append, All, lt→ltb,
}
use dropout.Prelude.Int.{ℤ, pos, negsuc}
use dropout.Prelude.Exec.{ok, and_then, and_then-eq-ok, ok_injective}
use mathlib.Core.Path.{subst}
use dropout.Bytes.{Bytes, pack_int16, pack_int16s, unpack_int16s, signed16, from_be16, be16}

-- An array of the right length always unpacks, to as many values.
pub unpack_int16s_total :
    (n : ℕ) (bytes : Bytes)
    → length bytes ≡ 2 * n
    → (vs : List ℤ) × (unpack_int16s n bytes ≡ ok vs) × (length vs ≡ n)
unfolding unpack_int16s
unpack_int16s_total zero [] h = ([], refl, refl)
unpack_int16s_total zero (a ∷ bs) h = absurd (omega arith)
unpack_int16s_total (suc n) [] h = absurd (omega arith)
unpack_int16s_total (suc n) (a ∷ []) h = absurd (omega arith)
unpack_int16s_total (suc n) (a ∷ b ∷ rest) h =
    let (vs, e, l) = unpack_int16s_total n rest (omega arith) in
    (signed16 (from_be16 a b) ∷ vs, rw e refl, ap suc l)

unpack_one :
    (v : ℤ) (b : Bytes) (n : ℕ) (rest : Bytes)
    → pack_int16 v ≡ ok b
    → unpack_int16s (suc n) (b ++ rest) ≡ and_then (unpack_int16s n rest) (λ vs. ok (v ∷ vs))
unfolding unpack_int16s pack_int16
unpack_one (pos k) b n rest h = ground arith
unpack_one (negsuc k) b n rest h = ground arith

abbrev pub IsInt16 : ℤ → Type 0
IsInt16 (pos n) = n < 32768
IsInt16 (negsuc n) = n < 32768

pack_int16_total : (v : ℤ) → IsInt16 v → (bytes : Bytes) × (pack_int16 v ≡ ok bytes)
unfolding pack_int16
pack_int16_total (pos n) h = (be16 n, rw (lt→ltb n 32768 h))
pack_int16_total (negsuc n) h = (be16 (65535 - n), rw (lt→ltb n 32768 h))

-- Numbers of 16 bits pack.
pub pack_int16s_total :
    (vs : List ℤ) → All IsInt16 vs → (bytes : Bytes) × (pack_int16s vs ≡ ok bytes)
unfolding pack_int16s
pack_int16s_total [] h = ([], refl)
pack_int16s_total (v ∷ vs) h =
    let (b, e) = pack_int16_total v h.0 in
    let (rest, e') = pack_int16s_total vs h.1 in (b ++ rest, rw (e, e'))

length-pack_int16 : (v : ℤ) (bytes : Bytes) → pack_int16 v ≡ ok bytes → length bytes ≡ 2
unfolding pack_int16
length-pack_int16 (pos n) bytes h = ground arith
length-pack_int16 (negsuc n) bytes h = ground arith

pub length-pack_int16s :
    (vs : List ℤ) (bytes : Bytes) → pack_int16s vs ≡ ok bytes → length bytes ≡ length vs * 2
unfolding pack_int16s
length-pack_int16s [] bytes h = rw (← ok_injective h) refl
length-pack_int16s (v ∷ vs) bytes h =
    let (b, packed, h1) = and_then-eq-ok (pack_int16 v) _ h in
    let (rest, packed_rest, h2) = and_then-eq-ok (pack_int16s vs) _ h1 in
    rw (← ok_injective h2) (
      omega (
        arith,
        length-append b rest,
        length-pack_int16 v b packed,
        length-pack_int16s vs rest packed_rest,
      ))

-- What packs unpacks to the same values.
pub unpack-pack_int16s :
    (vs : List ℤ) (bytes : Bytes)
    → pack_int16s vs ≡ ok bytes
    → unpack_int16s (length vs) bytes ≡ ok vs
unfolding pack_int16s
unpack-pack_int16s [] bytes h =
    subst (λ b. unpack_int16s 0 b ≡ ok []) (ok_injective h) (unfold unpack_int16s in refl)
unpack-pack_int16s (v ∷ vs) bytes h =
    let (b, packed, h1) = and_then-eq-ok (pack_int16 v) _ h in
    let (rest, packed_rest, h2) = and_then-eq-ok (pack_int16s vs) _ h1 in
    subst (λ t. unpack_int16s (suc (length vs)) t ≡ ok (v ∷ vs)) (ok_injective h2)
      (unpack_one v b (length vs) rest packed ∙ rw (unpack-pack_int16s vs rest packed_rest))
