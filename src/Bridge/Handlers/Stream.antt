-- ===== src/Bridge/Handlers/Stream.antt =====
-- `_handle_client` against the messages that a peer sends one after the other.
use dropout.Prelude.{
  ℕ, zero, suc, ◌<◌, ◌≤◌, ◌≡◌, refl, ap, arith, false, List, [], ◌∷◌, ◌++◌, ltb, length,
  length-append, take, drop, length-drop, take-append, drop-append, Bool-cases, inl, inr,
}
use dropout.Prelude.Exec.{
  Result, ok, err, Exec, incomplete_read, raise, continue, and_then, and_then-eq-ok, ok_injective,
  for_each, ◌>>◌,
}
use dropout.Bytes.{Bytes}
use dropout.Wire.{MessageHeader, parse_header, build_header}
use dropout.Wire.RoundTrip.{header_of, parse-build_header}
use dropout.Bridge.Handlers.{read_loop, read_exactly, caught, handle_client}

pub record Message : Type 0 where
  pub message_type : ℕ
  pub round_id : ℕ
  pub client_id : ℕ
  pub sequence_number : ℕ
  pub payload : Bytes

-- The bytes of some messages, each with the header that `_build_header` makes for it.
abbrev pub frames : List Message → Result Bytes
frames [] = ok []
frames (m ∷ ms) =
    and_then
      (build_header m.message_type m.round_id m.client_id m.sequence_number (length m.payload))
      (λ header. and_then (frames ms) (λ rest. ok (header ++ (m.payload ++ rest))))

read_exactly_append :
    (bytes rest : Bytes) → read_exactly (length bytes) (bytes ++ rest) ≡ ok (bytes, rest)
read_exactly_append bytes rest =
    let enough : ltb (length (bytes ++ rest)) (length bytes) ≡ false =
      ground (arith, length-append bytes rest) in
    rw (enough, take-append bytes rest, drop-append bytes rest)

read_exactly_rest :
    (n : ℕ) (stream : Bytes) (parts : Bytes × Bytes)
    → read_exactly n stream ≡ ok parts
    → length parts.1 ≤ length stream
read_exactly_rest n stream parts h = elim (Bool-cases (ltb (length stream) n)) [
  | inl short ↦ let e = rw short at h in cc
  | inr long ↦
      let split : ok (take n stream, drop n stream) ≡ ok parts = rw long at h in
      let same = ap (λ (p : Bytes × Bytes). length p.1) (ok_injective split) in
      omega (arith, length-drop n stream)
]

module _ {S A B : Type 0} (f g : A → Exec S B) where
  same_after :
      (r : Result A) (s : S)
      → ((a : A) → r ≡ ok a → f a s ≡ g a s)
      → continue r f s ≡ continue r g s
  same_after (ok a) s h = h a refl
  same_after (err e) s h = refl

same_after_action :
    {S B : Type 0} (m : Exec S (Unit {0})) (f g : Exec S B) (s : S)
    → ((t : S) → f t ≡ g t)
    → (m >> f) s ≡ (m >> g) s
same_after_action m f g s h = same_after (λ _. f) (λ _. g) (m s).0 (m s).1 (λ _ _. h (m s).1)

module _ {S : Type 0} (dispatch : MessageHeader → Bytes → ℕ → Exec S Unit) (writer : ℕ) where
  abbrev pub deliver : Message → Exec S Unit
  deliver m =
      dispatch
        (header_of m.message_type m.round_id m.client_id m.sequence_number (length m.payload))
        m.payload writer

  -- One message at the front of the stream.
  read_message :
      (fuel : ℕ) (m : Message) (header rest : Bytes) (b : S)
      → build_header m.message_type m.round_id m.client_id m.sequence_number (length m.payload)
        ≡ ok header
      → read_loop dispatch (suc fuel) (header ++ (m.payload ++ rest)) writer b
        ≡ (deliver m >> read_loop dispatch fuel rest writer) b
  unfolding read_loop
  read_message fuel m header rest b h =
      let (size, parsed) =
        parse-build_header m.message_type m.round_id m.client_id m.sequence_number
          (length m.payload) header h in
      let front : read_exactly 16 (header ++ (m.payload ++ rest)) ≡ ok (header, m.payload ++ rest) =
        rw size at (read_exactly_append header (m.payload ++ rest)) in
      rw (front, parsed, read_exactly_append m.payload rest)

  after :
      (r : Result Unit × S) (f g x : Exec S Unit)
      → ((b : S) → f b ≡ (g >> x) b)
      → continue r.0 (λ _. f) r.1
        ≡ (let (t, b) = continue r.0 (λ _. g) r.1 in continue t (λ _. x) b)
  after (ok tt, b) f g x same = same b
  after (err e, b) f g x same = refl

  read_frames :
      (fuel : ℕ) (ms : List Message) (stream : Bytes) (b : S)
      → frames ms ≡ ok stream
      → length stream < fuel
      → read_loop dispatch fuel stream writer b ≡ (for_each ms deliver >> raise incomplete_read) b
  unfolding for_each
  read_frames zero ms stream b h l = absurd (omega arith)
  read_frames (suc fuel) [] stream b h l = rw (← ok_injective h) (unfold read_loop in refl)
  read_frames (suc fuel) (m ∷ ms) stream b h l =
      let (header, built, h1) =
        and_then-eq-ok
          (build_header m.message_type m.round_id m.client_id m.sequence_number (length m.payload))
          _ h in
      let (rest, framed, h2) = and_then-eq-ok (frames ms) _ h1 in
      let shorter : length rest < fuel =
        let stream_length = ap (λ (t : Bytes). length t) (ok_injective h2) in
        let header_length =
          (parse-build_header m.message_type m.round_id m.client_id m.sequence_number
            (length m.payload) header built).0 in
        omega (arith, length-append header (m.payload ++ rest), length-append m.payload rest) in
      rw (← ok_injective h2, read_message fuel m header rest b built)
        (after (deliver m b) (read_loop dispatch fuel rest writer) (for_each ms deliver)
          (raise incomplete_read) (λ b'. read_frames fuel ms rest b' framed shorter))

  caught_end :
      (r : Result Unit × S)
      → ◌≡◌ {A = Result Unit × S}
          (let (t, b) = continue r.0 (λ _. raise incomplete_read) r.1 in (caught t, b))
          (caught r.0, r.1)
  caught_end (ok tt, b) = refl
  caught_end (err e, b) = refl

  -- A peer that sends any number of messages, each with the header that `_build_header` makes for
  -- its payload, has them dispatched one by one in the order it sent them, up to the first that
  -- raises; the end of the stream and a lost connection are no failure, and any other exception
  -- leaves the method.
  pub handle_client_dispatches :
      (ms : List Message) (stream : Bytes) (state : S)
      → frames ms ≡ ok stream
      → handle_client dispatch stream writer state
        ≡ (let (result, state') = for_each ms deliver state in (caught result, state'))
  unfolding handle_client
  handle_client_dispatches ms stream state h =
      rw (read_frames (suc (length stream)) ms stream state h (omega arith))
        (caught_end (for_each ms deliver state))

-- The fuel of the connection loop never shows: any amount above the length of the stream gives the
-- same result, whatever the stream holds.
pub read_loop_enough :
    {S : Type 0} (dispatch : MessageHeader → Bytes → ℕ → Exec S Unit) (fuel fuel' : ℕ)
    (stream : Bytes) (writer : ℕ) (state : S)
    → length stream < fuel
    → length stream < fuel'
    → read_loop dispatch fuel stream writer state ≡ read_loop dispatch fuel' stream writer state
unfolding read_loop
read_loop_enough dispatch zero fuel' stream writer state h h' = absurd (omega arith)
read_loop_enough dispatch (suc fuel) zero stream writer state h h' = absurd (omega arith)
read_loop_enough dispatch (suc fuel) (suc fuel') stream writer state h h' =
    elim (Bool-cases (ltb (length stream) 16)) [
      | inl short ↦ rw short
      | inr long ↦ rw long (
          same_after _ _ (parse_header (take 16 stream)) state (λ header _.
            same_after _ _ (read_exactly header.payload_length (drop 16 stream)) state
              (λ parts split. same_after_action (dispatch header parts.0 writer) _ _ state (λ b.
                let rest = read_exactly_rest header.payload_length (drop 16 stream) parts split in
                let whole = length-drop 16 stream in
                let enough : 16 ≤ length stream = ground arith in
                read_loop_enough dispatch fuel fuel' parts.1 writer b (omega arith)
                  (omega arith)))))
    ]
