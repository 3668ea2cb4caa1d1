-- ===== src/Bridge/Round/Sends.antt =====
-- Sending the result of a round where no connection is lost.
use dropout.Prelude.{
  ℕ, zero, suc, ◌+◌, ◌/◌, ◌<◌, ◌≤◌, ◌≡◌, ◌==◌, refl, sym, ap, arith, false, List, [], ◌∷◌, ◌++◌,
  map, length, lt→ltb, All, All-map,
}
use dropout.Prelude.Int.{pos}
use dropout.Prelude.Exec.{Result, ok, and_then, and_then-eq-ok, Exec, lift, gets, for_each, ◌>>=◌}
use dropout.Prelude.Exec.Returns.{Returns, Returns-lift, Returns-gets, Returns-for_each}
use dropout.Bytes.{Bytes, pack_int16s}
use dropout.Bytes.Int16.{IsInt16, pack_int16s_total, length-pack_int16s}
use dropout.Field.Shape.{IsField, IsShaped}
use dropout.Platform.{Platform}
use dropout.Wire.{build_header, header_bytes}
use dropout.Wire.MsgType
use dropout.Bridge.State.{RoundState, Session, send}
use dropout.Bridge.Aggregate.{num_chunks_of}
use dropout.Bridge.Telemetry.{Telemetry, collect_telemetry, pack_telemetry}
use dropout.Bridge.Round.{publish, send_result, send_results, chunk_values, range}
use dropout.Bridge.Round.Publish.{HasRound}
use mathlib.Core.Path.{subst}

IsField-ints : (l : List ℕ) → IsField l → All IsInt16 (map pos l)
IsField-ints [] h = tt
IsField-ints (x ∷ l) h = (omega (arith, h.0), IsField-ints l h.1)

length-map_pos : (l : List ℕ) → length (map pos l) ≡ length l
length-map_pos [] = refl
length-map_pos (x ∷ l) = ap suc (length-map_pos l)

every : {A : Type 0} (P : A → Type 0) → ((a : A) → P a) → (xs : List A) → All P xs
every P f [] = tt
every P f (x ∷ xs) = (f x, every P f xs)

-- What sending needs of a round.
pub record IsSendable (r : RoundState) : Type 0 where
  pub small_round : r.round_id < 4294967296
  pub positive : 0 < r.chunk_size
  pub short : r.chunk_size < 32738
  pub few : r.model_size / r.chunk_size ≤ 65536
  pub shaped : IsShaped (r.model_size / r.chunk_size) r.chunk_size r.unmasked_chunks

module _ (platform : Platform) (r : RoundState) (sendable : IsSendable r)
    (connected : (writer : ℕ) → platform.connection_lost writer ≡ false) where
  send-Returns :
      (writer : ℕ) (bytes : Bytes)
      → Returns (HasRound platform r) (send platform.connection_lost writer bytes)
  send-Returns writer bytes = record { at = λ s h. (tt, rw (connected writer) refl, h) }

  send_result-Returns :
      (telemetry : Bytes) (writer k : ℕ)
      → length telemetry ≡ 60
      → k < r.model_size / r.chunk_size
      → Returns (HasRound platform r) (send_result platform telemetry writer k)
  unfolding send_result chunk_values build_header
  send_result-Returns telemetry writer k size below =
      let header : RoundState → Bytes → Result Bytes = λ round result.
        build_header MsgType.round_complete round.round_id 0 k (length result + length telemetry) in
      let to_writer : Bytes → Bytes → Exec Session Unit =
        λ result bytes. send platform.connection_lost writer (bytes ++ (result ++ telemetry)) in
      let with_result : RoundState → Bytes → Exec Session Unit =
        λ round result. lift (header round result) >>= to_writer result in
      let with_values : RoundState → List ℕ → Exec Session Unit =
        λ round values. lift (pack_int16s (map pos values)) >>= with_result round in
      Returns-gets (λ s. s.round)
        (λ round. lift (chunk_values platform k round.unmasked_chunks) >>= with_values round)
        (λ round. round ≡ r) (λ s h. h)
        (λ round same.
          subst
            (λ x.
              Returns (HasRound platform r)
                (lift (chunk_values platform k x.unmasked_chunks) >>= with_values x))
            (sym same)
            (let (values, at, long, field) = sendable.shaped k below in
              let (result, packed) =
                pack_int16s_total (map pos values) (IsField-ints values field) in
              let sized = length-pack_int16s (map pos values) result packed in
              let bytes : Bytes =
                header_bytes MsgType.round_complete r.round_id 0 k
                  (length result + length telemetry) in
              let small : length result + length telemetry < 65536 =
                omega (arith, sendable.short, length-map_pos values) in
              Returns-lift (chunk_values platform k r.unmasked_chunks) (with_values r) values
                (rw (chunk_values, at) refl)
                (Returns-lift (pack_int16s (map pos values)) (with_result r) result packed (
                  Returns-lift (header r result) (to_writer result) bytes
                    (rw
                      (
                        lt→ltb r.round_id 4294967296 sendable.small_round,
                        lt→ltb k 65536 (omega (arith, sendable.few)),
                        lt→ltb (length result + length telemetry) 65536 small,
                      )
                      refl)
                    (send-Returns writer _)))))

  below-range : (i left n : ℕ) → i + left ≡ n → All (λ k. k < n) (range platform i left)
  unfolding range
  below-range i zero n total = tt
  below-range i (suc left) n total = (omega arith, below-range (suc i) left n (omega arith))

  send_results-Returns :
      (telemetry : Bytes) (entry : ℕ × ℕ)
      → length telemetry ≡ 60
      → Returns (HasRound platform r) (send_results platform telemetry entry)
  unfolding send_results num_chunks_of
  send_results-Returns telemetry (client_id, writer) size =
      let each : ℕ → Exec Session Unit = λ num_chunks.
        for_each (range platform 0 num_chunks) (send_result platform telemetry writer) in
      let nonzero : (r.chunk_size == 0) ≡ false = ground (arith, sendable.positive) in
      let n = r.model_size / r.chunk_size in
      Returns-gets (λ s. s.round)
        (λ round. lift (num_chunks_of round.model_size round.chunk_size) >>= each)
        (λ round. round ≡ r) (λ s h. h)
        (λ round same.
          subst
            (λ x.
              Returns (HasRound platform r)
                (lift (num_chunks_of x.model_size x.chunk_size) >>= each))
            (sym same)
            (Returns-lift (num_chunks_of r.model_size r.chunk_size) each n (rw nonzero refl) (
              Returns-for_each (range platform 0 n) (send_result platform telemetry writer) (
                All-map (λ k. k < n) _ (λ k lt. send_result-Returns telemetry writer k size lt)
                  (range platform 0 n) (below-range 0 n n (omega arith))))))

  packs :
      (bytes : Bytes) × (and_then (collect_telemetry r) pack_telemetry ≡ ok bytes)
      × (length bytes ≡ 60)
  unfolding collect_telemetry pack_telemetry num_chunks_of
  packs =
      let nonzero : (r.chunk_size == 0) ≡ false = ground (arith, sendable.positive) in
      rw (nonzero, lt→ltb r.round_id 4294967296 sendable.small_round) (_, refl, refl)

  pub publish-Returns : Returns (HasRound platform r) (publish platform)
  unfolding publish
  publish-Returns =
      let (payload, both, size) = packs in
      let (t, collected, packed) = and_then-eq-ok (collect_telemetry r) pack_telemetry both in
      let to_all : Bytes → Exec Session Unit = λ payload.
        gets (λ s. s.io.client_writers) >>= λ writers.
        for_each writers (send_results platform payload) in
      let from_telemetry : Telemetry → Exec Session Unit =
        λ t. lift (pack_telemetry t) >>= to_all in
      Returns-gets (λ s. s.round) (λ round. lift (collect_telemetry round) >>= from_telemetry)
        (λ round. round ≡ r) (λ s h. h)
        (λ round same.
          subst (λ x. Returns (HasRound platform r) (lift (collect_telemetry x) >>= from_telemetry))
            (sym same)
            (Returns-lift (collect_telemetry r) from_telemetry t collected (
              Returns-lift (pack_telemetry t) to_all payload packed (
                Returns-gets (λ s. s.io.client_writers)
                  (λ writers. for_each writers (send_results platform payload)) (λ _. Unit)
                  (λ s h. tt)
                  (λ writers _.
                    Returns-for_each writers (send_results platform payload)
                      (every _ (λ entry. send_results-Returns payload entry size) writers))))))
