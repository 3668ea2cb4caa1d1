-- ===== src/Client/Chunk.antt =====
-- The answer of the mock client of host_server/mock_client.py to the request of a chunk.
use dropout.Prelude.{
  ℕ, zero, suc, ◌+◌, ◌*◌, ◌<◌, ◌≡◌, refl, sym, ap, ◌∙◌, arith, true, false, List, [], ◌∷◌, ◌++◌,
  append_nil, map, length, All, ==-refl, replicate, some,
}
use dropout.Prelude.Int.{ℤ, pos, ◌+ℤ◌, ◌%ℤ◌}
use dropout.Prelude.Dict.{lookup, insert}
use dropout.Prelude.Exec.{ok, for_each}
use dropout.Field.{field_modulus, residue-lt}
use dropout.Field.Shape.{IsField}
use dropout.Bytes.{Bytes}
use dropout.Bytes.Int16.{IsInt16, unpack_int16s_total, pack_int16s_total, length-pack_int16s}
use dropout.Platform.{Platform, KeyExchange, Urandom}
use dropout.Kdf.Derive.{derive_stream_mask_seed_total}
use dropout.Masks.Totality.{generate_mask_total}
use dropout.Wire.{header_bytes}
use dropout.Wire.RoundTrip.{build_header_fits, header_of}
use dropout.Bridge.State.{ClientState, RoundState, ProtocolBridge}
use dropout.Bridge.Handlers.{
  in_round, with_client, handle_mask_chunk, store_chunk, dispatch_message, handle_client,
}
use dropout.Bridge.Handlers.Stream.{Message, frames, handle_client_dispatches}
use dropout.Client.{RunClient, mask_values, send_chunk}

mask_values_total :
    (n : ℕ) (values : List ℤ) (mask : List ℕ)
    → length values ≡ n
    → length mask ≡ n
    → (out : List ℕ) × ((mask_values n values mask ≡ ok out) × ((length out ≡ n) × IsField out))
unfolding mask_values
mask_values_total zero values mask hv hm = ([], (refl, (refl, tt)))
mask_values_total (suc n) [] mask hv hm = absurd (omega arith)
mask_values_total (suc n) (v ∷ values) [] hv hm = absurd (omega arith)
mask_values_total (suc n) (v ∷ values) (m ∷ mask) hv hm =
    let (out, (e, (l, f))) = mask_values_total n values mask (omega arith) (omega arith) in
    (((v +ℤ pos m) %ℤ field_modulus) ∷ out, (rw e refl, (ap suc l, (residue-lt (v +ℤ pos m), f))))

field_fits : (l : List ℕ) → IsField l → All IsInt16 (map pos l)
field_fits [] h = tt
field_fits (a ∷ l) h = (omega arith, field_fits l h.1)

length-map_pos : (l : List ℕ) → length (map pos l) ≡ length l
length-map_pos [] = refl
length-map_pos (a ∷ l) = ap suc (length-map_pos l)

abbrev chunk_message : ℕ → ℕ → ℕ → Bytes → Message
chunk_message round_id client_id chunk_idx payload = record {
  message_type = 0x21;
  round_id = round_id;
  client_id = client_id;
  sequence_number = chunk_idx;
  payload = payload;
}

module _ (platform : Platform) (x : KeyExchange) (random : Urandom)
    (on : platform.crypto_available ≡ true)
    (cipher : (key msg : Bytes)
      → length key ≡ 32
      → (out : Bytes) × (platform.aes_ctr key (replicate 16 0) msg ≡ ok out)) where
  -- What the client sends for a request: one framed message, with two bytes for each element.
  abbrev Answered : ℕ → RunClient → RunClient → Type 0
  Answered chunk_idx s s' =
      (payload : Bytes) × ((length payload ≡ s.chunk_size * 2)
        × ((bytes : Bytes) × ((frames (chunk_message s.round_id s.client_id chunk_idx payload ∷ [])
                ≡ ok bytes)
              × (s'.sent ≡ s.sent ++ bytes))))

  send_chunk_answers :
      (chunk_idx : ℕ) (secret : Bytes) (s : RunClient)
      → s.client_id < 256
      → s.round_id < 4294967296
      → chunk_idx < 65536
      → s.chunk_size * 2 < 65536
      → s.connection_lost ≡ false
      → (s' : RunClient) × ((send_chunk platform x random chunk_idx secret s ≡ (ok tt, s'))
          × Answered chunk_idx s s')
  unfolding send_chunk
  send_chunk_answers idx secret s hc hr hi hs connected =
      let n = s.chunk_size in
      let (seed, derived, seed_length) =
        derive_stream_mask_seed_total platform secret s.client_id s.round_id idx hc hr hi in
      let (mask, generated, mask_length) =
        generate_mask_total platform on cipher 0 0 (omega arith) (omega arith) seed n seed_length in
      let chunk_data = random.urandom s.calls (n * 2) in
      let (ints, unpacked, ints_length) =
        unpack_int16s_total n chunk_data (random.length-urandom s.calls (n * 2) ∙ omega arith) in
      let (masked, (added, (masked_length, field))) =
        mask_values_total n ints mask ints_length mask_length in
      let (bytes, packed) = pack_int16s_total (map pos masked) (field_fits masked field) in
      let size : length bytes ≡ n * 2 =
        omega (arith, length-pack_int16s (map pos masked) bytes packed, length-map_pos masked) in
      let built =
        build_header_fits 0x21 s.round_id s.client_id idx (length bytes) (omega arith) hr hc hi
          (omega arith) in
      let header = header_bytes 0x21 s.round_id s.client_id idx (length bytes) in
      (
        record s { calls = s.calls + 1; sent = s.sent ++ (header ++ bytes) },
        (
          rw (derived, generated, unpacked, added, packed, built, connected),
          (
            bytes,
            (
              size,
              (
                header ++ (bytes ++ []),
                (rw built, ap (λ l. s.sent ++ (header ++ l)) (sym (append_nil bytes))),
              ),
            ),
          ),
        ),
      )

-- The server after a chunk of a client has come in.
abbrev pub with_chunk :
    ℕ → ℕ → ℕ → Bytes → RoundState → ClientState → ProtocolBridge → ProtocolBridge
with_chunk round_id client_id chunk_idx payload round c bridge = record bridge {
  rounds =
      insert round_id
        (record round {
          clients =
              insert client_id
                (record c { received_chunks = insert chunk_idx payload c.received_chunks })
                round.clients;
        })
        bridge.rounds;
}

handle_mask_chunk-known :
    (round_id client_id chunk_idx : ℕ) (payload : Bytes) (bridge : ProtocolBridge)
    (round : RoundState) (c : ClientState)
    → lookup round_id bridge.rounds ≡ some round
    → lookup client_id round.clients ≡ some c
    → length payload ≡ round.chunk_size * 2
    → handle_mask_chunk
        (header_of 0x21 round_id client_id chunk_idx (length payload))
        payload
        bridge
      ≡ (ok tt, with_chunk round_id client_id chunk_idx payload round c bridge)
unfolding handle_mask_chunk store_chunk
handle_mask_chunk-known r k idx payload bridge round c known member size =
    rw (in_round, known, with_client, member, size, ==-refl)

handle_client-chunk :
    (platform : Platform) (round_id client_id chunk_idx writer : ℕ) (payload bytes : Bytes)
    (bridge : ProtocolBridge) (round : RoundState) (c : ClientState)
    → frames (chunk_message round_id client_id chunk_idx payload ∷ []) ≡ ok bytes
    → lookup round_id bridge.rounds ≡ some round
    → lookup client_id round.clients ≡ some c
    → length payload ≡ round.chunk_size * 2
    → handle_client (dispatch_message platform) bytes writer bridge
      ≡ (ok tt, with_chunk round_id client_id chunk_idx payload round c bridge)
unfolding dispatch_message for_each
handle_client-chunk platform r k idx writer payload bytes bridge round c h known member size =
    handle_client_dispatches (dispatch_message platform) writer (chunk_message r k idx payload ∷ [])
      bytes bridge h
    ∙ rw (handle_mask_chunk-known r k idx payload bridge round c known member size)

module _ (platform : Platform) (x : KeyExchange) (random : Urandom)
    (on : platform.crypto_available ≡ true)
    (cipher : (key msg : Bytes)
      → length key ≡ 32
      → (out : Bytes) × (platform.aes_ctr key (replicate 16 0) msg ≡ ok out)) where
  -- With the cipher library at work on keys of 32 bytes, and the numbers of client, round and chunk
  -- and the size of a chunk in bytes within their fields: a client that has a secret and has not
  -- lost its connection answers the request of a chunk, and a server that knows the client in a
  -- round of the same chunk size takes the answer off its connection without an exception and stores
  -- it under the number of the chunk.
  pub chunk_request_stored :
      (chunk_idx writer : ℕ) (secret : Bytes) (s : RunClient) (bridge : ProtocolBridge)
      (round : RoundState) (c : ClientState)
      → s.client_id < 256
      → s.round_id < 4294967296
      → chunk_idx < 65536
      → s.chunk_size * 2 < 65536
      → s.connection_lost ≡ false
      → lookup s.round_id bridge.rounds ≡ some round
      → lookup s.client_id round.clients ≡ some c
      → round.chunk_size ≡ s.chunk_size
      → (s' : RunClient) × ((send_chunk platform x random chunk_idx secret s ≡ (ok tt, s'))
          × ((payload : Bytes) × ((bytes : Bytes) × ((s'.sent ≡ s.sent ++ bytes)
                  × (handle_client (dispatch_message platform) bytes writer bridge ≡ (
                    ok tt,
                    with_chunk s.round_id s.client_id chunk_idx payload round c bridge,
                  ))))))
  chunk_request_stored idx writer secret s bridge round c hc hr hi hs connected known member same =
      let (s', (answered, (payload, (size, (bytes, (framed, sent)))))) =
        send_chunk_answers platform x random on cipher idx secret s hc hr hi hs connected in
      (
        s',
        (
          answered,
          (
            payload,
            (
              bytes,
              (
                sent,
                handle_client-chunk platform s.round_id s.client_id idx writer payload bytes bridge
                    round c framed known member (size ∙ ap (λ n. n * 2) (sym same)),
              ),
            ),
          ),
        ),
      )
