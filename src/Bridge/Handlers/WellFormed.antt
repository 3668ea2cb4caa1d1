-- ===== src/Bridge/Handlers/WellFormed.antt =====
-- Every message keeps the rounds well formed: each received chunk has the length that the round
-- announced, so that no chunk makes `struct.unpack` raise.
use dropout.Prelude.{
  ℕ, ◌*◌, ◌≡◌, refl, sym, arith, Option, none, some, length, ◌==◌, inl, inr, Bool-cases,
}
use dropout.Prelude.Dict.{lookup, AllValues, AllValues-insert, AllValues-lookup}
use dropout.Prelude.Exec.{Exec, modify}
use dropout.Prelude.Exec.Keeps.{Keeps, keeps_rules}
use mathlib.Core.Path.{subst}
use dropout.Bytes.{Bytes}
use dropout.Platform.{Platform}
use dropout.Wire.{MessageHeader}
use dropout.Bridge.State.{ClientState, RoundState, Session, ProtocolBridge, new_round}
use dropout.Bridge.Aggregate.Totality.{ChunksFit}
use dropout.Bridge.Keys.Fits.{SessionFits, Keeps-set_client}
use dropout.Bridge.Round.{trigger_recovery, check_round_completion, unmask_and_aggregate}
use dropout.Bridge.Round.Fits.{
  trigger_recovery-fits, unmask_and_aggregate-fits, check_round_completion-fits,
}
use dropout.Bridge.Handlers.{
  in_round, with_client, add_round, start_round, register_key, set_writer, store_key, store_chunk,
  add_dropout, handle_round_init, handle_public_key, handle_mask_chunk, handle_client_complete,
  handle_dropout_notify, handle_shamir_share, dispatch_message,
}

abbrev pub RoundFits : RoundState → Type 0
RoundFits round = AllValues (ChunksFit round.chunk_size) round.clients

abbrev pub IsWellFormed : ProtocolBridge → Type 0
IsWellFormed bridge = AllValues RoundFits bridge.rounds

pub Keeps-in_round :
    (round_id : ℕ) (body : Exec Session Unit)
    → ((cs : ℕ) → Keeps (SessionFits cs) body)
    → Keeps IsWellFormed (in_round round_id body)
Keeps-in_round round_id body keep = record { at = λ b h. go b h (lookup round_id b.rounds) refl }
  where
    stored :
        (b : ProtocolBridge) (round : RoundState)
        → IsWellFormed b
        → lookup round_id b.rounds ≡ some round
        → RoundFits (body (record { round = round; io = b.io })).1.round
    stored b round h e =
        let s : Session = record { round = round; io = b.io } in
        let (size, fits) =
          (keep round.chunk_size).at s (refl, AllValues-lookup RoundFits round_id b.rounds h e) in
        subst (λ cs. AllValues (ChunksFit cs) (body s).1.round.clients) (sym size) fits

    go :
        (b : ProtocolBridge)
        → IsWellFormed b
        → (o : Option RoundState) → lookup round_id b.rounds ≡ o
        → IsWellFormed (in_round round_id body b).1
    go b h none e = rw (e, in_round) h
    go b h (some round) e =
        rw (e, in_round)
          (AllValues-insert RoundFits round_id (body (record { round = round; io = b.io })).1.round
            b.rounds (stored b round h e) h)

pub Keeps-with_client :
    {cs : ℕ} (k : ℕ) (body : ClientState → Exec Session Unit)
    → ((c : ClientState) → ChunksFit cs c → Keeps (SessionFits cs) (body c))
    → Keeps (SessionFits cs) (with_client k body)
Keeps-with_client {cs} k body keep = record { at = λ s h. go s h (lookup k s.round.clients) refl }
  where
    go :
        (s : Session)
        → SessionFits cs s
        → (o : Option ClientState) → lookup k s.round.clients ≡ o
        → SessionFits cs (with_client k body s).1
    go s h none e = rw (e, with_client) h
    go s h (some c) e =
        rw (e, with_client)
          ((keep c (AllValues-lookup (ChunksFit cs) k s.round.clients h.1 e)).at s h)

Keeps-add_round :
    (round_id expected_clients threshold chunk_size model_size : ℕ)
    → Keeps IsWellFormed
        (modify (add_round (new_round round_id expected_clients threshold chunk_size model_size)))
Keeps-add_round round_id n t cs m = record {
  at = λ b h. AllValues-insert RoundFits round_id (new_round round_id n t cs m) b.rounds tt h;
}

start_round-IsWellFormed :
    (round_id : ℕ) (payload : Bytes) → Keeps IsWellFormed (start_round round_id payload)
unfolding start_round
start_round-IsWellFormed round_id payload = search (keeps_rules, Keeps-add_round) depth 20

pub handle_round_init-IsWellFormed :
    (header : MessageHeader) (payload : Bytes)
    → Keeps IsWellFormed (handle_round_init header payload)
unfolding handle_round_init
handle_round_init-IsWellFormed header payload = search (keeps_rules, start_round-IsWellFormed)

module _ {cs : ℕ} where
  register_key-fits :
      (client_id round_id : ℕ) (payload : Bytes) (s : Session) (o : Option ClientState)
      → lookup client_id s.round.clients ≡ o
      → SessionFits cs s
      → ChunksFit cs (register_key client_id round_id payload o)
  register_key-fits client_id round_id payload s none e h = tt
  register_key-fits client_id round_id payload s (some c) e h =
      AllValues-lookup (ChunksFit cs) client_id s.round.clients h.1 e

  store_key-fits :
      (header : MessageHeader) (payload : Bytes) → Keeps (SessionFits cs) (store_key header payload)
  unfolding store_key
  store_key-fits header payload = record {
    at = λ s h. (
      h.0,
      AllValues-insert (ChunksFit cs) header.client_id _ s.round.clients
          (register_key-fits header.client_id header.round_id payload s
            (lookup header.client_id s.round.clients) refl h)
          h.1,
    );
  }

  pub set_writer-fits :
      (client_id writer : ℕ) → Keeps (SessionFits cs) (modify (set_writer client_id writer))
  set_writer-fits client_id writer = record { at = λ s h. h }

  store_chunk-fits :
      (header : MessageHeader) (payload : Bytes) (c : ClientState)
      → ChunksFit cs c
      → Keeps (SessionFits cs) (store_chunk header payload c)
  unfolding store_chunk
  store_chunk-fits header payload c fit = record {
    at = λ s h. elim (Bool-cases (length payload == s.round.chunk_size * 2)) [
      | inl e ↦
          let size = h.0 in
          let same : length payload ≡ 2 * cs = ground arith in
          let received =
            AllValues-insert (λ (chunk : Bytes). length chunk ≡ 2 * cs) header.sequence_number
              payload c.received_chunks same fit in
          rw (e, store_chunk)
            (h.0, AllValues-insert (ChunksFit cs) header.client_id _ s.round.clients received h.1)
      | inr e ↦ rw (e, store_chunk) h
    ];
  }

  add_dropout-fits : (client_id : ℕ) → Keeps (SessionFits cs) (modify (add_dropout client_id))
  add_dropout-fits client_id = record { at = λ s h. ground (arith, h) }

pub handle_public_key-IsWellFormed :
    (header : MessageHeader) (payload : Bytes) (writer : ℕ)
    → Keeps IsWellFormed (handle_public_key header payload writer)
unfolding handle_public_key
handle_public_key-IsWellFormed header payload writer =
    search (keeps_rules, Keeps-in_round, store_key-fits, set_writer-fits)

pub handle_mask_chunk-IsWellFormed :
    (header : MessageHeader) (payload : Bytes)
    → Keeps IsWellFormed (handle_mask_chunk header payload)
unfolding handle_mask_chunk
handle_mask_chunk-IsWellFormed header payload =
    search (Keeps-in_round, Keeps-with_client, store_chunk-fits)

-- Over a `_trigger_recovery` and a `_check_round_completion` that keep the length of the chunks.
module _ (check : Exec Session Unit) (keeps : (cs : ℕ) → Keeps (SessionFits cs) check) where
  pub handle_client_complete-IsWellFormed :
      (header : MessageHeader) (payload : Bytes)
      → Keeps IsWellFormed (handle_client_complete check header payload)
  unfolding handle_client_complete
  handle_client_complete-IsWellFormed header payload =
      search (keeps_rules, Keeps-in_round, Keeps-with_client, Keeps-set_client, keeps) depth 9

  pub handle_dropout_notify-IsWellFormed :
      (recover : Exec Session Unit)
      → ((cs : ℕ) → Keeps (SessionFits cs) recover)
      → (header : MessageHeader) (payload : Bytes)
      → Keeps IsWellFormed (handle_dropout_notify recover check header payload)
  unfolding handle_dropout_notify
  handle_dropout_notify-IsWellFormed recover recovers header payload =
      search (keeps_rules, Keeps-in_round, add_dropout-fits, recovers, keeps) depth 9

handle_shamir_share-IsWellFormed :
    (header : MessageHeader) (payload : Bytes)
    → Keeps IsWellFormed (handle_shamir_share header payload)
unfolding handle_shamir_share
handle_shamir_share-IsWellFormed header payload =
    search (Keeps-in_round, Keeps-with_client, Keeps-set_client)

module _ (platform : Platform) where
  check-fits :
      (cs : ℕ)
      → Keeps (SessionFits cs) (check_round_completion platform (unmask_and_aggregate platform))
  check-fits cs =
      check_round_completion-fits platform (unmask_and_aggregate platform)
        (unmask_and_aggregate-fits platform)

  complete_rule :
      (header : MessageHeader) (payload : Bytes)
      → Keeps IsWellFormed (
          handle_client_complete
            (check_round_completion platform (unmask_and_aggregate platform))
            header
            payload)
  complete_rule =
      handle_client_complete-IsWellFormed
        (check_round_completion platform (unmask_and_aggregate platform)) check-fits

  dropout_rule :
      (header : MessageHeader) (payload : Bytes)
      → Keeps IsWellFormed (
          handle_dropout_notify
            (trigger_recovery platform)
            (check_round_completion platform (unmask_and_aggregate platform))
            header
            payload)
  dropout_rule =
      handle_dropout_notify-IsWellFormed
        (check_round_completion platform (unmask_and_aggregate platform)) check-fits
        (trigger_recovery platform) (λ cs. trigger_recovery-fits platform)

  -- Every message, whatever it raises, keeps the server well formed: the chunks of every client of
  -- every round have two bytes for each of the `chunk_size` elements of that round.
  pub dispatch_message-IsWellFormed :
      (header : MessageHeader) (payload : Bytes) (writer : ℕ) (bridge : ProtocolBridge)
      → IsWellFormed bridge
      → IsWellFormed (dispatch_message platform header payload writer bridge).1
  unfolding dispatch_message
  dispatch_message-IsWellFormed header payload writer bridge h = kept.at bridge h
    where
      kept : Keeps IsWellFormed (dispatch_message platform header payload writer)
      kept =
          search
            (
              keeps_rules, handle_public_key-IsWellFormed, handle_mask_chunk-IsWellFormed,
              complete_rule, dropout_rule, handle_round_init-IsWellFormed,
              handle_shamir_share-IsWellFormed,
            )
            depth 12
