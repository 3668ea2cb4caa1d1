-- ===== src/Bridge/Handlers/Dispatch.antt =====
-- What a message leaves alone, and what the messages without a handler do.
use dropout.Prelude.{ℕ, ◌≡◌, ◌≢◌, refl, false, Option, none, some, ◌==◌, ==-ne}
use dropout.Prelude.Dict.{lookup, lookup-insert}
use dropout.Prelude.Exec.{Exec, modify}
use dropout.Prelude.Exec.Keeps.{Keeps, keeps_rules}
use dropout.Bytes.{Bytes}
use dropout.Platform.{Platform}
use dropout.Wire.{MessageHeader}
use dropout.Bridge.State.{RoundState, Session, ProtocolBridge}
use dropout.Bridge.Handlers.{
  in_round, add_round, start_round, handle_round_init, handle_public_key, handle_mask_chunk,
  handle_client_complete, handle_dropout_notify, handle_shamir_share, dispatch_message,
}

module _ (k : ℕ) (o : Option RoundState) where
  abbrev HasRound : ProtocolBridge → Type 0
  HasRound b = lookup k b.rounds ≡ o

  in_round_others :
      (round_id : ℕ) (body : Exec Session Unit)
      → (round_id == k) ≡ false
      → Keeps HasRound (in_round round_id body)
  in_round_others round_id body ne = record { at = λ b h. go b h (lookup round_id b.rounds) refl }
    where
      go :
          (b : ProtocolBridge)
          → HasRound b
          → (r : Option RoundState) → lookup round_id b.rounds ≡ r
          → HasRound (in_round round_id body b).1
      go b h none e = rw (e, in_round) h
      go b h (some round) e = rw (e, in_round, lookup-insert, ne) h

  add_round_others :
      (round : RoundState)
      → (round.round_id == k) ≡ false
      → Keeps HasRound (modify (add_round round))
  add_round_others round ne = record { at = λ b h. rw (lookup-insert, ne) h }

  module _ (header : MessageHeader) (payload : Bytes) (ne : (header.round_id == k) ≡ false) where
    start_round_others : Keeps HasRound (start_round header.round_id payload)
    unfolding start_round
    start_round_others = search (keeps_rules, add_round_others, ne) depth 20

    handle_round_init_others : Keeps HasRound (handle_round_init header payload)
    unfolding handle_round_init
    handle_round_init_others = search (keeps_rules, start_round_others)

    module _ (platform : Platform) (writer : ℕ) where
      dispatch_others : Keeps HasRound (dispatch_message platform header payload writer)
      unfolding dispatch_message handle_public_key handle_mask_chunk handle_client_complete
          handle_dropout_notify handle_shamir_share
      dispatch_others = search (keeps_rules, in_round_others, handle_round_init_others, ne) depth 12

-- A message changes no round but the one that its header names.
pub dispatch_message_others :
    (platform : Platform) (header : MessageHeader) (payload : Bytes) (writer k : ℕ)
    (bridge : ProtocolBridge)
    → header.round_id ≢ k
    → lookup k (dispatch_message platform header payload writer bridge).1.rounds
      ≡ lookup k bridge.rounds
dispatch_message_others platform header payload writer k bridge other =
    (dispatch_others k (lookup k bridge.rounds) header payload (==-ne header.round_id k other)
        platform writer).at
      bridge refl
