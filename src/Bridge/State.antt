-- ===== src/Bridge/State.antt =====
-- The state of the server: ClientState, RoundState and the fields of ProtocolBridge, and the
-- actions that its methods are made of. A method that is given a `round_state` is an action on a
-- `Session`: the round, which it shares with `self.rounds`, and what else it can change.
use dropout.Prelude.{ℕ, Bool, true, false, Option, none, some, List, [], ◌∷◌, ◌++◌, if◌then◌else◌}
use dropout.Prelude.Dict.{Dict, lookup, insert}
use dropout.Prelude.Exec.{Exec, ok, err, key_error, connection_reset}
use dropout.Bytes.{Bytes}

pub record ClientState : Type 0 where
  pub client_id : ℕ
  pub round_id : ℕ
  pub public_key : Option Bytes
  pub shared_secret : Option Bytes
  pub expected_chunks : ℕ
  pub received_chunks : Dict Bytes
  pub completed : Bool
  pub pairwise_seeds : Dict Bytes
  pub stream_seeds : Dict Bytes
  pub sample_count : ℕ
  -- an attribute that only `_handle_shamir_share` adds
  pub shamir_shares : Option (List Bytes)

-- ClientState(client_id=..., round_id=...)
abbrev pub new_client : ℕ → ℕ → ClientState
new_client client_id round_id = record {
  client_id = client_id;
  round_id = round_id;
  public_key = none;
  shared_secret = none;
  expected_chunks = 0;
  received_chunks = [];
  completed = false;
  pairwise_seeds = [];
  stream_seeds = [];
  sample_count = 0;
  shamir_shares = none;
}

pub data Stage : Type 0 where
  init mask_setup unmasking error round_complete : Stage

pub record RoundState : Type 0 where
  pub round_id : ℕ
  pub expected_clients : ℕ
  pub threshold : ℕ
  pub chunk_size : ℕ
  pub model_size : ℕ
  pub clients : Dict ClientState
  pub stage : Stage
  pub dropout_clients : List ℕ
  pub unmasked_chunks : Dict (List ℕ)

-- RoundState(round_id=..., expected_clients=..., ...)
abbrev pub new_round : ℕ → ℕ → ℕ → ℕ → ℕ → RoundState
new_round round_id expected_clients threshold chunk_size model_size = record {
  round_id = round_id;
  expected_clients = expected_clients;
  threshold = threshold;
  chunk_size = chunk_size;
  model_size = model_size;
  clients = [];
  stage = init;
  dropout_clients = [];
  unmasked_chunks = [];
}

-- `client_writers`, with a number for each StreamWriter; what was handed to `write`, and how often
-- randomness was drawn.
pub record Io : Type 0 where
  pub client_writers : Dict ℕ
  pub sent : List (ℕ × Bytes)
  pub draws : ℕ

pub record ProtocolBridge : Type 0 where
  pub rounds : Dict RoundState
  pub current_round_id : ℕ
  pub io : Io

-- ProtocolBridge()
abbrev pub new_bridge : ProtocolBridge
new_bridge = record {
  rounds = [];
  current_round_id = 0;
  io = record { client_writers = []; sent = []; draws = 0 };
}

pub record Session : Type 0 where
  pub round : RoundState
  pub io : Io

-- `if x:` for an optional byte string: neither None nor b"".
abbrev pub is_set : Option Bytes → Bool
is_set none = false
is_set (some []) = false
is_set (some (b ∷ bs)) = true

abbrev pub set_client : ℕ → ClientState → Session → Session
set_client k c s = record s { round = record s.round { clients = insert k c s.round.clients } }

-- round_state.clients[k]
abbrev pub client_at : ℕ → Exec Session ClientState
client_at k s = (elim (lookup k s.round.clients) [ none ↦ err key_error | some c ↦ ok c ], s)

-- writer.write(data); await writer.drain(). The argument `lost` says whose drain raises.
abbrev pub send : (ℕ → Bool) → ℕ → Bytes → Exec Session Unit
send lost writer bytes s = (
  if lost writer then err connection_reset else ok tt,
  record s { io = record s.io { sent = s.io.sent ++ ((writer, bytes) ∷ []) } },
)
