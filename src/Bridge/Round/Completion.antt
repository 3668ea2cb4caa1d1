-- ===== src/Bridge/Round/Completion.antt =====
-- `_check_round_completion` where too few clients are left.
use dropout.Prelude.{
  ℕ, ◌+◌, ◌<◌, ◌≡◌, refl, arith, Bool, true, false, not, ◌&&◌, ◌||◌, List, [], ◌∷◌, if◌then◌else◌,
  inl, inr, Bool-cases, length,
}
use dropout.Prelude.Exec.{Exec, ok, err, name_error, for_each}
use dropout.Prelude.Int.{pos, sub_ℕ, leb_ℤ, ltb_ℤ}
use dropout.Platform.{Platform}
use dropout.Bridge.State.{Session, error}
use dropout.Bridge.Aggregate.{count_completed}
use dropout.Bridge.Round.{notify_failure, handle_round_failure, check_round_completion}

module _ (e d t c : ℕ) where
  abbrev ready : Bool
  ready = leb_ℤ (sub_ℕ e d) (pos c) && leb_ℤ (pos t) (sub_ℕ e d)

  abbrev too_few : Bool
  too_few = ltb_ℤ (sub_ℕ e d) (pos t)

  few-tests : e < t + d → (ready ≡ false) × (too_few ≡ true)
  few-tests h = (ground arith, ground arith)

module _ (platform : Platform) where
  open platform use {is_closing}

  -- Whether some writer is still open.
  abbrev pub any_open : List (ℕ × ℕ) → Bool
  any_open [] = false
  any_open ((client_id, writer) ∷ writers) = not (is_closing writer) || any_open writers

  notify_each :
      (writers : List (ℕ × ℕ)) (s : Session)
      → for_each writers (notify_failure platform) s
        ≡ (if any_open writers then err name_error else ok tt, s)
  unfolding for_each notify_failure
  notify_each [] s = refl
  notify_each ((client_id, writer) ∷ writers) s = elim (Bool-cases (is_closing writer)) [
    | inl e ↦ rw e (notify_each writers s)
    | inr e ↦ rw e
  ]

  module _ (unmask : Exec Session Unit) where
    -- If fewer clients are left than the threshold asks for, the round is marked as failed, nothing
    -- else changes, no message is sent, and NameError is raised if a writer is still open.
    pub check_round_completion_failure :
        (s : Session)
        → s.round.expected_clients < s.round.threshold + length s.round.dropout_clients
        → check_round_completion platform unmask s ≡ (
          if any_open s.io.client_writers then err name_error else ok tt,
          record s { round = record s.round { stage = error } },
        )
    unfolding check_round_completion handle_round_failure
    check_round_completion_failure s few =
        let e = s.round.expected_clients in
        let d = length s.round.dropout_clients in
        let t = s.round.threshold in
        let c = count_completed s.round.clients in
        let (not_ready, fails) = few-tests e d t c few in rw (not_ready, fails, notify_each)
