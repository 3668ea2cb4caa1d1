-- ===== src/Bridge/Round/Publish.antt =====
-- Sending the result does not change the round.
use dropout.Prelude.{ℕ, Bool, ◌≡◌}
use dropout.Prelude.Exec.Keeps.{Keeps, keeps_rules}
use dropout.Bytes.{Bytes}
use dropout.Platform.{Platform}
use dropout.Bridge.State.{RoundState, Session, send}
use dropout.Bridge.Round.{publish, send_result, send_results}

module _ (platform : Platform) (r : RoundState) where
  abbrev pub HasRound : Session → Type 0
  HasRound s = s.round ≡ r

  send-round :
      (lost : ℕ → Bool) (writer : ℕ) (bytes : Bytes) → Keeps HasRound (send lost writer bytes)
  send-round lost writer bytes = record { at = λ s h. h }

  send_result-round :
      (bytes : Bytes) (writer k : ℕ) → Keeps HasRound (send_result platform bytes writer k)
  unfolding send_result
  send_result-round bytes writer k = search (keeps_rules, send-round) depth 12

  send_results-round :
      (bytes : Bytes) (entry : ℕ × ℕ) → Keeps HasRound (send_results platform bytes entry)
  unfolding send_results
  send_results-round bytes entry = search (keeps_rules, send_result-round) depth 12

  pub publish-round : Keeps HasRound (publish platform)
  unfolding publish
  publish-round = search (keeps_rules, send_results-round) depth 12
