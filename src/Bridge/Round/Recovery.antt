-- ===== src/Bridge/Round/Recovery.antt =====
-- `_trigger_recovery` never recovers a secret: its shares are derived keys of 32 bytes, and
-- `reconstruct_secret_bytes` takes none but those of 64 bytes.
use dropout.Prelude.{
  ℕ, ◌+◌, ◌<◌, ◌≡◌, refl, arith, Bool, false, ◌&&◌, ◌||◌, not, Option, none, some, List, [], ◌∷◌,
  leb, ◌==◌, if◌then◌else◌, inl, inr, Bool-cases, length, All,
}
use dropout.Prelude.Dict.{Dict}
use dropout.Prelude.Exec.{Result, ok, err, value_error, for_each}
use dropout.Bytes.{Bytes}
use dropout.Platform.{Platform}
use dropout.Kdf.Derive.{derive_shamir_secret_total}
use dropout.Shamir.{Side, head, reconstruct_secret_bytes}
use dropout.Bridge.State.{ClientState, Session, is_set}
use dropout.Bridge.Round.{add_share, recovery_shares, recover_client, trigger_recovery}

-- The clients, other than the dropped one, that have a secret.
abbrev pub peers_with_secret : ℕ → Dict ClientState → ℕ
peers_with_secret dropout_id [] = 0
peers_with_secret dropout_id ((client_id, c) ∷ clients) =
    (if not (client_id == dropout_id) && is_set c.shared_secret then 1 else 0)
    + peers_with_secret dropout_id clients

abbrev IsShort : (ℕ × Bytes) → Type 0
IsShort share = length share.1 ≡ 32

reconstruct_short :
    (side : Side) (shares : List (ℕ × Bytes))
    → All IsShort shares
    → reconstruct_secret_bytes side shares ≡ err value_error
unfolding reconstruct_secret_bytes
reconstruct_short side [] h = refl
reconstruct_short side ((x, y) ∷ shares) h = rw h.0

-- Whether for some dropped client as many others have a secret as the threshold asks for.
abbrev pub any_enough : Session → List ℕ → Bool
any_enough s [] = false
any_enough s (k ∷ ids) =
    leb s.round.threshold (peers_with_secret k s.round.clients) || any_enough s ids

module _ (platform : Platform) where
  module _ (dropout_id round_id : ℕ) (id_fits : dropout_id < 256)
      (round_fits : round_id < 4294967296) where
    -- A list of `n` short shares.
    abbrev Returns : Result (List (ℕ × Bytes)) → ℕ → Type 0
    Returns r n =
        (shares : List (ℕ × Bytes)) × (r ≡ ok shares) × (length shares ≡ n) × All IsShort shares

    add_share_total :
        (client_id : ℕ) (secret : Option Bytes) (rest : Result (List (ℕ × Bytes))) (n : ℕ)
        → Returns rest n
        → Returns
            (add_share platform client_id dropout_id round_id secret rest)
            ((if is_set secret then 1 else 0) + n)
    unfolding add_share
    add_share_total client_id none rest n (shares, e, l, h) = (shares, e, omega arith, h)
    add_share_total client_id (some []) rest n (shares, e, l, h) = (shares, e, omega arith, h)
    add_share_total client_id (some (b ∷ bs)) rest n (shares, e, l, h) =
        let (out, d, short) =
          derive_shamir_secret_total platform (b ∷ bs) dropout_id round_id id_fits round_fits in
        ((client_id, out) ∷ shares, rw (d, e) refl, omega arith, (short, h))

    recovery_shares_total :
        (clients : Dict ClientState)
        → Returns
            (recovery_shares platform dropout_id round_id clients)
            (peers_with_secret dropout_id clients)
    unfolding recovery_shares
    recovery_shares_total [] = ([], refl, refl, tt)
    recovery_shares_total ((client_id, c) ∷ clients) = elim (Bool-cases (client_id == dropout_id)) [
      | inl e ↦
          let (shares, r, l, h) = recovery_shares_total clients in
          (shares, rw e r, rw e (omega arith), h)
      | inr e ↦ rw e (
          add_share_total client_id c.shared_secret
            (recovery_shares platform dropout_id round_id clients)
            (peers_with_secret dropout_id clients) (recovery_shares_total clients))
    ]

  -- For a dropped client and a round whose numbers fit their header fields, the recovery leaves the
  -- state as it is: it returns if fewer other clients than the threshold have a secret, and raises
  -- ValueError if as many have.
  pub recover_client_fails :
      (s : Session) (dropout_id : ℕ)
      → dropout_id < 256
      → s.round.round_id < 4294967296
      → recover_client platform dropout_id s ≡ (
        if leb s.round.threshold (peers_with_secret dropout_id s.round.clients)
            then err value_error
            else ok tt,
        s,
      )
  unfolding recover_client
  recover_client_fails s dropout_id id_fits round_fits =
      let (shares, e, l, h) =
        recovery_shares_total dropout_id s.round.round_id id_fits round_fits s.round.clients in
      elim (Bool-cases (leb s.round.threshold (peers_with_secret dropout_id s.round.clients))) [
        | inl t ↦ rw (e, l, t, reconstruct_short head shares h)
        | inr t ↦ rw (e, l, t)
      ]

  recover_each :
      (s : Session) (ids : List ℕ)
      → All (λ k. k < 256) ids
      → s.round.round_id < 4294967296
      → for_each ids (recover_client platform) s
        ≡ (if any_enough s ids then err value_error else ok tt, s)
  unfolding for_each
  recover_each s [] h round_fits = refl
  recover_each s (k ∷ ids) h round_fits =
      elim (Bool-cases (leb s.round.threshold (peers_with_secret k s.round.clients))) [
        | inl t ↦ rw (recover_client_fails s k h.0 round_fits, t)
        | inr t ↦
            rw (recover_client_fails s k h.0 round_fits, t) (recover_each s ids h.1 round_fits)
      ]

  -- Where the numbers of the dropped clients and of the round fit their header fields, the recovery
  -- of a round changes nothing, and raises ValueError exactly if, for some dropped client, as many
  -- others have a secret as the threshold asks for.
  pub trigger_recovery_fails :
      (s : Session)
      → All (λ k. k < 256) s.round.dropout_clients
      → s.round.round_id < 4294967296
      → trigger_recovery platform s
        ≡ (if any_enough s s.round.dropout_clients then err value_error else ok tt, s)
  unfolding trigger_recovery
  trigger_recovery_fails s h round_fits = recover_each s s.round.dropout_clients h round_fits
