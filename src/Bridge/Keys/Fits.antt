-- ===== src/Bridge/Keys/Fits.antt =====
-- Key setup keeps the length of the received chunks.
use dropout.Prelude.{
  ℕ, ◌≡◌, refl, arith, Bool, true, false, Option, none, some, List, [], ◌∷◌, if◌then◌else◌,
}
use dropout.Prelude.Dict.{lookup, AllValues, AllValues-insert, AllValues-lookup}
use dropout.Prelude.Exec.{Result, ok, err, Exec, modify, continue, ◌>>=◌, ◌>>◌}
use dropout.Prelude.Exec.Keeps.{Keeps}
use dropout.Bytes.{Bytes}
use dropout.Platform.{Platform}
use dropout.Bridge.State.{ClientState, Session, Stage, set_client, client_at, send}
use dropout.Bridge.Aggregate.Totality.{ChunksFit}
use dropout.Bridge.Keys.{setup_keys_and_masks}
use dropout.Bridge.Keys.Keeps.{IsKeyInvariant, setup_keys_and_masks-Keeps}

-- The round has chunks of size `cs`, and so have all that its clients sent.
abbrev pub SessionFits : ℕ → Session → Type 0
SessionFits cs s = (s.round.chunk_size ≡ cs) × AllValues (ChunksFit cs) s.round.clients

module _ {cs : ℕ} where
  pub Keeps-set_client :
      (k : ℕ) (c : ClientState) → ChunksFit cs c → Keeps (SessionFits cs) (modify (set_client k c))
  Keeps-set_client k c fit = record {
    at = λ s h. (h.0, AllValues-insert (ChunksFit cs) k c s.round.clients fit h.1);
  }

  pub Keeps-client_at :
      {B : Type 0} (k : ℕ) (f : ClientState → Exec Session B)
      → ((c : ClientState) → ChunksFit cs c → Keeps (SessionFits cs) (f c))
      → Keeps (SessionFits cs) (client_at k >>= f)
  Keeps-client_at k f keep = record { at = λ s h. go s h (lookup k s.round.clients) refl }
    where
      go :
          (s : Session)
          → SessionFits cs s
          → (o : Option ClientState) → lookup k s.round.clients ≡ o
          → SessionFits cs
              (continue
                (elim o [ none ↦ err dropout.Prelude.Exec.key_error | some c ↦ ok c ])
                f
                s).1
      go s h none e = h
      go s h (some c) e = (keep c (AllValues-lookup (ChunksFit cs) k s.round.clients h.1 e)).at s h

  pub Keeps-send :
      (lost : ℕ → Bool) (writer : ℕ) (bytes : Bytes)
      → Keeps (SessionFits cs) (send lost writer bytes)
  Keeps-send lost writer bytes = record { at = λ s h. h }

  pub Keeps-stage :
      (stage : Stage)
      → Keeps (SessionFits cs) (modify (λ s. record s { round = record s.round { stage = stage } }))
  Keeps-stage stage = record { at = λ s h. h }

SessionFits-IsKeyInvariant :
    {cs : ℕ} → IsKeyInvariant (SessionFits cs) (λ k c. ChunksFit cs c) (λ _. Unit)
SessionFits-IsKeyInvariant {cs = cs} = record {
  found = λ k c s h e. AllValues-lookup (ChunksFit cs) k s.round.clients h.1 e;
  set_secret =
      λ k c secret s _ fit h. (h.0, AllValues-insert (ChunksFit cs) k _ s.round.clients fit h.1);
  set_seeds =
      λ k c seeds s fit h. (h.0, AllValues-insert (ChunksFit cs) k _ s.round.clients fit h.1);
  set_io = λ io s h. h;
  set_stage = λ stage s h. h;
}

-- `_setup_keys_and_masks` keeps the length of the received chunks.
pub setup_keys_and_masks-fits :
    (platform : Platform) {cs : ℕ} → Keeps (SessionFits cs) (setup_keys_and_masks platform)
setup_keys_and_masks-fits platform =
    setup_keys_and_masks-Keeps platform SessionFits-IsKeyInvariant (λ _ _ _ _ _. tt)
