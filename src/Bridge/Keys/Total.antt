-- ===== src/Bridge/Keys/Total.antt =====
-- Key setup where the encapsulation works and no connection is lost: its steps up to the seeds.
pub mod Pairs
pub mod Setup
use dropout.Prelude.{
  and_left, ℕ, ◌≡◌, refl, sym, ◌∙◌, ap, arith, ◌<◌, Bool, true, false, not, ◌&&◌, Option, none,
  some, List, [], ◌∷◌, if◌then◌else◌, ◌==◌, ◌++◌, length, inl, inr, All, Bool-cases, ltb, lt→ltb,
}
use dropout.Prelude.Dict.{
  Dict, lookup, insert, keys, lookup-insert, is_listed, lookup-keys, keys-insert, All-is_listed,
}
use dropout.Prelude.Exec.{
  Result, ok, err, key_error, for_each, Exec, gets, modify, lift, continue, ◌>>=◌, ◌>>◌,
}
use dropout.Prelude.Exec.Keeps.{Keeps}
use dropout.Prelude.Exec.Returns.{
  Ended, Ended-continue, Returns, Returns-pure, Returns-if, Returns-modify, Returns-bind,
  Returns-lift, Returns-gets, Returns-for_each,
}
use dropout.Bytes.{Bytes}
use dropout.Wire.{build_header, header_bytes}
use dropout.Wire.MsgType
use dropout.Kdf.Derive.{derive_pairwise_mask_seed_total}
use dropout.Platform.{Platform}
use dropout.Bridge.State.{ClientState, Session, Io, is_set, set_client, client_at, send}
use dropout.Bridge.Keys.{
  encapsulate_by, encapsulate, key_of, establish_secret, establish_if, setup_client, setup_pair,
  send_to_client, set_pairwise_seed,
}
use dropout.Bridge.Keys.Secured.{key_in, key_at, announce}
use mathlib.Core.Path.{subst}

-- For each of the public keys the encapsulation returns, with a ciphertext that fits a message, and
-- no connection is lost.
pub record IsWorking (platform : Platform) (key : ℕ → Option Bytes) : Type 0 where
  pub encapsulates :
      (draw k : ℕ) (bytes : Bytes)
      → key k ≡ some bytes
      → (ct secret : Bytes) × (encapsulate_by platform platform.kem_library draw bytes
          ≡ ok (ct, secret))
        × (length ct < 65536)
  pub connected : (writer : ℕ) → platform.connection_lost writer ≡ false

-- The clients have the numbers of a list and the public keys `key`, and the round is `round_id`.
pub record IsReady (ids : List ℕ) (key : ℕ → Option Bytes) (round_id : ℕ) (s : Session)
    : Type 0 where
  pub numbered : keys s.round.clients ≡ ids
  pub keyed : (k : ℕ) → key_at k s ≡ key k
  pub in_round : s.round.round_id ≡ round_id

module _ {ids : List ℕ} {key : ℕ → Option Bytes} {rid : ℕ} where
  pub present :
      (k : ℕ) (s : Session)
      → is_listed k ids ≡ true
      → IsReady ids key rid s
      → (c : ClientState) × (lookup k s.round.clients ≡ some c)
  present k s listed h =
      All-is_listed (λ j. (c : ClientState) × (lookup j s.round.clients ≡ some c)) k
        (keys s.round.clients) (lookup-keys s.round.clients)
        (subst (λ js. is_listed k js ≡ true) (sym h.numbered) listed)

  pub IsReady-set_client :
      (k : ℕ) (c : ClientState) (s : Session)
      → is_listed k ids ≡ true
      → c.public_key ≡ key k
      → IsReady ids key rid s
      → IsReady ids key rid (set_client k c s)
  IsReady-set_client k c s listed same h = record {
    numbered =
        keys-insert k c s.round.clients
          (subst (λ js. is_listed k js ≡ true) (sym h.numbered) listed)
        ∙ h.numbered;
    keyed = λ j. ap key_in (lookup-insert k j c s.round.clients) ∙ elim (Bool-cases (k == j)) [
      | inl t ↦ let own : k ≡ j = ground arith in rw t (same ∙ ap key own)
      | inr f ↦ rw f (h.keyed j)
    ];
    in_round = h.in_round;
  }

  pub Returns-client_at :
      {B : Type 0} (k : ℕ) (f : ClientState → Exec Session B)
      → is_listed k ids ≡ true
      → ((c : ClientState) → c.public_key ≡ key k → Returns (IsReady ids key rid) (f c))
      → Returns (IsReady ids key rid) (client_at k >>= f)
  Returns-client_at {B = B} k f listed next = record {
    at = λ s h.
        let (c, e) = present k s listed h in
        subst
          (λ o.
            Ended (IsReady ids key rid)
              (continue {B = B} (elim o [ none ↦ err key_error | some x ↦ ok x ]) f s))
          (sym e) ((next c (sym (ap key_in e) ∙ h.keyed k)).at s h);
  }

pub is_set-some : (o : Option Bytes) → is_set o ≡ true → (bytes : Bytes) × (o ≡ some bytes)
is_set-some none h = cc
is_set-some (some bytes) h = (bytes, refl)

ciphertext_header :
    (rid n : ℕ)
    → rid < 4294967296
    → n < 65536
    → (header : Bytes) × (build_header MsgType.kem_ciphertext rid 0 0 n ≡ ok header)
unfolding build_header
ciphertext_header rid n small short = (
  header_bytes MsgType.kem_ciphertext rid 0 0 n,
  rw (lt→ltb rid 4294967296 small, lt→ltb n 65536 short) refl,
)

module _ (platform : Platform) {key : ℕ → Option Bytes} (works : IsWorking platform key)
    {ids : List ℕ} {rid : ℕ} (small_round : rid < 4294967296) where
  send_to_client-Returns :
      (k : ℕ) (bytes : Bytes) → Returns (IsReady ids key rid) (send_to_client platform k bytes)
  unfolding send_to_client
  send_to_client-Returns k bytes = record { at = λ s h. go s h (lookup k s.io.client_writers) refl }
    where
      go :
          (s : Session)
          → IsReady ids key rid s
          → (o : Option ℕ) → lookup k s.io.client_writers ≡ o
          → Ended (IsReady ids key rid) (send_to_client platform k bytes s)
      go s h none e = rw (send_to_client, e) (tt, refl, h)
      go s h (some writer) e =
          rw (send_to_client, e)
            (
              tt,
              rw (works.connected writer) refl,
              record { numbered = h.numbered; keyed = h.keyed; in_round = h.in_round },
            )

  Returns-encapsulate :
      {B : Type 0} (k : ℕ) (bytes : Bytes) (f : Bytes × Bytes → Exec Session B)
      → key k ≡ some bytes
      → ((ct secret : Bytes) → length ct < 65536 → Returns (IsReady ids key rid) (f (ct, secret)))
      → Returns (IsReady ids key rid) (encapsulate platform bytes >>= f)
  unfolding encapsulate
  Returns-encapsulate k bytes f known next = record {
    at = λ s h.
        let (ct, secret, e, short) = works.encapsulates s.io.draws k bytes known in
        Ended-continue (IsReady ids key rid) _ f _ (ct, secret) e
          ((next ct secret short).at _
            (record { numbered = h.numbered; keyed = h.keyed; in_round = h.in_round }));
  }

  announce-Returns :
      (k : ℕ) (ct : Bytes)
      → length ct < 65536
      → Returns (IsReady ids key rid) (announce platform k ct)
  unfolding announce
  announce-Returns k ct short =
      Returns-gets (λ s. s.round.round_id)
        (λ r. lift (build_header MsgType.kem_ciphertext r 0 0 (length ct)) >>= λ header.
          send_to_client platform k (header ++ ct))
        (λ r. r ≡ rid) (λ s h. h.in_round)
        (λ r is_rid.
          let (header, e) = ciphertext_header rid (length ct) small_round short in
          Returns-lift _ (λ header. send_to_client platform k (header ++ ct)) header
            (ap (λ x. build_header MsgType.kem_ciphertext x 0 0 (length ct)) is_rid ∙ e)
            (send_to_client-Returns k (header ++ ct)))

  establish_secret-Returns :
      (k : ℕ)
      → is_listed k ids ≡ true
      → is_set (key k) ≡ true
      → Returns (IsReady ids key rid) (establish_secret platform k)
  unfolding establish_secret key_of announce
  establish_secret-Returns k listed has_key = Returns-client_at k _ listed (λ c same.
      let (bytes, is_key) = is_set-some c.public_key (ap is_set same ∙ has_key) in
      Returns-lift (key_of platform c.public_key) _ bytes (ap (key_of platform) is_key) (
        Returns-encapsulate k bytes _ (sym same ∙ is_key) (λ ct secret short.
          let c' : ClientState = record c { shared_secret = some secret } in
          Returns-bind (modify (set_client k c')) (λ _. announce platform k ct)
            (Returns-modify (set_client k c') (λ s h. IsReady-set_client k c' s listed same h))
            (λ _. announce-Returns k ct short))))

  pub establish_if-Returns :
      (b : Bool) (k : ℕ)
      → is_listed k ids ≡ true
      → (b ≡ true → is_set (key k) ≡ true)
      → Returns (IsReady ids key rid) (establish_if platform b k)
  unfolding establish_if
  establish_if-Returns b k listed has_key =
      Returns-if b _ _ (λ t. establish_secret-Returns k listed (has_key t)) (λ _. Returns-pure tt)

  pub setup_client-Returns :
      (k : ℕ) → is_listed k ids ≡ true → Returns (IsReady ids key rid) (setup_client platform k)
  unfolding setup_client
  setup_client-Returns k listed =
      Returns-client_at k _ listed
        (λ c same. establish_if-Returns _ k listed (λ t. ap is_set (sym same) ∙ and_left _ _ t))

  -- The part of `setup_pair` and `orchestrate_pair` that sets up one of the two clients.
  pub establish_next-Returns :
      (k : ℕ) (rest : Exec Session Unit)
      → is_listed k ids ≡ true
      → is_set (key k) ≡ true
      → Returns (IsReady ids key rid) rest
      → Returns (IsReady ids key rid) (
          client_at k >>= λ c. establish_if platform (not (is_set c.shared_secret)) k >>= λ _. rest)
  establish_next-Returns k rest listed has_key next = Returns-client_at k _ listed (λ c same.
      Returns-bind (establish_if platform (not (is_set c.shared_secret)) k) (λ _. rest)
        (establish_if-Returns _ k listed (λ _. has_key)) (λ _. next))
