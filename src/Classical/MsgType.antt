-- ===== src/Classical/MsgType.antt =====
-- The constants MSG_TYPE_... of host_server/baseline_server.py that
-- its methods use.
use dropout.Prelude.{ℕ}

abbrev pub round_init : ℕ
round_init = 0x40

abbrev pub kem_public_key : ℕ
kem_public_key = 0x01

abbrev pub mask_chunk : ℕ
mask_chunk = 0x21

abbrev pub client_complete : ℕ
client_complete = 0x30

abbrev pub dropout_notify : ℕ
dropout_notify = 0x31

abbrev pub pairwise_kem_pubkey : ℕ
pairwise_kem_pubkey = 0x10

abbrev pub pairwise_kem_ciphertext : ℕ
pairwise_kem_ciphertext = 0x11
