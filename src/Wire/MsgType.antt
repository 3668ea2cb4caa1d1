-- ===== src/Wire/MsgType.antt =====
-- The constants MSG_TYPE_... of host_server/protocol_bridge.py that the server uses. No name
-- MSG_TYPE_ERROR is defined there.
use dropout.Prelude.{ℕ}

abbrev pub round_init : ℕ
round_init = 0x40

abbrev pub kem_public_key : ℕ
kem_public_key = 0x01

abbrev pub kem_ciphertext : ℕ
kem_ciphertext = 0x02

abbrev pub mask_chunk : ℕ
mask_chunk = 0x21

abbrev pub client_complete : ℕ
client_complete = 0x30

abbrev pub dropout_notify : ℕ
dropout_notify = 0x31

abbrev pub shamir_share : ℕ
shamir_share = 0x32

abbrev pub pairwise_kem_pubkey : ℕ
pairwise_kem_pubkey = 0x10

abbrev pub pairwise_kem_ciphertext : ℕ
pairwise_kem_ciphertext = 0x11

abbrev pub round_complete : ℕ
round_complete = 0x41
