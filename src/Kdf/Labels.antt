-- ===== src/Kdf/Labels.antt =====
-- The KDF labels of host_server/protocol_bridge.py, as their ASCII bytes.
use dropout.Prelude.{[], ◌∷◌}
use dropout.Bytes.{Bytes}

-- b"SwiftAgg-PairwiseMask-v1"
abbrev pub pairwise_mask : Bytes
pairwise_mask =
    83 ∷ 119 ∷ 105 ∷ 102 ∷ 116 ∷ 65 ∷ 103 ∷ 103 ∷ 45 ∷ 80 ∷ 97 ∷ 105 ∷ 114 ∷ 119 ∷ 105 ∷ 115 ∷ 101
    ∷ 77 ∷ 97 ∷ 115 ∷ 107 ∷ 45 ∷ 118 ∷ 49 ∷ []

-- b"SwiftAgg-StreamMask-v1"
abbrev pub stream_mask : Bytes
stream_mask =
    83 ∷ 119 ∷ 105 ∷ 102 ∷ 116 ∷ 65 ∷ 103 ∷ 103 ∷ 45 ∷ 83 ∷ 116 ∷ 114 ∷ 101 ∷ 97 ∷ 109 ∷ 77 ∷ 97
    ∷ 115 ∷ 107 ∷ 45 ∷ 118 ∷ 49 ∷ []

-- b"SwiftAgg-ShamirSecret-v1"
abbrev pub shamir_secret : Bytes
shamir_secret =
    83 ∷ 119 ∷ 105 ∷ 102 ∷ 116 ∷ 65 ∷ 103 ∷ 103 ∷ 45 ∷ 83 ∷ 104 ∷ 97 ∷ 109 ∷ 105 ∷ 114 ∷ 83 ∷ 101
    ∷ 99 ∷ 114 ∷ 101 ∷ 116 ∷ 45 ∷ 118 ∷ 49 ∷ []
