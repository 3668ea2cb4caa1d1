-- ===== src/Wire/Examples.antt =====
-- A header built and parsed.
use dropout.Prelude.{◌≡◌, refl, [], ◌∷◌, length}
use dropout.Prelude.Exec.{ok}
use dropout.Bytes.{Bytes}
use dropout.Wire.{parse_header, build_header}
use dropout.Wire.RoundTrip.{header_of, parse-build_header}

abbrev chunk_header : Bytes
chunk_header = 0 ∷ 1 ∷ 0 ∷ 0 ∷ 0 ∷ 0 ∷ 0 ∷ 7 ∷ 2 ∷ 33 ∷ 1 ∷ 4 ∷ 0 ∷ 64 ∷ 0 ∷ 0 ∷ []

built : build_header 0x21 7 2 260 64 ≡ ok chunk_header
unfolding build_header
built = refl

parse-build_header_example :
    (length chunk_header ≡ 16) × (parse_header chunk_header ≡ ok (header_of 0x21 7 2 260 64))
parse-build_header_example = parse-build_header 0x21 7 2 260 64 chunk_header built
