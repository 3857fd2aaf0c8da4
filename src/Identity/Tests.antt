-- ===== src/Identity/Tests.antt =====
-- Ids read from concrete texts.
use confluxmap_pumpkin.Base.{◌≡◌, refl, none, some}
use confluxmap_pumpkin.Base.{arith}
use confluxmap_pumpkin.Identity
use confluxmap_pumpkin.Identity.Canonical.{canonical, parse_uuid-canonical}
use confluxmap_pumpkin.Identity.{Uid, IsId, parse_uuid}
use confluxmap_pumpkin.Text.{ascii}

abbrev named : Uid
named = record { high = 0x0011_2233_4455_6677; low = 0x8899_aabb_ccdd_eeff }

reads_canonical : parse_uuid (ascii "00112233-4455-6677-8899-aabbccddeeff") ≡ some named
unfolding parse_uuid Identity.read_digits Identity.push_digit Identity.digit_of Identity.fill
    Identity.shift_in
reads_canonical = refl

refuses_bare : parse_uuid (ascii "00112233445566778899AABBCCDDEEFF") ≡ none
unfolding parse_uuid
refuses_bare = refl

refuses_letters : parse_uuid (ascii "00112233-4455-6677-8899-aabbccddeefg") ≡ none
unfolding parse_uuid Identity.read_digits Identity.push_digit Identity.digit_of Identity.fill
    Identity.shift_in
refuses_letters = refl

parse_uuid-canonical_example : parse_uuid (canonical named) ≡ some named
parse_uuid-canonical_example = parse_uuid-canonical named (ground arith, ground arith)
