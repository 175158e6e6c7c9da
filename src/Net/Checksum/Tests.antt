-- ===== src/Net/Checksum/Tests.antt =====
-- The checksum theorems at the header of RFC 1071 folklore: 20 bytes with checksum 0xb861.
use rucux.Base.{ℕ, ◌≡◌, refl, List, [], ◌∷◌, arith}
use rucux.Net.Checksum.{checksum}
use rucux.Net.Checksum.Rfc1071.{with_field, checksum_verifies}

abbrev before : List ℕ
before = 0x45 ∷ 0 ∷ 0 ∷ 0x73 ∷ 0 ∷ 0 ∷ 0x40 ∷ 0 ∷ 0x40 ∷ 0x11 ∷ []

abbrev after : List ℕ
after = 0xc0 ∷ 0xa8 ∷ 0 ∷ 1 ∷ 0xc0 ∷ 0xa8 ∷ 0 ∷ 0xc7 ∷ []

-- 0xb861 in network order.
known_header : checksum (with_field before 0 after) ≡ 0x61b8
unfolding checksum
known_header = refl

checksum_verifies_example :
    checksum (with_field before (checksum (with_field before 0 after)) after) ≡ 0
checksum_verifies_example =
    checksum_verifies before after (omega arith) (omega arith) (omega arith) (omega arith)
