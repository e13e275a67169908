-- ===== src/Logger/Records.antt =====
-- internal/logger/cloudflare.go, what `deliver` writes: the JSON array of the records of a batch.
use dp1_feed_v.Shared.{ℕ, ◌+◌, ◌≡◌, refl, List, [], ◌∷◌, ◌++◌, length, length-append, arith}
use dp1_feed_v.Models.{Bytes}

-- The lengths of all records.
unfoldable pub byte_total : List Bytes → ℕ
byte_total [] = 0
byte_total (r ∷ rs) = length r + byte_total rs

-- The lengths of all records, and a comma for each.
unfoldable pub weight : List Bytes → ℕ
weight [] = 0
weight (r ∷ rs) = length r + 1 + weight rs

-- The records of an array behind its first one.
array_rest : List Bytes → Bytes
array_rest [] = 93 ∷ []
array_rest (r ∷ rs) = 44 ∷ r ++ array_rest rs

-- The body of a request: `[` 91, the records with `,` 44 between them, and `]` 93.
unfoldable pub array_body : List Bytes → Bytes
unfolding array_rest
array_body [] = 91 ∷ 93 ∷ []
array_body (r ∷ rs) = 91 ∷ r ++ array_rest rs

pub weight-append : (rs ss : List Bytes) → weight (rs ++ ss) ≡ weight rs + weight ss
unfolding weight
weight-append [] ss = omega arith
weight-append (r ∷ rs) ss = omega (arith, weight-append rs ss)

pub byte_total-append : (rs ss : List Bytes) → byte_total (rs ++ ss) ≡ byte_total rs + byte_total ss
unfolding byte_total
byte_total-append [] ss = omega arith
byte_total-append (r ∷ rs) ss = omega (arith, byte_total-append rs ss)

pub weight-byte_total : (rs : List Bytes) → weight rs ≡ byte_total rs + length rs
unfolding weight byte_total
weight-byte_total [] = refl
weight-byte_total (r ∷ rs) = omega (arith, weight-byte_total rs)

length-array_rest : (rs : List Bytes) → length (array_rest rs) ≡ 1 + weight rs
unfolding array_rest weight
length-array_rest [] = refl
length-array_rest (r ∷ rs) = omega (arith, length-append r (array_rest rs), length-array_rest rs)

-- The body of a batch that is not empty is one byte shorter than two and its weight.
pub length-array_body :
    (r : Bytes) (rs : List Bytes) → length (array_body (r ∷ rs)) ≡ 1 + weight (r ∷ rs)
unfolding array_body weight
length-array_body r rs = omega (arith, length-append r (array_rest rs), length-array_rest rs)
