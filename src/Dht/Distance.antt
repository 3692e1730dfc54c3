-- ===== src/Dht/Distance.antt =====
-- The distance functions of internal/dht/routing.go.
pub mod Value
pub mod Metric
use Prim.Native.Nat.{bit_and, bit_xor}
use mini_ipfs.Prelude.{
  ℕ, zero, suc, ◌+◌, ◌*◌, ◌^◌, Bool, true, false, Option, none, some, List, [], ◌∷◌, ◌==◌, ltb,
  length, if◌then◌else◌, Bytes,
}

-- The element loop of `xorDistance`.
xor_bytes : Bytes → Bytes → Bytes
xor_bytes (a ∷ as_) (b ∷ bs) = bit_xor a b ∷ xor_bytes as_ bs
xor_bytes _ _ = []

-- `xorDistance`, with its nil result as the empty slice, which the callers cannot tell from it.
unfoldable pub xor_distance : Bytes → Bytes → Bytes
unfolding xor_bytes
xor_distance a b = if length a == length b then xor_bytes a b else []

-- The inner loop of `distanceBucket`, over the bits below `j`, from the top.
unfoldable pub top_bit : ℕ → ℕ → Option ℕ
top_bit zero b = none
top_bit (suc j) b = let lower = top_bit j b in if bit_and b (2 ^ j) == 0 then lower else some j

-- `distanceBucket`: `len(distance) - 1 - i` is the number of bytes behind the current one.
unfoldable pub distance_bucket : Bytes → ℕ
unfolding top_bit
distance_bucket [] = 0
distance_bucket (b ∷ rest) =
    let later = distance_bucket rest in
    if b == 0 then later else elim (top_bit 8 b) [ some j ↦ length rest * 8 + j | none ↦ later ]

-- `isDistanceSmaller`
unfoldable pub is_distance_smaller : Bytes → Bytes → Bool
is_distance_smaller (a ∷ as_) (b ∷ bs) =
    let later = is_distance_smaller as_ bs in
    if ltb a b then true else if ltb b a then false else later
is_distance_smaller _ _ = false
