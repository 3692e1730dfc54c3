-- ===== src/Dht/Distance/Metric.antt =====
-- The distance of a key to itself, and the order that `isDistanceSmaller` puts on distances.
use Prim.Native.Nat.{bit_xor}
use mini_ipfs.Prelude.{◌≡◌, refl, true, false, [], ◌∷◌, arith, ◌==◌, ==_iff, length, Bytes}
use mini_ipfs.Hex.RoundTrip.{IsBytes}
use mini_ipfs.Dht.Distance.{xor_distance, xor_bytes, distance_bucket, is_distance_smaller}
use mini_ipfs.Dht.Distance.Value.{each_below, each_below_sound}

xor_self_table : each_below (λ b. bit_xor b b == 0) 256 ≡ true
unfolding each_below
xor_self_table = refl

distance_bucket-xor_bytes : (a : Bytes) → IsBytes a → distance_bucket (xor_bytes a a) ≡ 0
unfolding distance_bucket xor_distance
distance_bucket-xor_bytes [] h = refl
distance_bucket-xor_bytes (b ∷ a) h =
    rw (each_below_sound _ b 256 h.0 xor_self_table) (distance_bucket-xor_bytes a h.1)

-- A key stands at distance 0 from itself.
pub distance_bucket_self : (a : Bytes) → IsBytes a → distance_bucket (xor_distance a a) ≡ 0
unfolding xor_distance
distance_bucket_self a h =
    rw ((==_iff (length a) (length a)).1 refl) (distance_bucket-xor_bytes a h)

-- `a` is no further than `b`.
abbrev pub Nearer : Bytes → Bytes → Type 0
Nearer a b = is_distance_smaller b a ≡ false

pub Nearer-refl : (a : Bytes) → Nearer a a
unfolding is_distance_smaller
Nearer-refl [] = refl
Nearer-refl (x ∷ a) = ground (arith, Nearer-refl a)

pub Nearer-trans :
    (a b c : Bytes)
    → length a ≡ length b
    → length b ≡ length c
    → Nearer a b
    → Nearer b c
    → Nearer a c
unfolding is_distance_smaller
Nearer-trans [] [] [] e f p q = refl
Nearer-trans [] (y ∷ b) c e f p q = absurd (omega arith)
Nearer-trans (x ∷ a) [] c e f p q = absurd (omega arith)
Nearer-trans a (y ∷ b) [] e f p q = absurd (omega arith)
Nearer-trans [] [] (z ∷ c) e f p q = absurd (omega arith)
Nearer-trans (x ∷ a) (y ∷ b) (z ∷ c) e f p q =
    ground (arith, Nearer-trans a b c (omega arith) (omega arith))

pub Nearer-of_smaller : (a b : Bytes) → is_distance_smaller a b ≡ true → Nearer a b
unfolding is_distance_smaller
Nearer-of_smaller [] b h = cc
Nearer-of_smaller (x ∷ a) [] h = cc
Nearer-of_smaller (x ∷ a) (y ∷ b) h = ground (arith, Nearer-of_smaller a b)

length-xor_bytes : (a b : Bytes) → length a ≡ length b → length (xor_bytes a b) ≡ length a
unfolding xor_distance
length-xor_bytes [] [] e = refl
length-xor_bytes [] (y ∷ b) e = absurd (omega arith)
length-xor_bytes (x ∷ a) [] e = absurd (omega arith)
length-xor_bytes (x ∷ a) (y ∷ b) e = omega (arith, length-xor_bytes a b (omega arith))

pub length-xor_distance : (a b : Bytes) → length a ≡ length b → length (xor_distance a b) ≡ length a
unfolding xor_distance
length-xor_distance a b e = rw ((==_iff (length a) (length b)).1 e) (length-xor_bytes a b e)
