-- ===== src/Dht/Distance/Value.antt =====
-- Distances as numbers: the first byte is the highest. `distanceBucket` is the position of the
-- highest bit that is set, and `isDistanceSmaller` compares the numbers.
use native.Mathlib.Numerals.{towards_suc}
use native.Mathlib.Nat.{pow-suc}
use mini_ipfs.Prelude.{
  ℕ, zero, suc, ◌+◌, ◌*◌, ◌^◌, ◌≤◌, ◌<◌, ◌≡◌, ◌≢◌, refl, sym, ap, ◌∙◌, inl, inr, Bool, true, false,
  ◌&&◌, none, some, Option, [], ◌∷◌, arith, ◌==◌, ==_iff, ltb, leb, leb→le, ltb→lt, lt→ltb, length,
  if◌then◌else◌, Bytes, Bool-cases,
}
use mini_ipfs.Hex.RoundTrip.{IsBytes}
use mini_ipfs.Dht.Distance.{top_bit, distance_bucket, is_distance_smaller}

unfoldable pub value : Bytes → ℕ
value [] = 0
value (b ∷ rest) = b * 256 ^ length rest + value rest

-- A check of every byte.
module _ (p : ℕ → Bool) where
  unfoldable pub each_below : ℕ → Bool
  each_below zero = true
  each_below (suc n) = each_below n && p n

  pub each_below_sound : (x n : ℕ) → x < n → each_below n ≡ true → p x ≡ true
  unfolding each_below
  each_below_sound x zero below h = absurd (omega arith)
  each_below_sound x (suc n) below h = ground (arith, each_below_sound x n)

-- Bit `j` is set in `b`, and none above it.
is_top : ℕ → Option ℕ → Bool
is_top b none = b == 0
is_top b (some j) = leb (2 ^ j) b && ltb b (2 * 2 ^ j)

top_bit_table : each_below (λ b. is_top b (top_bit 8 b)) 256 ≡ true
unfolding each_below is_top top_bit
top_bit_table = refl

top_bit_lem :
    (b : ℕ) → b < 256 → b ≢ 0 → (j : ℕ) × (top_bit 8 b ≡ some j) × (2 ^ j ≤ b) × (b < 2 * 2 ^ j)
unfolding is_top
top_bit_lem b h ne = go (top_bit 8 b) refl (each_below_sound _ b 256 h top_bit_table)
  where
    go :
        (o : Option ℕ)
        → top_bit 8 b ≡ o
        → is_top b o ≡ true
        → (j : ℕ) × (top_bit 8 b ≡ some j) × (2 ^ j ≤ b) × (b < 2 * 2 ^ j)
    go none e t = absurd (ne ((==_iff b 0).0 t))
    go (some j) e t = (j, e, leb→le (2 ^ j) b (ground arith), ltb→lt b (2 * 2 ^ j) (ground arith))

value-lt : (bytes : Bytes) → IsBytes bytes → value bytes < 256 ^ length bytes
unfolding value
value-lt [] h = omega arith
value-lt (b ∷ rest) h = let ih = value-lt rest h.1 in rw pow-suc (grind arith)

pow_byte : (j : ℕ) → 2 ^ (j + 8) ≡ 256 * 2 ^ j
pow_byte j = simp towards_suc (omega arith)

pow_bits : (n j : ℕ) → 2 ^ (n * 8 + j) ≡ 256 ^ n * 2 ^ j
pow_bits zero j = omega (arith, ap (λ (k : ℕ). 2 ^ k) {x = 0 * 8 + j} {y = j} (omega arith))
pow_bits (suc n) j =
    ap (λ (k : ℕ). 2 ^ k) {x = suc n * 8 + j} {y = n * 8 + (j + 8)} (omega arith)
    ∙ pow_bits n (j + 8)
    ∙ rw (pow_byte j, pow-suc) (omega arith)

-- For a distance that is not 0, the bucket is the position of its highest bit that is set.
mul_mono : (x m y : ℕ) → x ≤ m → x * y ≤ m * y
mul_mono x m y h = grind arith

module _ (p w b v : ℕ) (low : w ≤ b) (high : b < 2 * w) (small : v < p) where
  digit_low : p * w ≤ b * p + v
  digit_low = grind arith

  digit_high : b * p + v < 2 * (p * w)
  digit_high = omega (arith, mul_mono (suc b) (2 * w) p high)

-- The bucket of a distance other than 0 is the exponent of the highest power of 2 that is not above
-- the distance read as a number.
pub distance_bucket-value :
    (d : Bytes)
    → IsBytes d
    → value d ≢ 0
    → (2 ^ distance_bucket d ≤ value d) × (value d < 2 * 2 ^ distance_bucket d)
unfolding distance_bucket value
distance_bucket-value [] h ne = absurd (ne refl)
distance_bucket-value (b ∷ rest) h ne = elim (Bool-cases (b == 0)) [
  | inl e ↦
      let z : b ≡ 0 = (==_iff b 0).0 e in
      let nz : value rest ≢ 0 = λ r. ne (rw z (omega (arith, r))) in
      let ih = distance_bucket-value rest h.1 nz in rw (e, z) (omega (arith, ih))
  | inr e ↦
      let (j, t, low, high) = top_bit_lem b h.0 (λ z. cc ((==_iff b 0).1 z)) in
      rw (e, t, pow_bits (length rest) j)
        (let small = value-lt rest h.1 in
          (digit_low _ _ b _ low high small, digit_high _ _ b _ low high small))
]

-- One more byte in front.
digit-compare :
    (x y u v p : ℕ) (later : Bool)
    → u < p
    → v < p
    → later ≡ ltb u v
    → (if ltb x y then true else if ltb y x then false else later) ≡ ltb (x * p + u) (y * p + v)
digit-compare x y u v p later h k e = elim (Bool-cases (ltb x y)) [
  | inl f ↦ rw f (sym (lt→ltb _ _ (omega (arith, mul_mono (suc x) y p (ltb→lt x y f)))))
  | inr f ↦ elim (Bool-cases (ltb y x)) [
    | inl g ↦
        let below : y * p + v < x * p + u = omega (arith, mul_mono (suc y) x p (ltb→lt y x g)) in
        rw (f, g) (ground arith)
    | inr g ↦ let same : x ≡ y = ground arith in rw (f, g) (rw (same, e) (ground arith))
  ]
]

-- Of two distances of one length, read as numbers, `isDistanceSmaller` says whether the first is the
-- smaller.
pub is_distance_smaller-value :
    (a b : Bytes)
    → length a ≡ length b
    → IsBytes a
    → IsBytes b
    → is_distance_smaller a b ≡ ltb (value a) (value b)
unfolding is_distance_smaller value
is_distance_smaller-value [] [] e p q = refl
is_distance_smaller-value [] (y ∷ b) e p q = absurd (omega arith)
is_distance_smaller-value (x ∷ a) [] e p q = absurd (omega arith)
is_distance_smaller-value (x ∷ a) (y ∷ b) e p q =
    let same : length a ≡ length b = omega arith in
    let w : value b < 256 ^ length a = rw same (value-lt b q.1) in
    rw (← same) (
      digit-compare x y (value a) (value b) (256 ^ length a) _ (value-lt a p.1) w
        (is_distance_smaller-value a b same p.1 q.1))
