-- ===== src/Hex/RoundTrip.antt =====
-- Decoding undoes encoding, and what encoded text looks like.
use Prim.Native.Nat.{◌/◌, ◌%◌}
use mathlib.Core.Path.{subst}
use mathlib.Core.Option.{some-injective}
use mini_ipfs.Prelude.{
  ℕ, suc, inl, inr, Option-cases, ◌*◌, ◌<◌, ◌≡◌, ◌≢◌, refl, ap, some, [], ◌∷◌, length, All, arith,
  Bytes,
}
use mini_ipfs.Hex.{hex_digit, encode_to_string, from_hex_char, decode_string}

-- Every element is a byte.
abbrev pub IsBytes : Bytes → Type 0
IsBytes = All (λ b. b < 256)

from_hex_char-hex_digit : (n : ℕ) → n < 16 → from_hex_char (hex_digit n) ≡ some n
unfolding from_hex_char hex_digit
from_hex_char-hex_digit n h = ground arith

-- `DecodeString` returns the bytes that `EncodeToString` was given.
pub decode_string-encode_to_string :
    (bytes : Bytes) → IsBytes bytes → decode_string (encode_to_string bytes) ≡ some bytes
unfolding decode_string encode_to_string
decode_string-encode_to_string [] h = refl
decode_string-encode_to_string (b ∷ bytes) h =
    rw
      (
        from_hex_char-hex_digit (b / 16) (omega arith),
        from_hex_char-hex_digit (b % 16) (omega arith),
        decode_string-encode_to_string bytes h.1,
      )
      (ap (λ (n : ℕ). some (n ∷ bytes)) (omega arith))

pub encode_to_string-injective :
    (a b : Bytes) → IsBytes a → IsBytes b → encode_to_string a ≡ encode_to_string b → a ≡ b
encode_to_string-injective a b p q e =
    cc (decode_string-encode_to_string a p, decode_string-encode_to_string b q, ap decode_string e)

pub length-encode_to_string : (bytes : Bytes) → length (encode_to_string bytes) ≡ 2 * length bytes
unfolding encode_to_string
length-encode_to_string [] = omega arith
length-encode_to_string (b ∷ bytes) = omega (arith, length-encode_to_string bytes)

-- Encoded text has no dot.
pub encode_to_string-no_dot :
    (bytes : Bytes) → IsBytes bytes → All (λ c. c ≢ b'.') (encode_to_string bytes)
unfolding encode_to_string hex_digit
encode_to_string-no_dot [] h = tt
encode_to_string-no_dot (b ∷ bytes) h =
    (ground arith, (ground arith, encode_to_string-no_dot bytes h.1))

from_hex_char-lt : (c v : ℕ) → from_hex_char c ≡ some v → v < 16
unfolding from_hex_char
from_hex_char-lt c v e = ground arith

-- What `DecodeString` returns are bytes, one for two characters.
pub decode_string-IsBytes :
    (text bytes : Bytes)
    → decode_string text ≡ some bytes
    → IsBytes bytes × (length text ≡ 2 * length bytes)
unfolding decode_string
decode_string-IsBytes [] bytes e =
    subst (λ (b : Bytes). IsBytes b × (0 ≡ 2 * length b)) (some-injective _ _ e) (tt, refl)
decode_string-IsBytes (c ∷ []) bytes e = cc
decode_string-IsBytes (c ∷ d ∷ text) bytes e = elim (Option-cases (from_hex_char c)) [
  | inl f ↦ cc (rw f at e)
  | inr f ↦ elim (Option-cases (from_hex_char d)) [
    | inl g ↦ cc (rw (f.1, g) at e)
    | inr g ↦ elim (Option-cases (decode_string text)) [
      | inl h ↦ cc (rw (f.1, g.1, h) at e)
      | inr h ↦
          let (small, long) = decode_string-IsBytes text h.0 h.1 in
          let hi = from_hex_char-lt c f.0 f.1 in
          let lo = from_hex_char-lt d g.0 g.1 in
          subst (λ (b : Bytes). IsBytes b × (suc (suc (length text)) ≡ 2 * length b))
            (some-injective _ _ (rw (f.1, g.1, h.1) at e)) ((omega arith, small), omega arith)
    ]
  ]
]
