-- ===== src/Hex.antt =====
-- Go's encoding/hex, as far as the program uses it: `EncodeToString` and `DecodeString`. Of a
-- decoding error the program only sees that it is there.
pub mod RoundTrip
use Prim.Native.Nat.{◌/◌, ◌%◌}
use mini_ipfs.Prelude.{
  ℕ, ◌+◌, ◌-◌, ◌*◌, Bool, ◌&&◌, Option, none, some, List, [], ◌∷◌, ltb, leb, if◌then◌else◌, Bytes,
}

hex_digit : ℕ → ℕ
hex_digit n = if ltb n 10 then b'0' + n else b'a' + (n - 10)

unfoldable pub encode_to_string : Bytes → Bytes
unfolding hex_digit
encode_to_string [] = []
encode_to_string (b ∷ bytes) = hex_digit (b / 16) ∷ hex_digit (b % 16) ∷ encode_to_string bytes

from_hex_char : ℕ → Option ℕ
from_hex_char c =
    if leb b'0' c && leb c b'9'
    then some (c - b'0')
    else if leb b'a' c && leb c b'f'
    then some (c - b'a' + 10)
    else if leb b'A' c && leb c b'F'
    then some (c - b'A' + 10)
    else none

-- The byte of two characters, in front of the decoded rest.
decode_pair : Option ℕ → Option ℕ → Option Bytes → Option Bytes
decode_pair (some hi) (some lo) (some rest) = some ((hi * 16 + lo) ∷ rest)
decode_pair _ _ _ = none

unfoldable pub decode_string : Bytes → Option Bytes
unfolding from_hex_char decode_pair
decode_string [] = some []
decode_string (c ∷ []) = none
decode_string (c ∷ d ∷ text) = decode_pair (from_hex_char c) (from_hex_char d) (decode_string text)
