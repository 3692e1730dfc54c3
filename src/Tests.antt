-- ===== src/Tests.antt =====
-- Concrete inputs on which the theorems about the program apply.
pub mod Chunks
pub mod Stores
pub mod Tables
pub mod Uploads
pub mod Limits
pub mod Messages
pub mod Remote
pub mod Codec
pub mod Api
pub mod Runs
use Prim.Native.Nat.{◌%◌}
use mini_ipfs.Prelude.{ℕ, zero, suc, ◌<◌, refl, List, [], ◌∷◌, replicate, Bytes, arith}
use mini_ipfs.Hex.RoundTrip.{IsBytes}
use mini_ipfs.Storage.Store.Paths.{IsHash, IsDigest}

-- A function in the place of SHA-256: the first byte and 31 zeros.
abbrev pub first_byte : Bytes → Bytes
first_byte [] = replicate {A = ℕ} 32 0
first_byte (b ∷ bytes) = (b % 256) ∷ replicate {A = ℕ} 31 0

pub replicate-IsBytes : (n b : ℕ) → b < 256 → IsBytes (replicate n b)
replicate-IsBytes zero b h = tt
replicate-IsBytes (suc n) b h = (h, replicate-IsBytes n b h)

pub first_byte-IsDigest : IsDigest first_byte
first_byte-IsDigest [] = record { bytes = replicate-IsBytes 32 0 (omega arith); size = refl }
first_byte-IsDigest (b ∷ bytes) = record {
  bytes = (omega arith, replicate-IsBytes 31 0 (omega arith));
  size = refl;
}
