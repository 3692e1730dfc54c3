-- ===== src/Storage/Store/Paths.antt =====
-- The files of different chunks, and the temporary files, have different paths.
use mini_ipfs.Prelude.{
  ◌≡◌, ◌≢◌, ap, inl, inr, true, false, [], ◌∷◌, ltb, length, take, arith, Bytes, Bool-cases,
}
use mini_ipfs.Hex.{encode_to_string}
use mini_ipfs.Hex.RoundTrip.{
  IsBytes, encode_to_string-injective, length-encode_to_string, encode_to_string-no_dot,
}
use mini_ipfs.Storage.Disk.{is_temp, temp_path}
use mini_ipfs.Storage.Disk.Laws.{is_temp-temp_path, is_temp-no_dot}
use mini_ipfs.Storage.Store.{chunk_path, path_of}

-- A SHA-256 hash: 32 bytes.
pub record IsHash (h : Bytes) : Type 0 where
  pub bytes : IsBytes h
  pub size : length h ≡ 32

-- What every SHA-256 function does.
abbrev pub IsDigest : (Bytes → Bytes) → Type 0
IsDigest sha256 = (b : Bytes) → IsHash (sha256 b)

pub path_of_lem :
    (h : Bytes) → IsHash h → path_of h ≡ take 2 (encode_to_string h) ∷ encode_to_string h ∷ []
unfolding chunk_path
path_of_lem h v = elim (Bool-cases (ltb (length (encode_to_string h)) 2)) [
  | inl e ↦ absurd (ground (arith, length-encode_to_string h, v.size))
  | inr e ↦ rw e
]

-- Different hashes have their chunks in different files.
pub path_of-injective : (g h : Bytes) → IsHash g → IsHash h → path_of g ≡ path_of h → g ≡ h
path_of-injective g h v w e =
    encode_to_string-injective g h v.bytes w.bytes (cc (path_of_lem g v, path_of_lem h w))

pub is_temp-path_of : (h : Bytes) → IsHash h → is_temp (path_of h) ≡ false
is_temp-path_of h v = rw (path_of_lem h v) (is_temp-no_dot _ _ (encode_to_string-no_dot h v.bytes))

pub is_temp-temp_path_of : (h : Bytes) → IsHash h → is_temp (temp_path (path_of h)) ≡ true
is_temp-temp_path_of h v = rw (path_of_lem h v) (is_temp-temp_path _ _)

pub path_of-ne-temp_path : (g h : Bytes) → IsHash g → IsHash h → path_of g ≢ temp_path (path_of h)
path_of-ne-temp_path g h v w e = cc (is_temp-path_of g v, is_temp-temp_path_of h w, ap is_temp e)
