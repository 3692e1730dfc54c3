-- ===== src/Storage/Disk.antt =====
-- The part of the file system that the chunk store uses: the files below its data directory, by
-- their path from there. Package os of Go; the directories themselves are not kept.
pub mod Laws
use mini_ipfs.Prelude.{
  ℕ, zero, suc, ◌+◌, ◌≡◌, Bool, true, false, ◌&&◌, Option, none, some, List, [], ◌∷◌, ◌++◌,
  eq_bytes, ◌==◌, ltb, length, if◌then◌else◌, Bytes,
}

-- The names on the way from the data directory to the file.
abbrev pub FilePath : Type 0
FilePath = List Bytes

abbrev pub Disk : Type 0
Disk = List (FilePath × Bytes)

abbrev pub eq_path : FilePath → FilePath → Bool
eq_path [] [] = true
eq_path (a ∷ p) (b ∷ q) = eq_bytes a b && eq_path p q
eq_path _ _ = false

unfoldable pub lookup : FilePath → Disk → Option Bytes
lookup p [] = none
lookup p ((q, b) ∷ d) = if eq_path p q then some b else lookup p d

unfoldable pub insert : FilePath → Bytes → Disk → Disk
insert p b [] = (p, b) ∷ []
insert p b ((q, c) ∷ d) = if eq_path p q then (p, b) ∷ d else (q, c) ∷ insert p b d

unfoldable pub remove : FilePath → Disk → Disk
remove p [] = []
remove p ((q, c) ∷ d) = if eq_path p q then d else (q, c) ∷ remove p d

-- `os.Rename`, which replaces a file at the new path.
unfoldable pub rename : FilePath → FilePath → Disk → Disk
rename from to d = elim (lookup from d) [ none ↦ d | some b ↦ insert to b (remove from d) ]

-- No path is listed twice.
abbrev pub NodupPaths : Disk → Type 0
NodupPaths [] = Unit
NodupPaths ((p, _) ∷ d) = (lookup p d ≡ none) × NodupPaths d

-- `filepath.Ext` of a name: from its last dot on.
unfoldable pub extension : Bytes → Bytes
extension [] = []
extension (c ∷ name) =
    let rest = extension name in
    if ltb 0 (length rest) then rest else if c == b'.' then c ∷ name else []

abbrev pub temp_suffix : Bytes
temp_suffix = b'.' ∷ b't' ∷ b'm' ∷ b'p' ∷ []

-- `filepath.Ext(path) == ".tmp"`
unfoldable pub is_temp : FilePath → Bool
unfolding extension
is_temp [] = false
is_temp (name ∷ []) = eq_bytes (extension name) temp_suffix
is_temp (name ∷ n ∷ path) = is_temp (n ∷ path)

-- `path + ".tmp"`
unfoldable pub temp_path : FilePath → FilePath
temp_path [] = []
temp_path (name ∷ []) = (name ++ temp_suffix) ∷ []
temp_path (name ∷ n ∷ path) = name ∷ temp_path (n ∷ path)

-- The sum of a weight over the files, such as their number or their sizes.
unfoldable pub tally : (FilePath → Bytes → ℕ) → Disk → ℕ
tally w [] = 0
tally w ((p, b) ∷ d) = w p b + tally w d
