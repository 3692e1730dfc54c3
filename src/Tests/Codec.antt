-- ===== src/Tests/Codec.antt =====
-- A codec for manifests in the place of encoding/json: pairs of a tag and a number.
use mini_ipfs.Prelude.{
  ℕ, ◌≡◌, refl, ap, ◌∙◌, inl, inr, Option, none, some, List, [], ◌∷◌, ◌++◌, ltb, ltb→lt, lt→ltb,
  ◌==◌, if◌then◌else◌, Bytes, ℤ, pos, negsuc, All, Bool-cases, arith,
}
use mathlib.Core.Option.{some-injective}
use mathlib.Core.Path.{subst}
use mini_ipfs.Hex.RoundTrip.{IsBytes}
use mini_ipfs.Storage.Chunker.{ChunkInfo, FileManifest}
use mini_ipfs.Api.State.{ManifestCodec}

abbrev int_text : ℤ → Bytes
int_text (pos n) = 0 ∷ n ∷ []
int_text (negsuc n) = 1 ∷ n ∷ []

abbrev read_int : ℕ → ℕ → ℤ
read_int sign n = if sign == 0 then pos n else negsuc n

-- An entry ends with its size, of which the tag is the sign.
abbrev hash_text : Bytes → Bytes → Bytes
hash_text [] rest = rest
hash_text (b ∷ hash) rest = 2 ∷ b ∷ hash_text hash rest

abbrev entries_text : List ChunkInfo → Bytes
entries_text [] = []
entries_text (info ∷ infos) = hash_text info.hash (int_text info.size ++ entries_text infos)

abbrev add_byte : ℕ → List ChunkInfo → Option (List ChunkInfo)
add_byte b [] = none
add_byte b (info ∷ infos) =
    if ltb b 256 then some (record { hash = b ∷ info.hash; size = info.size } ∷ infos) else none

abbrev add_byte_to : ℕ → Option (List ChunkInfo) → Option (List ChunkInfo)
add_byte_to b none = none
add_byte_to b (some infos) = add_byte b infos

abbrev new_entry : ℕ → ℕ → Option (List ChunkInfo) → Option (List ChunkInfo)
new_entry sign n none = none
new_entry sign n (some infos) = some (record { hash = []; size = read_int sign n } ∷ infos)

unfoldable pub read_entries : Bytes → Option (List ChunkInfo)
read_entries [] = some []
read_entries (tag ∷ []) = none
read_entries (tag ∷ v ∷ rest) =
    let infos = read_entries rest in if tag == 2 then add_byte_to v infos else new_entry tag v infos

abbrev manifest_text : FileManifest → Bytes
manifest_text m =
    9
    ∷ (int_text m.original_size
        ++ (int_text m.chunk_size ++ (int_text m.created_at ++ entries_text m.chunks)))

abbrev with_entries : (a b c : ℤ) → Option (List ChunkInfo) → Option FileManifest
with_entries a b c none = none
with_entries a b c (some infos) =
    some (record { original_size = a; chunk_size = b; chunks = infos; created_at = c })

unfoldable pub read_manifest : Bytes → Option FileManifest
unfolding read_entries
read_manifest (tag ∷ i ∷ a ∷ j ∷ b ∷ k ∷ c ∷ rest) =
    with_entries (read_int i a) (read_int j b) (read_int k c) (read_entries rest)
read_manifest _ = none

read_entries-hash :
    (hash : Bytes) (size : ℤ) (rest : Bytes) (infos : List ChunkInfo)
    → IsBytes hash
    → read_entries rest ≡ some infos
    → read_entries (hash_text hash (int_text size ++ rest))
      ≡ some (record { hash = hash; size = size } ∷ infos)
unfolding read_entries
read_entries-hash [] (pos n) rest infos v e = rw e refl
read_entries-hash [] (negsuc n) rest infos v e = rw e refl
read_entries-hash (b ∷ hash) size rest infos v e =
    rw (read_entries-hash hash size rest infos v.1 e, lt→ltb b 256 v.0) refl

read_entries-entries_text :
    (infos : List ChunkInfo)
    → All (λ (ci : ChunkInfo). IsBytes ci.hash) infos
    → read_entries (entries_text infos) ≡ some infos
unfolding read_entries
read_entries-entries_text [] v = refl
read_entries-entries_text (info ∷ infos) v =
    read_entries-hash info.hash info.size (entries_text infos) infos v.0
      (read_entries-entries_text infos v.1)

read_manifest-numbers :
    (a b c : ℤ) (rest : Bytes)
    → read_manifest (9 ∷ (int_text a ++ (int_text b ++ (int_text c ++ rest))))
      ≡ with_entries a b c (read_entries rest)
unfolding read_manifest
read_manifest-numbers (pos x) (pos y) (pos z) rest = refl
read_manifest-numbers (pos x) (pos y) (negsuc z) rest = refl
read_manifest-numbers (pos x) (negsuc y) (pos z) rest = refl
read_manifest-numbers (pos x) (negsuc y) (negsuc z) rest = refl
read_manifest-numbers (negsuc x) (pos y) (pos z) rest = refl
read_manifest-numbers (negsuc x) (pos y) (negsuc z) rest = refl
read_manifest-numbers (negsuc x) (negsuc y) (pos z) rest = refl
read_manifest-numbers (negsuc x) (negsuc y) (negsuc z) rest = refl

pub read_manifest-manifest_text :
    (m : FileManifest)
    → All (λ (ci : ChunkInfo). IsBytes ci.hash) m.chunks
    → read_manifest (manifest_text m) ≡ some m
read_manifest-manifest_text m v =
    read_manifest-numbers m.original_size m.chunk_size m.created_at (entries_text m.chunks)
    ∙ ap (with_entries m.original_size m.chunk_size m.created_at)
        (read_entries-entries_text m.chunks v)

-- The hashes of all entries, if there are any, are bytes.
abbrev AllBytes : Option (List ChunkInfo) → Type 0
AllBytes none = Unit
AllBytes (some infos) = All (λ (ci : ChunkInfo). IsBytes ci.hash) infos

add_byte_to-AllBytes :
    (v : ℕ) (o : Option (List ChunkInfo)) → AllBytes o → AllBytes (add_byte_to v o)
add_byte_to-AllBytes v none h = tt
add_byte_to-AllBytes v (some []) h = tt
add_byte_to-AllBytes v (some (info ∷ infos)) h = elim (Bool-cases (ltb v 256)) [
  | inl e ↦ rw e ((ltb→lt v 256 e, h.0), h.1)
  | inr e ↦ rw e tt
]

new_entry-AllBytes :
    (tag v : ℕ) (o : Option (List ChunkInfo)) → AllBytes o → AllBytes (new_entry tag v o)
new_entry-AllBytes tag v none h = tt
new_entry-AllBytes tag v (some infos) h = (tt, h)

read_entries-AllBytes : (b : Bytes) → AllBytes (read_entries b)
unfolding read_entries
read_entries-AllBytes [] = tt
read_entries-AllBytes (tag ∷ []) = tt
read_entries-AllBytes (tag ∷ v ∷ rest) = elim (Bool-cases (tag == 2)) [
  | inl e ↦ rw e (add_byte_to-AllBytes v (read_entries rest) (read_entries-AllBytes rest))
  | inr e ↦ rw e (new_entry-AllBytes tag v (read_entries rest) (read_entries-AllBytes rest))
]

with_entries-AllBytes :
    (a b c : ℤ) (o : Option (List ChunkInfo)) (m : FileManifest)
    → AllBytes o
    → with_entries a b c o ≡ some m
    → All (λ (ci : ChunkInfo). IsBytes ci.hash) m.chunks
with_entries-AllBytes a b c none m h e = cc e
with_entries-AllBytes a b c (some infos) m h e =
    subst (λ (n : FileManifest). All (λ (ci : ChunkInfo). IsBytes ci.hash) n.chunks)
      (some-injective _ m e) h

pub read_manifest-AllBytes :
    (b : Bytes) (m : FileManifest)
    → read_manifest b ≡ some m
    → All (λ (ci : ChunkInfo). IsBytes ci.hash) m.chunks
unfolding read_manifest
read_manifest-AllBytes (tag ∷ i ∷ a ∷ j ∷ b ∷ k ∷ c ∷ rest) m e =
    with_entries-AllBytes (read_int i a) (read_int j b) (read_int k c) (read_entries rest) m
      (read_entries-AllBytes rest) e
read_manifest-AllBytes [] m e = cc e
read_manifest-AllBytes (x0 ∷ []) m e = cc e
read_manifest-AllBytes (x0 ∷ x1 ∷ []) m e = cc e
read_manifest-AllBytes (x0 ∷ x1 ∷ x2 ∷ []) m e = cc e
read_manifest-AllBytes (x0 ∷ x1 ∷ x2 ∷ x3 ∷ []) m e = cc e
read_manifest-AllBytes (x0 ∷ x1 ∷ x2 ∷ x3 ∷ x4 ∷ []) m e = cc e
read_manifest-AllBytes (x0 ∷ x1 ∷ x2 ∷ x3 ∷ x4 ∷ x5 ∷ []) m e = cc e

abbrev pub pair_codec : ManifestCodec
pair_codec = record {
  marshal = manifest_text;
  unmarshal = read_manifest;
  unmarshal-marshal = read_manifest-manifest_text;
  marshal-nonempty = λ m. omega arith;
  unmarshal-IsBytes = read_manifest-AllBytes;
}
