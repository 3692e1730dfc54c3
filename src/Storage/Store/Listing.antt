-- ===== src/Storage/Store/Listing.antt =====
-- `ListChunks` against `HasChunk`.
use mini_ipfs.Prelude.{
  ◌||◌, eq_bytes, eq_bytes_iff, eq_bytes_ne, ◌≡◌, ◌⊎◌, refl, sym, ap, ◌∙◌, inl, inr, true, false,
  Bool, Option, none, some, List, [], ◌∷◌, arith, Bytes, Bool-cases, ok,
}
use mini_ipfs.Storage.Disk.{eq_path, lookup, insert, remove, temp_path, Disk, FilePath, is_temp}
use mini_ipfs.Storage.Disk.Laws.{eq_path_iff, rename-insert}
use mini_ipfs.Storage.Store.{
  no_faults, ChunkStore, Faults, path_of, stat, put_chunk, write_chunk, has_chunk, delete_chunk,
  Write, not_opened, cut_short, written, list_disk, list_chunks, listed, no_faults,
}
use mini_ipfs.Storage.Store.Paths.{
  path_of_lem, IsHash, IsDigest, path_of-injective, is_temp-path_of, is_temp-temp_path_of,
}
use mini_ipfs.Hex.RoundTrip.{decode_string-encode_to_string, length-encode_to_string}

-- What the store itself creates: temporary files, and files named after hashes.
abbrev pub IsOwn : FilePath → Type 0
IsOwn path = (is_temp path ≡ true) ⊎ ((h : Bytes) × IsHash h × (path ≡ path_of h))

abbrev pub AllOwn : Disk → Type 0
AllOwn [] = Unit
AllOwn ((path, _) ∷ disk) = IsOwn path × AllOwn disk

abbrev pub contains : Bytes → List Bytes → Bool
contains h [] = false
contains h (g ∷ hashes) = eq_bytes h g || contains h hashes

abbrev is_some : Option Bytes → Bool
is_some none = false
is_some (some b) = true

listed_temp :
    (path : FilePath) (hashes : List Bytes) → is_temp path ≡ true → listed path hashes ≡ hashes
listed_temp path hashes t = rw t

listed_chunk : (h : Bytes) (hashes : List Bytes) → IsHash h → listed (path_of h) hashes ≡ h ∷ hashes
listed_chunk h hashes v =
    rw (is_temp-path_of h v, path_of_lem h v)
      (ground (arith, length-encode_to_string h, v.size, decode_string-encode_to_string h v.bytes))

eq_path-temp :
    (h : Bytes) (path : FilePath)
    → IsHash h
    → is_temp path ≡ true
    → eq_path (path_of h) path ≡ false
eq_path-temp h path v t = elim (Bool-cases (eq_path (path_of h) path)) [
  | inl e ↦ cc (ap is_temp ((eq_path_iff (path_of h) path).0 e), is_temp-path_of h v)
  | inr e ↦ e
]

eq_path-chunk : (h g : Bytes) → IsHash h → IsHash g → eq_path (path_of h) (path_of g) ≡ eq_bytes h g
eq_path-chunk h g v w = elim (Bool-cases (eq_bytes h g)) [
  | inl e ↦ (eq_path_iff (path_of h) (path_of g)).1 (ap path_of ((eq_bytes_iff h g).0 e)) ∙ sym e
  | inr e ↦ elim (Bool-cases (eq_path (path_of h) (path_of g))) [
    | inl p ↦ absurd (eq_bytes_ne h g e (path_of-injective h g v w ((eq_path_iff _ _).0 p)))
    | inr p ↦ p ∙ sym e
  ]
]

contains-list_disk :
    (h : Bytes) (disk : Disk)
    → IsHash h
    → AllOwn disk
    → contains h (list_disk disk) ≡ is_some (lookup (path_of h) disk)
unfolding list_disk lookup
contains-list_disk h [] v own = refl
contains-list_disk h ((path, b) ∷ disk) v own = elim own.0 [
  | inl t ↦
      rw (listed_temp path (list_disk disk) t, eq_path-temp h path v t)
        (contains-list_disk h disk v own.1)
  | inr named ↦
      let (g, w, p) = named in
      rw (p, listed_chunk g (list_disk disk) w, eq_path-chunk h g v w)
        (ground (arith, contains-list_disk h disk v own.1))
]

-- On a directory that holds only what the store created, and with no faults, `ListChunks` returns a
-- list with exactly the hashes of 32 bytes that `HasChunk` confirms.
pub list_chunks-has_chunk :
    (h : Bytes) (s : ChunkStore)
    → IsHash h
    → AllOwn s.disk
    → (hashes : List Bytes) × (list_chunks no_faults s ≡ ok hashes)
      × (contains h hashes ≡ has_chunk no_faults h s)
unfolding list_chunks has_chunk stat
list_chunks-has_chunk h s v own =
    (list_disk s.disk, refl, contains-list_disk h s.disk v own ∙ ground (arith, v.size))

insert-AllOwn : (p : FilePath) (b : Bytes) (d : Disk) → IsOwn p → AllOwn d → AllOwn (insert p b d)
unfolding insert
insert-AllOwn p b [] o a = (o, tt)
insert-AllOwn p b ((q, c) ∷ d) o a = elim (Bool-cases (eq_path p q)) [
  | inl e ↦ rw e (o, a.1)
  | inr e ↦ rw e (a.0, insert-AllOwn p b d o a.1)
]

remove-AllOwn : (p : FilePath) (d : Disk) → AllOwn d → AllOwn (remove p d)
unfolding remove
remove-AllOwn p [] a = tt
remove-AllOwn p ((q, c) ∷ d) a = elim (Bool-cases (eq_path p q)) [
  | inl e ↦ rw e a.1
  | inr e ↦ rw e (a.0, remove-AllOwn p d a.1)
]

write_chunk-AllOwn :
    (how : Write) (io : Faults) (h bytes : Bytes) (s : ChunkStore)
    → IsHash h
    → AllOwn s.disk
    → AllOwn (write_chunk how io (path_of h) h bytes s).1.disk
unfolding write_chunk
write_chunk-AllOwn not_opened io h bytes s v a = a
write_chunk-AllOwn (cut_short part) io h bytes s v a =
    insert-AllOwn _ part s.disk (inl (is_temp-temp_path_of h v)) a
write_chunk-AllOwn written io h bytes s v a =
    let temp = temp_path (path_of h) in
    let wrote = insert-AllOwn temp bytes s.disk (inl (is_temp-temp_path_of h v)) a in
    let cleared = remove-AllOwn temp (insert temp bytes s.disk) wrote in
    let moved = insert-AllOwn (path_of h) bytes _ (inr (h, v, refl)) cleared in
    elim (Bool-cases io.rename_fails) [
      | inr e ↦ rw (e, rename-insert temp (path_of h) bytes s.disk) moved
      | inl e ↦ elim (Bool-cases io.remove_fails) [
        | inl r ↦ rw (e, r) wrote
        | inr r ↦ rw (e, r) cleared
      ]
    ]

pub put_chunk-AllOwn :
    (sha256 : Bytes → Bytes) (digest : IsDigest sha256) (io : Faults) (bytes : Bytes)
    (s : ChunkStore)
    → AllOwn s.disk
    → AllOwn (put_chunk sha256 io bytes s).1.disk
unfolding put_chunk
put_chunk-AllOwn sha256 digest io bytes s a =
    ground (arith, write_chunk-AllOwn io.write io (sha256 bytes) bytes s (digest bytes) a)

pub delete_chunk-AllOwn :
    (io : Faults) (h : Bytes) (s : ChunkStore) → AllOwn s.disk → AllOwn (delete_chunk io h s).1.disk
unfolding delete_chunk stat
delete_chunk-AllOwn io h s a = ground (arith, remove-AllOwn (path_of h) s.disk a)
