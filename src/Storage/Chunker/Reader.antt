-- ===== src/Storage/Chunker/Reader.antt =====
-- `ChunkReader`: the chunks are what the reads returned, in order, up to the end of the file.
use mini_ipfs.Prelude.{
  ℕ, ◌≤◌, ◌<◌, ◌≡◌, refl, sym, ap, ◌∙◌, inl, inr, List, [], ◌∷◌, ◌++◌, arith, ltb, length, concat,
  All, ok, err, if◌then◌else◌, pos, Bytes, Bool-cases, append-nil, append_assoc, length-nil→eq,
  ltb→lt,
}
use mini_ipfs.Storage.Chunker.{
  Read, no_error, end_of_file, failed, read_failed, chunk_reader, prepend,
}

-- What a reader documents about one read into a buffer of `size` bytes.
abbrev pub FitsBuffer : ℕ → Read → Type 0
FitsBuffer size r = length r.0 ≤ size

-- A reader that answers these reads with no error, then the last bytes with `io.EOF`.
abbrev pub until_end : List Bytes → Bytes → List Read
until_end [] last = (last, end_of_file) ∷ []
until_end (b ∷ bs) last = (b, no_error) ∷ until_end bs last

-- A reader that answers these reads with no error, then the last bytes with another error.
abbrev pub until_failure : List Bytes → Bytes → List Read
until_failure [] last = (last, failed) ∷ []
until_failure (b ∷ bs) last = (b, no_error) ∷ until_failure bs last

abbrev pub Fits : ℕ → List Bytes → Type 0
Fits size = All (λ b. (0 < length b) × (length b ≤ size))

-- What one more read does to the chunks of the later ones.
cons_read :
    (size : ℕ) (b : Bytes) (cs : List Bytes)
    → length b ≤ size
    → Fits size cs
    → (ds : List Bytes) × ((if ltb 0 (length b) then prepend b (ok cs) else ok cs) ≡ ok ds)
      × (concat ds ≡ b ++ concat cs)
      × Fits size ds
cons_read size b cs h f = elim (Bool-cases (ltb 0 (length b))) [
  | inl e ↦ (b ∷ cs, rw e, refl, ((ltb→lt _ _ e, h), f))
  | inr e ↦ (cs, rw e, rw (length-nil→eq b (ground arith)), f)
]

-- On a reader that keeps to the buffer and reaches the end of the file, `ChunkReader` returns
-- nonempty chunks no longer than the chunk size that put together are all bytes read.
pub chunk_reader-concat :
    (size : ℕ) (bs : List Bytes) (last : Bytes)
    → All (λ b. length b ≤ size) bs
    → length last ≤ size
    → (chunks : List Bytes) × (chunk_reader (record { chunk_size = pos size }) (until_end bs last)
        ≡ ok chunks)
      × (concat chunks ≡ concat bs ++ last)
      × Fits size chunks
unfolding chunk_reader
chunk_reader-concat size [] last h k =
    let (ds, p, q, f) = cons_read size last [] k tt in (ds, p, q ∙ append-nil last, f)
chunk_reader-concat size (b ∷ bs) last h k =
    let (cs, p, q, f) = chunk_reader-concat size bs last h.1 k in
    let (ds, p', q', f') = cons_read size b cs h.0 f in
    (ds, rw p p', q' ∙ ap (◌++◌ b) q ∙ sym (append_assoc b (concat bs) last), f')

-- A read error discards the chunks read before it, whatever was read with it.
pub chunk_reader_fails :
    (size : ℕ) (bs : List Bytes) (last : Bytes)
    → chunk_reader (record { chunk_size = pos size }) (until_failure bs last) ≡ err read_failed
unfolding chunk_reader
chunk_reader_fails size [] last = ground arith
chunk_reader_fails size (b ∷ bs) last = rw (chunk_reader_fails size bs last) (ground arith)
