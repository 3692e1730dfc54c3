-- ===== src/Storage/Chunker/Split.antt =====
-- `ChunkData` cuts data into full chunks with a shorter last one, and when it returns at all.
use mini_ipfs.Prelude.{
  ℕ, zero, suc, ◌+◌, ◌≤◌, ◌<◌, ◌≡◌, refl, sym, ap, ◌∙◌, inl, inr, List, [], ◌∷◌, ◌++◌, arith, tests,
  ltb, length, take, drop, concat, take-append-drop, length-take, length-drop, drop-drop, drop-all,
  take-all, length-append, append-nil, Bool-cases, ok, running, pos, Bytes, if◌then◌else◌, lt→ltb,
  ltb→lt,
}
use mini_ipfs.Storage.Chunker.{chunk_data, chunk_loop, slice}

-- Every chunk but the last is full, and no chunk is empty.
abbrev pub IsSplit : ℕ → List Bytes → Type 0
IsSplit size [] = Unit
IsSplit size (c ∷ []) = (0 < length c) × (length c ≤ size)
IsSplit size (c ∷ d ∷ cs) = (length c ≡ size) × IsSplit size (d ∷ cs)

head_pos :
    (size : ℕ) (c : Bytes) (cs : List Bytes) → 0 < size → IsSplit size (c ∷ cs) → 0 < length c
head_pos size c [] h s = s.0
head_pos size c (d ∷ cs) h s = omega (arith, s.0)

IsSplit-cons :
    (size : ℕ) (c : Bytes) (cs : List Bytes)
    → 0 < size
    → 0 < length c
    → length c ≤ size
    → (0 < length (concat cs) → length c ≡ size)
    → IsSplit size cs
    → IsSplit size (c ∷ cs)
IsSplit-cons size c [] h low high full s = (low, high)
IsSplit-cons size c (d ∷ cs) h low high full s =
    (full (omega (arith, length-append d (concat cs), head_pos size d cs h s)), s)

-- The slice of a round is the next `size` bytes, or all that are left.
slice_lem :
    (size offset : ℕ) (bytes : Bytes)
    → offset < length bytes
    → slice offset
        (if ltb (length bytes) (offset + size) then length bytes else offset + size)
        bytes
      ≡ take size (drop offset bytes)
slice_lem size offset bytes h = elim (Bool-cases (ltb (length bytes) (offset + size))) [
  | inl e ↦ rw e (
      take-all _ (drop offset bytes) (omega (arith, length-drop offset bytes))
      ∙ sym (take-all size (drop offset bytes) (omega (tests, length-drop offset bytes))))
  | inr e ↦ rw e (ap (λ n. take n (drop offset bytes)) (omega arith))
]

-- A size above 0 moves every round on, so that one round for each byte and one more are enough.
chunk_loop_lem :
    (size : ℕ) (bytes : Bytes) (fuel offset : ℕ)
    → 0 < size
    → 0 < fuel
    → length bytes < fuel + offset
    → (chunks : List Bytes) × (chunk_loop fuel size offset bytes ≡ ok chunks)
      × (concat chunks ≡ drop offset bytes)
      × IsSplit size chunks
unfolding chunk_loop
chunk_loop_lem size bytes zero offset z w h = absurd (omega arith)
chunk_loop_lem size bytes (suc fuel) offset z w h = elim (Bool-cases (ltb offset (length bytes))) [
  | inr e ↦ ([], rw e, sym (drop-all offset bytes (ground arith)), tt)
  | inl e ↦
      let inside : offset < length bytes = ltb→lt _ _ e in
      let (chunks, p, q, s) =
        chunk_loop_lem size bytes fuel (offset + size) z (omega arith) (omega arith) in
      let cut = length-take size (drop offset bytes) in
      (
        take size (drop offset bytes) ∷ chunks,
        rw (e, slice_lem size offset bytes inside, p),
        rw (q, sym (drop-drop offset size (offset + size) bytes refl))
            (take-append-drop size (drop offset bytes)),
        IsSplit-cons size _ chunks z (omega (arith, cut, length-drop offset bytes))
            (omega (arith, cut))
            (λ more. omega (
              arith,
              cut,
              length-drop offset bytes,
              ap length q,
              length-drop (offset + size) bytes,
            ))
            s,
      )
]

-- With a chunk size above 0, `ChunkData` returns within one round for each byte and one more. The
-- chunks put together are the data, every chunk but the last has the chunk size, and none is empty.
pub chunk_data-IsSplit :
    (fuel size : ℕ) (bytes : Bytes)
    → 0 < size
    → length bytes < fuel
    → (chunks : List Bytes) × (chunk_data fuel (record { chunk_size = pos size }) bytes ≡ ok chunks)
      × (concat chunks ≡ bytes)
      × IsSplit size chunks
unfolding chunk_data
chunk_data-IsSplit fuel size [] z h = ([], refl, refl, tt)
chunk_data-IsSplit fuel size (b ∷ bytes) z h =
    chunk_loop_lem size (b ∷ bytes) fuel 0 z (omega arith) (omega arith)

-- Full chunks with a shorter last one are determined by what they hold.
append-cancel : (a b c d : Bytes) → length a ≡ length b → a ++ c ≡ b ++ d → (a ≡ b) × (c ≡ d)
append-cancel [] [] c d e h = (refl, h)
append-cancel [] (y ∷ b) c d e h = absurd (omega arith)
append-cancel (x ∷ a) [] c d e h = absurd (omega arith)
append-cancel (x ∷ a) (y ∷ b) c d e h =
    let (p, q) = append-cancel a b c d (omega arith) (cc) in (cc, q)

-- No other cut of the data into full chunks with a shorter, nonempty last one exists.
pub IsSplit-unique :
    (size : ℕ) (xs ys : List Bytes)
    → 0 < size
    → IsSplit size xs
    → IsSplit size ys
    → concat xs ≡ concat ys
    → xs ≡ ys
IsSplit-unique size [] [] z s t e = refl
IsSplit-unique size [] (y ∷ ys) z s t e =
    absurd (omega (arith, head_pos size y ys z t, ap length e, length-append y (concat ys)))
IsSplit-unique size (x ∷ xs) [] z s t e =
    absurd (omega (arith, head_pos size x xs z s, ap length e, length-append x (concat xs)))
IsSplit-unique size (x ∷ []) (y ∷ []) z s t e =
    ap (λ c. c ∷ []) (sym (append-nil x) ∙ e ∙ append-nil y)
IsSplit-unique size (x ∷ []) (y ∷ w ∷ ys) z s t e = absurd (
    omega (
      arith,
      ap length e,
      length-append x [],
      length-append y (w ++ concat ys),
      length-append w (concat ys),
      head_pos size w ys z t.1,
    ))
IsSplit-unique size (x ∷ v ∷ xs) (y ∷ []) z s t e = absurd (
    omega (
      arith,
      ap length e,
      length-append y [],
      length-append x (v ++ concat xs),
      length-append v (concat xs),
      head_pos size v xs z s.1,
    ))
IsSplit-unique size (x ∷ v ∷ xs) (y ∷ w ∷ ys) z s t e =
    let (p, q) = append-cancel x y _ _ (s.0 ∙ sym t.0) e in
    let rest = IsSplit-unique size (v ∷ xs) (w ∷ ys) z s.1 t.1 q in cc

chunk_loop_stuck :
    (fuel : ℕ) (bytes : Bytes) → 0 < length bytes → chunk_loop fuel 0 0 bytes ≡ running
unfolding chunk_loop
chunk_loop_stuck zero bytes h = refl
chunk_loop_stuck (suc fuel) bytes h = rw (lt→ltb _ _ h, chunk_loop_stuck fuel bytes h)

-- With chunk size 0 the offset never moves: on data that is not empty, `ChunkData` is still
-- running after any number of rounds.
pub chunk_data_stuck :
    (fuel : ℕ) (b : ℕ) (bytes : Bytes)
    → chunk_data fuel (record { chunk_size = pos 0 }) (b ∷ bytes) ≡ running
unfolding chunk_data
chunk_data_stuck fuel b bytes = chunk_loop_stuck fuel (b ∷ bytes) (omega arith)
