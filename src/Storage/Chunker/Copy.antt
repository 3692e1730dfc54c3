-- ===== src/Storage/Chunker/Copy.antt =====
-- `bytesEqual` decides equality, and what Go's `copy` into a slice leaves there.
use mini_ipfs.Prelude.{
  ℕ, zero, suc, ◌≤◌, ◌≡◌, ◌↔◌, refl, sym, ap, ◌∙◌, inl, inr, true, [], ◌∷◌, ◌++◌, arith, leb, ◌==◌,
  ==_iff, length, take, drop, replicate, take-append_left, length-append, append-nil, Bool-cases,
  ok, pos, negsuc, ℤ, eq_int, Bytes,
}
use mini_ipfs.Storage.Chunker.{bytes_equal, same_elements, overwrite, copy_at}

same_elements_iff : (a b : Bytes) → length a ≡ length b → (same_elements a b ≡ true) ↔ (a ≡ b)
unfolding same_elements
same_elements_iff [] [] e = (λ _. refl, λ _. refl)
same_elements_iff [] (y ∷ b) e = absurd (omega arith)
same_elements_iff (x ∷ a) [] e = absurd (omega arith)
same_elements_iff (x ∷ a) (y ∷ b) e = ground (arith, same_elements_iff a b (omega arith))

-- `bytesEqual` decides equality.
pub bytes_equal_iff : (a b : Bytes) → (bytes_equal a b ≡ true) ↔ (a ≡ b)
unfolding bytes_equal
bytes_equal_iff a b = elim (Bool-cases (length a == length b)) [
  | inl e ↦ rw e (same_elements_iff a b ((==_iff _ _).0 e))
  | inr e ↦ rw e (λ h. cc, λ h. absurd (ground (arith, ap length h)))
]

pub eq_int_iff : (a b : ℤ) → (eq_int a b ≡ true) ↔ (a ≡ b)
eq_int_iff (pos a) (pos b) = ground arith
eq_int_iff (pos a) (negsuc b) = ground arith
eq_int_iff (negsuc a) (pos b) = ground arith
eq_int_iff (negsuc a) (negsuc b) = ground arith

drop-append_left : (xs ys : Bytes) → drop (length xs) (xs ++ ys) ≡ ys
drop-append_left [] ys = refl
drop-append_left (x ∷ xs) ys = drop-append_left xs ys

pub copy_at_lem :
    (pre suf chunk : Bytes)
    → copy_at (length pre) (pre ++ suf) chunk ≡ ok (pre ++ overwrite suf chunk)
unfolding copy_at
copy_at_lem pre suf chunk = elim (Bool-cases (leb (length pre) (length (pre ++ suf)))) [
  | inl e ↦ rw (e, take-append_left (length pre) pre suf refl, drop-append_left pre suf)
  | inr e ↦ absurd (ground (arith, length-append pre suf))
]

pub overwrite-append :
    (suf c rest : Bytes)
    → length c ≤ length suf
    → overwrite suf (c ++ rest) ≡ c ++ overwrite (drop (length c) suf) rest
unfolding overwrite
overwrite-append suf [] rest h = refl
overwrite-append [] (x ∷ c) rest h = absurd (omega arith)
overwrite-append (y ∷ suf) (x ∷ c) rest h = ap (◌∷◌ x) (overwrite-append suf c rest (omega arith))

pub overwrite-nil : (suf : Bytes) → overwrite suf [] ≡ suf
unfolding overwrite
overwrite-nil [] = refl
overwrite-nil (x ∷ suf) = refl

pub overwrite_fits :
    (suf c : Bytes) → length c ≤ length suf → overwrite suf c ≡ c ++ drop (length c) suf
overwrite_fits suf c h =
    ap (overwrite suf) (sym (append-nil c))
    ∙ overwrite-append suf c [] h
    ∙ ap (◌++◌ c) (overwrite-nil _)

pub length-overwrite : (dst src : Bytes) → length (overwrite dst src) ≡ length dst
unfolding overwrite
length-overwrite [] src = refl
length-overwrite (d ∷ dst) [] = refl
length-overwrite (d ∷ dst) (s ∷ src) = omega (arith, length-overwrite dst src)

replicate-take : (n m : ℕ) → n ≤ m → replicate {A = ℕ} n 0 ≡ take n (replicate m 0)
replicate-take zero m h = refl
replicate-take (suc n) zero h = absurd (omega arith)
replicate-take (suc n) (suc m) h = ap (◌∷◌ 0) (replicate-take n m (omega arith))

pub overwrite-zeros :
    (n m : ℕ) (src : Bytes) → n ≤ m → overwrite (replicate n 0) src ≡ take n (src ++ replicate m 0)
unfolding overwrite
overwrite-zeros zero m src h = refl
overwrite-zeros (suc n) m [] h = replicate-take (suc n) m h
overwrite-zeros (suc n) m (s ∷ src) h = ap (◌∷◌ s) (overwrite-zeros n m src (omega arith))
