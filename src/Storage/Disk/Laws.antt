-- ===== src/Storage/Disk/Laws.antt =====
-- Laws of the files below the data directory.
use mini_ipfs.Prelude.{
  ℕ, ◌+◌, ◌≡◌, ◌≢◌, ◌↔◌, refl, sym, ap, ◌∙◌, inl, inr, true, false, none, some, [], ◌∷◌, ◌++◌,
  arith, eq_bytes_iff, Bool-cases, All, Bytes,
}
use mini_ipfs.Storage.Disk.{
  FilePath, Disk, eq_path, lookup, insert, remove, rename, NodupPaths, extension, temp_suffix,
  is_temp, temp_path, tally,
}

pub eq_path_iff : (p q : FilePath) → (eq_path p q ≡ true) ↔ (p ≡ q)
eq_path_iff [] [] = (λ _. refl, λ _. refl)
eq_path_iff [] (b ∷ q) = ground arith
eq_path_iff (a ∷ p) [] = ground arith
eq_path_iff (a ∷ p) (b ∷ q) = ground (arith, eq_bytes_iff a b, eq_path_iff p q)

eq_path_refl : (p : FilePath) → eq_path p p ≡ true
eq_path_refl p = (eq_path_iff p p).1 refl

eq_path_ne : (p q : FilePath) → p ≢ q → eq_path p q ≡ false
eq_path_ne p q h = ground (arith, eq_path_iff p q)

pub lookup-insert_self : (p : FilePath) (b : Bytes) (d : Disk) → lookup p (insert p b d) ≡ some b
unfolding lookup insert
lookup-insert_self p b [] = rw (eq_path_refl p)
lookup-insert_self p b ((q, c) ∷ d) = ground (arith, eq_path_refl p, lookup-insert_self p b d)

pub lookup-insert_ne :
    (p q : FilePath) (b : Bytes) (d : Disk) → p ≢ q → lookup p (insert q b d) ≡ lookup p d
unfolding lookup insert
lookup-insert_ne p q b [] h = rw (eq_path_ne p q h)
lookup-insert_ne p q b ((r, c) ∷ d) h =
    ground (arith, eq_path_ne p q h, eq_path_iff q r, lookup-insert_ne p q b d h)

pub lookup-remove_ne : (p q : FilePath) (d : Disk) → p ≢ q → lookup p (remove q d) ≡ lookup p d
unfolding lookup remove
lookup-remove_ne p q [] h = refl
lookup-remove_ne p q ((r, c) ∷ d) h =
    ground (arith, eq_path_ne p q h, eq_path_iff q r, lookup-remove_ne p q d h)

pub lookup-remove_self : (p : FilePath) (d : Disk) → NodupPaths d → lookup p (remove p d) ≡ none
unfolding lookup remove
lookup-remove_self p [] u = refl
lookup-remove_self p ((q, c) ∷ d) u = ground (arith, eq_path_iff p q, lookup-remove_self p d u.1)

pub insert-NodupPaths :
    (p : FilePath) (b : Bytes) (d : Disk) → NodupPaths d → NodupPaths (insert p b d)
unfolding lookup insert
insert-NodupPaths p b [] u = (refl, tt)
insert-NodupPaths p b ((q, c) ∷ d) u =
    ground (
      arith,
      eq_path_iff p q,
      eq_path_iff q p,
      lookup-insert_ne q p b d,
      insert-NodupPaths p b d u.1,
    )

remove-NodupPaths_absent :
    (p q : FilePath) (d : Disk) → lookup q d ≡ none → lookup q (remove p d) ≡ none
unfolding lookup remove
remove-NodupPaths_absent p q [] h = refl
remove-NodupPaths_absent p q ((r, c) ∷ d) h = ground (arith, remove-NodupPaths_absent p q d)

pub remove-NodupPaths : (p : FilePath) (d : Disk) → NodupPaths d → NodupPaths (remove p d)
unfolding lookup remove
remove-NodupPaths p [] u = tt
remove-NodupPaths p ((q, c) ∷ d) u =
    ground (arith, remove-NodupPaths_absent p q d u.0, remove-NodupPaths p d u.1)

module _ (w : FilePath → Bytes → ℕ) where
  pub tally-insert_new :
      (p : FilePath) (b : Bytes) (d : Disk)
      → lookup p d ≡ none
      → tally w (insert p b d) ≡ w p b + tally w d
  unfolding lookup insert tally
  tally-insert_new p b [] h = refl
  tally-insert_new p b ((q, c) ∷ d) h = ground (arith, tally-insert_new p b d)

  pub tally-insert_light :
      (p : FilePath) (b : Bytes) (d : Disk)
      → ((c : Bytes) → w p c ≡ 0)
      → tally w (insert p b d) ≡ tally w d
  unfolding insert tally
  tally-insert_light p b [] h = omega (arith, h b)
  tally-insert_light p b ((q, c) ∷ d) h = elim (Bool-cases (eq_path p q)) [
    | inl e ↦ rw e (omega (arith, h b, h c, ap (λ (r : FilePath). w r c) ((eq_path_iff p q).0 e)))
    | inr e ↦ rw e (omega (arith, tally-insert_light p b d h))
  ]

  pub tally-remove :
      (p : FilePath) (b : Bytes) (d : Disk)
      → lookup p d ≡ some b
      → w p b + tally w (remove p d) ≡ tally w d
  unfolding lookup remove tally
  tally-remove p b [] h = cc
  tally-remove p b ((q, c) ∷ d) h = elim (Bool-cases (eq_path p q)) [
    | inl e ↦
        let same = (eq_path_iff p q).0 e in
        let hit : some c ≡ some b = rw e at h in
        let weight : w p b ≡ w q c = cc in rw e (omega (arith, weight))
    | inr e ↦ rw e (omega (arith, tally-remove p b d (rw e at h)))
  ]

  pub tally-remove_light :
      (p : FilePath) (d : Disk) → ((c : Bytes) → w p c ≡ 0) → tally w (remove p d) ≡ tally w d
  unfolding remove tally
  tally-remove_light p [] h = refl
  tally-remove_light p ((q, c) ∷ d) h = elim (Bool-cases (eq_path p q)) [
    | inl e ↦ rw e (omega (arith, h c, ap (λ (r : FilePath). w r c) ((eq_path_iff p q).0 e)))
    | inr e ↦ rw e (omega (arith, tally-remove_light p d h))
  ]

extension-temp : (name : Bytes) → extension (name ++ temp_suffix) ≡ temp_suffix
unfolding extension
extension-temp [] = refl
extension-temp (c ∷ name) = rw (extension-temp name)

extension-no_dot : (name : Bytes) → All (λ c. c ≢ b'.') name → extension name ≡ []
unfolding extension
extension-no_dot [] h = refl
extension-no_dot (c ∷ name) h = rw (extension-no_dot name h.1) (ground (arith, h.0))

pub is_temp-temp_path : (name : Bytes) (path : FilePath) → is_temp (temp_path (name ∷ path)) ≡ true
unfolding is_temp temp_path
is_temp-temp_path name [] = rw (extension-temp name)
is_temp-temp_path name (n ∷ []) = rw (extension-temp n)
is_temp-temp_path name (n ∷ m ∷ path) = is_temp-temp_path n (m ∷ path)

pub is_temp-no_dot :
    (dir name : Bytes) → All (λ c. c ≢ b'.') name → is_temp (dir ∷ name ∷ []) ≡ false
unfolding is_temp
is_temp-no_dot dir name h = rw (extension-no_dot name h)

-- Writing a temporary file and moving it to its place.
pub rename-insert :
    (t p : FilePath) (b : Bytes) (d : Disk)
    → rename t p (insert t b d) ≡ insert p b (remove t (insert t b d))
unfolding rename
rename-insert t p b d = rw (lookup-insert_self t b d, rename)

pub lookup-moved_ne :
    (q t p : FilePath) (b : Bytes) (d : Disk)
    → q ≢ t
    → q ≢ p
    → lookup q (rename t p (insert t b d)) ≡ lookup q d
lookup-moved_ne q t p b d h k =
    rw (rename-insert t p b d)
      (lookup-insert_ne q p b _ k ∙ lookup-remove_ne q t _ h ∙ lookup-insert_ne q t b d h)

pub lookup-moved_self :
    (t p : FilePath) (b : Bytes) (d : Disk) → lookup p (rename t p (insert t b d)) ≡ some b
lookup-moved_self t p b d = rw (rename-insert t p b d) (lookup-insert_self p b _)

-- What is left after a removal was there before.
pub lookup-remove-some :
    (p q : FilePath) (b : Bytes) (d : Disk)
    → NodupPaths d
    → lookup p (remove q d) ≡ some b
    → lookup p d ≡ some b
lookup-remove-some p q b d u h = elim (Bool-cases (eq_path p q)) [
  | inl e ↦ cc (lookup-remove_self q d u, ap (λ r. lookup r (remove q d)) ((eq_path_iff p q).0 e))
  | inr e ↦ sym (lookup-remove_ne p q d (λ same. cc ((eq_path_iff p q).1 same))) ∙ h
]
