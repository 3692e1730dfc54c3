-- ===== src/Dht/Closest/Sort.antt =====
-- The exchange sort of `ClosestK` orders by distance and loses nothing.
use mini_ipfs.Prelude.{
  ℕ, zero, suc, ◌≤◌, ◌≡◌, refl, sym, ap, ◌∙◌, inl, inr, true, false, List, [], ◌∷◌, arith, length,
  All, Bool-cases,
}
use mathlib.Core.List.{Perm}
use mathlib.Core.List.Perm
use mini_ipfs.Dht.Distance.{is_distance_smaller}
use mini_ipfs.Dht.Distance.Metric.{Nearer, Nearer-trans, Nearer-of_smaller, Nearer-refl}
use mini_ipfs.Dht.Closest.{NodeDistance, sweep, exchange_sort}

-- Every element is at least as near as those behind it.
abbrev pub IsSorted : List NodeDistance → Type 0
IsSorted [] = Unit
IsSorted (e ∷ es) = All (λ f. Nearer e.distance f.distance) es × IsSorted es

abbrev pub Uniform : ℕ → List NodeDistance → Type 0
Uniform n = All (λ e. length e.distance ≡ n)

sweep_nil : (e : NodeDistance) → sweep e [] ≡ (e, [])
unfolding sweep
sweep_nil e = refl

sweep_swap :
    (e f : NodeDistance) (es : List NodeDistance)
    → is_distance_smaller f.distance e.distance ≡ true
    → sweep e (f ∷ es) ≡ ((sweep f es).0, e ∷ (sweep f es).1)
unfolding sweep
sweep_swap e f es s = rw s

sweep_keep :
    (e f : NodeDistance) (es : List NodeDistance)
    → is_distance_smaller f.distance e.distance ≡ false
    → sweep e (f ∷ es) ≡ ((sweep e es).0, f ∷ (sweep e es).1)
unfolding sweep
sweep_keep e f es s = rw s

sweep-All :
    (P : NodeDistance → Type 0) (e : NodeDistance) (es : List NodeDistance)
    → P e
    → All P es
    → P (sweep e es).0 × All P (sweep e es).1
unfolding sweep
sweep-All P e [] p a = (p, tt)
sweep-All P e (f ∷ es) p a = elim (Bool-cases (is_distance_smaller f.distance e.distance)) [
  | inl s ↦ let ih = sweep-All P f es a.0 a.1 in rw s (ih.0, (p, ih.1))
  | inr s ↦ let ih = sweep-All P e es p a.1 in rw s (ih.0, (a.0, ih.1))
]

sweep-perm :
    (e : NodeDistance) (es : List NodeDistance) → Perm ((sweep e es).0 ∷ (sweep e es).1) (e ∷ es)
unfolding sweep
sweep-perm e [] = Perm.refl _
sweep-perm e (f ∷ es) = elim (Bool-cases (is_distance_smaller f.distance e.distance)) [
  | inl s ↦ rw s (Perm.trans (Perm.swap _ _ _) (Perm.cons e (sweep-perm f es)))
  | inr s ↦
      rw s (
        Perm.trans (Perm.swap _ _ _) (Perm.trans (Perm.cons f (sweep-perm e es)) (Perm.swap _ _ _)))
]

-- The element that a sweep leaves in front is at least as near as all others.
sweep-least :
    (n : ℕ) (e : NodeDistance) (es : List NodeDistance)
    → length e.distance ≡ n
    → Uniform n es
    → Nearer (sweep e es).0.distance e.distance
      × All (λ f. Nearer (sweep e es).0.distance f.distance) (sweep e es).1
sweep-least n e [] p a = rw (sweep_nil e) (Nearer-refl e.distance, tt)
sweep-least n e (f ∷ es) p a = elim (Bool-cases (is_distance_smaller f.distance e.distance)) [
  | inl s ↦
      let ih = sweep-least n f es a.0 a.1 in
      let size = (sweep-All (λ g. length g.distance ≡ n) f es a.0 a.1).0 in
      let near =
        Nearer-trans _ f.distance e.distance (size ∙ sym a.0) (a.0 ∙ sym p) ih.0
          (Nearer-of_smaller _ _ s) in
      rw (sweep_swap e f es s) (near, (near, ih.1))
  | inr s ↦
      let ih = sweep-least n e es p a.1 in
      let size = (sweep-All (λ g. length g.distance ≡ n) e es p a.1).0 in
      rw (sweep_keep e f es s)
        (ih.0, (Nearer-trans _ e.distance f.distance (size ∙ sym p) (p ∙ sym a.0) ih.0 s, ih.1))
]

pub exchange_sort-All :
    (P : NodeDistance → Type 0) (rounds : ℕ) (es : List NodeDistance)
    → All P es
    → All P (exchange_sort rounds es)
unfolding exchange_sort
exchange_sort-All P zero es a = a
exchange_sort-All P (suc rounds) [] a = tt
exchange_sort-All P (suc rounds) (e ∷ es) a =
    let s = sweep-All P e es a.0 a.1 in (s.0, exchange_sort-All P rounds _ s.1)

pub exchange_sort-perm : (rounds : ℕ) (es : List NodeDistance) → Perm (exchange_sort rounds es) es
unfolding exchange_sort
exchange_sort-perm zero es = Perm.refl es
exchange_sort-perm (suc rounds) [] = Perm.refl []
exchange_sort-perm (suc rounds) (e ∷ es) =
    Perm.trans (Perm.cons _ (exchange_sort-perm rounds _)) (sweep-perm e es)

length-sweep : (e : NodeDistance) (es : List NodeDistance) → length (sweep e es).1 ≡ length es
length-sweep e [] = rw (sweep_nil e)
length-sweep e (f ∷ es) = elim (Bool-cases (is_distance_smaller f.distance e.distance)) [
  | inl s ↦ rw (sweep_swap e f es s) (ap suc (length-sweep f es))
  | inr s ↦ rw (sweep_keep e f es s) (ap suc (length-sweep e es))
]

pub length-exchange_sort :
    (rounds : ℕ) (es : List NodeDistance) → length (exchange_sort rounds es) ≡ length es
unfolding exchange_sort
length-exchange_sort zero es = refl
length-exchange_sort (suc rounds) [] = refl
length-exchange_sort (suc rounds) (e ∷ es) =
    ap suc (length-exchange_sort rounds _ ∙ length-sweep e es)

-- With a round for each element the result is in order of distance.
pub exchange_sort-IsSorted :
    (n rounds : ℕ) (es : List NodeDistance)
    → length es ≤ rounds
    → Uniform n es
    → IsSorted (exchange_sort rounds es)
unfolding exchange_sort
exchange_sort-IsSorted n zero [] h u = tt
exchange_sort-IsSorted n zero (e ∷ es) h u = absurd (omega arith)
exchange_sort-IsSorted n (suc rounds) [] h u = tt
exchange_sort-IsSorted n (suc rounds) (e ∷ es) h u =
    let least = sweep-least n e es u.0 u.1 in
    let uniform = sweep-All (λ g. length g.distance ≡ n) e es u.0 u.1 in
    (
      exchange_sort-All (λ f. Nearer (sweep e es).0.distance f.distance) rounds _ least.1,
      exchange_sort-IsSorted n rounds _ (omega (arith, length-sweep e es)) uniform.1,
    )
