-- ===== src/Pf/Ports/Canonical.antt =====
-- Merged port intervals of pf_rules.py are equal exactly if they cover the same ports.
use iaas.Prelude.{
  ℕ, ◌+◌, ◌≤◌, ◌<◌, ◌≡◌, ◌↔◌, refl, true, false, List, [], ◌∷◌, arith, ◌∙◌, ap, sym, subst,
}
use iaas.Pf.Ports.{Interval, merge_intervals}
use iaas.Pf.Ports.Merge.{
  covers, IsSpaced, AreIntervals, covers-merge_intervals, merge_intervals-IsSpaced,
}

not_below : (p from : ℕ) (xs : List Interval) → p < from → IsSpaced from xs → covers p xs ≡ false
not_below p from [] h s = refl
not_below p from ((l, u) ∷ xs) h s = ground (arith, not_below p (u + 2) xs)

covers_head : (l u : ℕ) (xs : List Interval) → l ≤ u → covers l ((l, u) ∷ xs) ≡ true
covers_head l u xs h = ground arith

abbrev Same : List Interval → List Interval → Type 0
Same xs ys = (p : ℕ) → covers p xs ≡ covers p ys

-- The lower end of the first interval is the least port that is covered.
low-le :
    (from l u l' u' : ℕ) (xs ys : List Interval)
    → IsSpaced from ((l, u) ∷ xs)
    → IsSpaced from ((l', u') ∷ ys)
    → Same ((l, u) ∷ xs) ((l', u') ∷ ys)
    → l' ≤ l
low-le from l u l' u' xs ys s t same =
    ground (arith, same l, covers_head l u xs, not_below l l' ((l', u') ∷ ys))

high-le :
    (from l u u' : ℕ) (xs ys : List Interval)
    → IsSpaced from ((l, u) ∷ xs)
    → IsSpaced from ((l, u') ∷ ys)
    → Same ((l, u) ∷ xs) ((l, u') ∷ ys)
    → u' ≤ u
high-le from l u u' xs ys s t same = ground (arith, same (u + 1), not_below (u + 1) (u + 2) xs)

tails-Same :
    (from l u : ℕ) (xs ys : List Interval)
    → IsSpaced from ((l, u) ∷ xs)
    → IsSpaced from ((l, u) ∷ ys)
    → Same ((l, u) ∷ xs) ((l, u) ∷ ys)
    → Same xs ys
tails-Same from l u xs ys s t same p =
    ground (arith, same p, not_below p (u + 2) xs, not_below p (u + 2) ys)

spaced_unique :
    (from : ℕ) (xs ys : List Interval) → IsSpaced from xs → IsSpaced from ys → Same xs ys → xs ≡ ys
spaced_unique from [] [] s t same = refl
spaced_unique from [] ((l, u) ∷ ys) s t same = absurd (ground (arith, same l, covers_head l u ys))
spaced_unique from ((l, u) ∷ xs) [] s t same = absurd (ground (arith, same l, covers_head l u xs))
spaced_unique from ((l, u) ∷ xs) ((l', u') ∷ ys) s t same =
    let back = λ (p : ℕ). sym (same p) in
    let low : l' ≡ l =
      omega (arith, low-le from l u l' u' xs ys s t same, low-le from l' u' l u ys xs t s back) in
    let t1 = subst (λ k. IsSpaced from ((k, u') ∷ ys)) low t in
    let same1 = subst (λ k. Same ((l, u) ∷ xs) ((k, u') ∷ ys)) low same in
    let back1 = λ (p : ℕ). sym (same1 p) in
    let high : u' ≡ u =
      omega (arith, high-le from l u u' xs ys s t1 same1, high-le from l u' u ys xs t1 s back1) in
    let t2 = subst (λ k. IsSpaced from ((l, k) ∷ ys)) high t1 in
    let same2 = subst (λ k. Same ((l, u) ∷ xs) ((l, k) ∷ ys)) high same1 in
    cc (low, high, spaced_unique (u + 2) xs ys s.2 t2.2 (tails-Same from l u xs ys s t2 same2))

-- Two lists of intervals, none of them reversed, are merged to the same intervals exactly if they cover the same ports.
pub merge_intervals-canonical :
    (xs ys : List Interval)
    → AreIntervals xs
    → AreIntervals ys
    → (merge_intervals xs ≡ merge_intervals ys) ↔ ((p : ℕ) → covers p xs ≡ covers p ys)
merge_intervals-canonical xs ys v w = (
  λ e p. sym (covers-merge_intervals p xs v) ∙ (ap (covers p) e ∙ covers-merge_intervals p ys w),
  λ same.
      spaced_unique 0 (merge_intervals xs) (merge_intervals ys) (merge_intervals-IsSpaced xs v)
        (merge_intervals-IsSpaced ys w)
        (λ p. covers-merge_intervals p xs v ∙ (same p ∙ sym (covers-merge_intervals p ys w))),
)
