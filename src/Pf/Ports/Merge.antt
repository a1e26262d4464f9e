-- ===== src/Pf/Ports/Merge.antt =====
-- `_merge_intervals` of pf_rules.py: the merged intervals cover the same ports, apart and in order.
use iaas.Prelude.{
  ℕ, ◌+◌, ◌≤◌, ◌≡◌, refl, Bool, ◌&&◌, ◌||◌, List, [], ◌∷◌, leb, any, All, arith, ◌∙◌, ap,
}
use iaas.Pf.Ports.{Interval, insert, sort, max, merge_from, merge_sorted, merge_intervals}

abbrev pub covers : ℕ → List Interval → Bool
covers p = any (λ r. leb r.0 p && leb p r.1)

abbrev pub AreIntervals : List Interval → Type 0
AreIntervals = All (λ r. r.0 ≤ r.1)

-- Each interval begins at least two ports behind the one before it: at `from` or later the first.
abbrev pub IsSpaced : ℕ → List Interval → Type 0
IsSpaced from [] = Unit
IsSpaced from ((l, h) ∷ rest) = (from ≤ l) × (l ≤ h) × IsSpaced (h + 2) rest

-- Sorted by the lower ends, none below `from`.
abbrev IsSorted : ℕ → List Interval → Type 0
IsSorted from [] = Unit
IsSorted from ((l, h) ∷ rest) = (from ≤ l) × IsSorted l rest

covers-insert :
    (p : ℕ) (x : Interval) (xs : List Interval) → covers p (insert x xs) ≡ covers p (x ∷ xs)
unfolding insert
covers-insert p x [] = refl
covers-insert p x (y ∷ ys) = ground (arith, covers-insert p x ys)

covers-sort : (p : ℕ) (xs : List Interval) → covers p (sort xs) ≡ covers p xs
unfolding sort
covers-sort p [] = refl
covers-sort p (x ∷ xs) =
    covers-insert p x (sort xs) ∙ ap (λ b. leb x.0 p && leb p x.1 || b) (covers-sort p xs)

AreIntervals-insert :
    (x : Interval) (xs : List Interval) → x.0 ≤ x.1 → AreIntervals xs → AreIntervals (insert x xs)
unfolding insert
AreIntervals-insert x [] h hs = (h, tt)
AreIntervals-insert x (y ∷ ys) h hs = ground (arith, AreIntervals-insert x ys)

AreIntervals-sort : (xs : List Interval) → AreIntervals xs → AreIntervals (sort xs)
unfolding sort
AreIntervals-sort [] h = tt
AreIntervals-sort (x ∷ xs) h = AreIntervals-insert x (sort xs) h.0 (AreIntervals-sort xs h.1)

IsSorted-insert :
    (from : ℕ) (x : Interval) (xs : List Interval)
    → from ≤ x.0
    → IsSorted from xs
    → IsSorted from (insert x xs)
unfolding insert
IsSorted-insert from x [] h hs = (h, tt)
IsSorted-insert from x (y ∷ ys) h hs = ground (arith, IsSorted-insert y.0 x ys)

IsSorted-sort : (xs : List Interval) → IsSorted 0 (sort xs)
unfolding sort
IsSorted-sort [] = tt
IsSorted-sort (x ∷ xs) = IsSorted-insert 0 x (sort xs) (omega arith) (IsSorted-sort xs)

IsSorted-weaken : (from l : ℕ) (xs : List Interval) → from ≤ l → IsSorted l xs → IsSorted from xs
IsSorted-weaken from l [] h s = tt
IsSorted-weaken from l (x ∷ xs) h s = (omega arith, s.1)

covers-merge_from :
    (p low high : ℕ) (rest : List Interval)
    → low ≤ high
    → IsSorted low rest
    → AreIntervals rest
    → covers p (merge_from low high rest) ≡ covers p ((low, high) ∷ rest)
unfolding merge_from
covers-merge_from p low high [] h s v = refl
covers-merge_from p low high ((l, u) ∷ rest) h s v = ground (
  arith,
  covers-merge_from p low (max high u) rest,
  covers-merge_from p l u rest,
  IsSorted-weaken low l rest,
)

IsSpaced-merge_from :
    (from low high : ℕ) (rest : List Interval)
    → from ≤ low
    → low ≤ high
    → IsSorted low rest
    → AreIntervals rest
    → IsSpaced from (merge_from low high rest)
unfolding merge_from
IsSpaced-merge_from from low high [] f h s v = (f, h, tt)
IsSpaced-merge_from from low high ((l, u) ∷ rest) f h s v = ground (
  arith,
  IsSpaced-merge_from from low (max high u) rest,
  IsSpaced-merge_from (high + 2) l u rest,
  IsSorted-weaken low l rest,
)

covers-merge_sorted :
    (p : ℕ) (xs : List Interval)
    → IsSorted 0 xs
    → AreIntervals xs
    → covers p (merge_sorted xs) ≡ covers p xs
unfolding merge_sorted
covers-merge_sorted p [] s v = refl
covers-merge_sorted p ((l, h) ∷ rest) s v = covers-merge_from p l h rest v.0 s.1 v.1

IsSpaced-merge_sorted :
    (xs : List Interval) → IsSorted 0 xs → AreIntervals xs → IsSpaced 0 (merge_sorted xs)
unfolding merge_sorted
IsSpaced-merge_sorted [] s v = tt
IsSpaced-merge_sorted ((l, h) ∷ rest) s v = IsSpaced-merge_from 0 l h rest s.0 v.0 s.1 v.1

-- Merging intervals that are not reversed keeps the ports that they cover, whatever order they are
-- given in.
pub covers-merge_intervals :
    (p : ℕ) (xs : List Interval) → AreIntervals xs → covers p (merge_intervals xs) ≡ covers p xs
unfolding merge_intervals
covers-merge_intervals p xs v =
    covers-merge_sorted p (sort xs) (IsSorted-sort xs) (AreIntervals-sort xs v) ∙ covers-sort p xs

-- If no interval is reversed, the merged intervals are in order, and at least one port that is not covered lies between two.
pub merge_intervals-IsSpaced :
    (xs : List Interval) → AreIntervals xs → IsSpaced 0 (merge_intervals xs)
unfolding merge_intervals
merge_intervals-IsSpaced xs v =
    IsSpaced-merge_sorted (sort xs) (IsSorted-sort xs) (AreIntervals-sort xs v)
