-- ===== src/Pf/Ports.antt =====
-- src/iaas/opnsense_workflow/pf_rules.py: port tokens, port expressions and merged port intervals.
pub mod Merge
pub mod Tokens
pub mod Canonical
use iaas.Prelude.{
  ℕ, zero, suc, ◌+◌, ◌*◌, ◌-◌, Bool, true, false, not, ◌&&◌, ◌||◌, Option, none, some, List, [],
  ◌∷◌, ◌++◌, Text, codes, leb, ltb, ◌==◌, if◌then◌else◌, any, starts_with, contains,
}
use iaas.Prelude.Unicode.{digit, is_space}

-- The ports from `low` to `high`.
abbrev pub Interval : Type 0
Interval = ℕ × ℕ

-- The digits at the head of a text, as the number that `int` makes of them, with their count.
unfoldable pub read_digits : ℕ → ℕ → Text → ℕ × ℕ × Text
read_digits count n [] = (count, n, [])
read_digits count n (c ∷ s) = elim (digit c) [
  | none ↦ (count, n, c ∷ s)
  | some d ↦ read_digits (suc count) (n * 10 + d) s
]

unfoldable pub skip_spaces : Text → Text
unfolding is_space
skip_spaces [] = []
skip_spaces (c ∷ s) = let rest = skip_spaces s in if is_space c then rest else c ∷ s

abbrev drop_prefix : Text → Text → Option Text
drop_prefix [] s = some s
drop_prefix (c ∷ p) [] = none
drop_prefix (c ∷ p) (d ∷ s) = let rest = drop_prefix p s in if c == d then rest else none

-- `^\d+$`; the limit of `int` on the number of digits is left out.
abbrev whole_number : ℕ × ℕ × Text → Option ℕ
whole_number (zero, n, rest) = none
whole_number (suc count, n, []) = some n
whole_number (suc count, n, c ∷ rest) = none

unfoldable pub number : Text → Option ℕ
unfolding read_digits
number s = whole_number (read_digits 0 0 s)

abbrev up_to : ℕ → Option ℕ → Option Interval
up_to low none = none
up_to low (some high) = some (low, high)

high_end : ℕ → Option Text → Option Interval
unfolding number skip_spaces
high_end low none = none
high_end low (some s) = up_to low (number (skip_spaces s))

low_end : Text → ℕ × ℕ × Text → Option Interval
unfolding high_end
low_end separator (zero, low, rest) = none
low_end separator (suc count, low, rest) = high_end low (drop_prefix separator (skip_spaces rest))

-- `^(\d+)\s*SEPARATOR\s*(\d+)$`, with its two numbers.
unfoldable pub two_numbers : Text → Text → Option Interval
unfolding low_end read_digits
two_numbers separator s = low_end separator (read_digits 0 0 s)

abbrev pub max_port : ℕ
max_port = 65535

-- `low < high`, both ends left out.
open_range : Option Interval → Option (List Interval)
open_range none = none
open_range (some (low, high)) =
    if not (ltb low high && leb high max_port)
    then none
    else if leb (low + 1) (high - 1)
    then some ((low + 1, high - 1) ∷ [])
    else some []

pub closed_range : Option Interval → Option (List Interval)
closed_range none = none
closed_range (some (low, high)) =
    if leb low high && leb high max_port then some ((low, high) ∷ []) else none

single : ℕ → Option (List Interval)
single n = if leb n max_port then some ((n, n) ∷ []) else none

abbrev is_special : ℕ → Bool
is_special c = any (λ d. c == d) (codes "{}$<>")

abbrev pub is_nil : Text → Bool
is_nil [] = true
is_nil (c ∷ s) = false

second_range : Option Interval → Text → Option (List Interval)
unfolding closed_range
second_range (some r) value = closed_range (some r)
second_range none value = closed_range (two_numbers (codes "-") value)

range_token : Text → Option (List Interval)
unfolding second_range
range_token value = second_range (two_numbers (codes ":") value) value

number_token : Option ℕ → Text → Option (List Interval)
unfolding single range_token
number_token (some n) value = single n
number_token none value = range_token value

unfoldable pub port_token : Text → Option (List Interval)
unfolding open_range number_token
port_token value =
    if is_nil value || any is_special value
    then open_range (two_numbers (codes "<>") value)
    else number_token (number value) value

-- The order of Python's tuples.
abbrev leb_interval : Interval → Interval → Bool
leb_interval (a, b) (c, d) = ltb a c || ((a == c) && leb b d)

unfoldable pub insert : Interval → List Interval → List Interval
insert x [] = x ∷ []
insert x (y ∷ ys) = if leb_interval x y then x ∷ y ∷ ys else y ∷ insert x ys

-- `sorted(intervals)`
unfoldable pub sort : List Interval → List Interval
unfolding insert
sort [] = []
sort (x ∷ xs) = insert x (sort xs)

abbrev pub max : ℕ → ℕ → ℕ
max a b = if leb a b then b else a

-- The loop over the sorted intervals, `(low, high)` the last of `merged`.
unfoldable pub merge_from : ℕ → ℕ → List Interval → List Interval
merge_from low high [] = (low, high) ∷ []
merge_from low high ((l, h) ∷ rest) = elim (leb l (high + 1)) [
  | true ↦ merge_from low (max high h) rest
  | false ↦ (low, high) ∷ merge_from l h rest
]

merge_sorted : List Interval → List Interval
merge_sorted [] = []
merge_sorted ((low, high) ∷ rest) = merge_from low high rest

unfoldable pub merge_intervals : List Interval → List Interval
unfolding sort merge_sorted merge_from
merge_intervals intervals = merge_sorted (sort intervals)
