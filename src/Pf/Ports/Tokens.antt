-- ===== src/Pf/Ports/Tokens.antt =====
-- `_port_token` of pf_rules.py: which tokens are ports, and which ports they are.
use iaas.Prelude.{
  ℕ, suc, ◌+◌, ◌*◌, ◌≤◌, ◌<◌, ◌≡◌, refl, false, ◌||◌, Option, none, some, List, [], ◌∷◌, ◌++◌, map,
  leb, ◌==◌, any, All, arith, ==_iff, Bool-cases, inl, inr, ◌∙◌, ap, Text, codes, length,
  if◌then◌else◌,
}
use mathlib.Core.List.{append-nil}
use native.Mathlib.Nat.{add-zero}
use iaas.Prelude.Unicode.{digit, digit_ascii, is_space}
use iaas.Pf.Ports.{
  Interval, read_digits, skip_spaces, number, two_numbers, max_port, port_token, open_range,
  closed_range, single, second_range, number_token, is_special, is_nil, whole_number, low_end,
  high_end, up_to, drop_prefix,
}

-- A range of ports that is not reversed and stays in 0..65535.
abbrev pub IsPortRange : Interval → Type 0
IsPortRange r = (r.0 ≤ r.1) × (r.1 ≤ max_port)

abbrev pub Ranges : Option (List Interval) → Type 0
Ranges none = Unit
Ranges (some xs) = All IsPortRange xs

open_range-Ranges : (r : Option Interval) → Ranges (open_range r)
unfolding open_range
open_range-Ranges none = tt
open_range-Ranges (some (low, high)) = ground arith

closed_range-Ranges : (r : Option Interval) → Ranges (closed_range r)
unfolding closed_range
closed_range-Ranges none = tt
closed_range-Ranges (some (low, high)) = ground arith

single-Ranges : (n : ℕ) → Ranges (single n)
unfolding single
single-Ranges n = ground arith

second_range-Ranges : (r : Option Interval) (value : Text) → Ranges (second_range r value)
unfolding second_range
second_range-Ranges none value = closed_range-Ranges (two_numbers (codes "-") value)
second_range-Ranges (some r) value = closed_range-Ranges (some r)

number_token-Ranges : (n : Option ℕ) (value : Text) → Ranges (number_token n value)
unfolding number_token
number_token-Ranges none value = second_range-Ranges (two_numbers (codes ":") value) value
number_token-Ranges (some n) value = single-Ranges n

-- The ranges of an accepted token are not reversed and stay in 0..65535.
pub port_token-Ranges : (value : Text) → Ranges (port_token value)
unfolding port_token
port_token-Ranges value = elim (Bool-cases (is_nil value || any is_special value)) [
  | inl e ↦ rw e (open_range-Ranges (two_numbers (codes "<>") value))
  | inr e ↦ rw e (number_token-Ranges (number value) value)
]

-- The text of ASCII digits, and the number that they write.
abbrev pub decimal : List ℕ → Text
decimal = map (λ d. 48 + d)

abbrev pub value_of : ℕ → List ℕ → ℕ
value_of n [] = n
value_of n (d ∷ ds) = value_of (n * 10 + d) ds

abbrev pub AreDigits : List ℕ → Type 0
AreDigits = All (λ d. d < 10)

abbrev StartsOther : Text → Type 0
StartsOther [] = Unit
StartsOther (c ∷ s) = digit c ≡ none

read_digits-decimal :
    (count n : ℕ) (ds : List ℕ) (rest : Text)
    → AreDigits ds
    → StartsOther rest
    → read_digits count n (decimal ds ++ rest) ≡ (count + length ds, value_of n ds, rest)
unfolding read_digits
read_digits-decimal count n [] [] h o = cc (add-zero count)
read_digits-decimal count n [] (c ∷ rest) h o = rw (o, read_digits) (cc (add-zero count))
read_digits-decimal count n (d ∷ ds) rest h o =
    rw (digit_ascii d h.0, read_digits)
      (read_digits-decimal (suc count) (n * 10 + d) ds rest h.1 o
        ∙ ap (λ k. (k, value_of n (d ∷ ds), rest)) (omega arith))

special_none :
    (ds : List ℕ) (rest : Text)
    → AreDigits ds
    → any is_special (decimal ds ++ rest) ≡ any is_special rest
special_none [] rest h = refl
special_none (d ∷ ds) rest h = ground (arith, special_none ds rest h.1)

not_space : (d : ℕ) → d < 10 → is_space (48 + d) ≡ false
unfolding is_space
not_space d h = ground arith

read_digits-start :
    (d : ℕ) (ds : List ℕ) (rest : Text)
    → AreDigits (d ∷ ds)
    → StartsOther rest
    → read_digits 0 0 (decimal (d ∷ ds) ++ rest) ≡ (suc (length ds), value_of 0 (d ∷ ds), rest)
read_digits-start d ds rest h o =
    read_digits-decimal 0 0 (d ∷ ds) rest h o
    ∙ ap (λ k. (k, value_of 0 (d ∷ ds), rest)) (omega arith)

number-decimal :
    (d : ℕ) (ds : List ℕ)
    → AreDigits (d ∷ ds)
    → number (decimal (d ∷ ds)) ≡ some (value_of 0 (d ∷ ds))
unfolding number
number-decimal d ds h = ap whole_number (rw append-nil at (read_digits-start d ds [] h tt))

number-other :
    (d : ℕ) (ds : List ℕ) (c : ℕ) (rest : Text)
    → AreDigits (d ∷ ds)
    → digit c ≡ none
    → number (decimal (d ∷ ds) ++ c ∷ rest) ≡ none
unfolding number
number-other d ds c rest h o = ap whole_number (read_digits-start d ds (c ∷ rest) h o)

-- The text of a number is the token of that one port, if it is a port.
pub port_token-decimal :
    (d : ℕ) (ds : List ℕ)
    → AreDigits (d ∷ ds)
    → let n = value_of 0 (d ∷ ds) in
      port_token (decimal (d ∷ ds)) ≡ (if leb n max_port then some ((n, n) ∷ []) else none)
unfolding port_token
port_token-decimal d ds h = rw (plain, number-decimal d ds h) refl
  where
    plain : any is_special (decimal (d ∷ ds)) ≡ false
    plain = rw append-nil at (special_none (d ∷ ds) [] h)

skip_spaces-stop : (c : ℕ) (rest : Text) → is_space c ≡ false → skip_spaces (c ∷ rest) ≡ c ∷ rest
unfolding skip_spaces
skip_spaces-stop c rest h = rw h

drop_prefix_self : (c : ℕ) (rest : Text) → drop_prefix (c ∷ []) (c ∷ rest) ≡ some rest
drop_prefix_self c rest = rw ((==_iff c c).1 refl)

high_end-decimal :
    (low e : ℕ) (es : List ℕ)
    → AreDigits (e ∷ es)
    → high_end low (some (decimal (e ∷ es))) ≡ some (low, value_of 0 (e ∷ es))
unfolding high_end
high_end-decimal low e es k =
    ap (λ t. up_to low (number t)) (skip_spaces-stop (48 + e) (decimal es) (not_space e k.0))
    ∙ ap (up_to low) (number-decimal e es k)

module _ (c d e : ℕ) (ds es : List ℕ) (h : AreDigits (d ∷ ds)) (k : AreDigits (e ∷ es))
    (o : digit c ≡ none) (s : is_space c ≡ false) where
  -- The two numbers on the sides of their separator.
  two_numbers-decimal :
      two_numbers (c ∷ []) (decimal (d ∷ ds) ++ c ∷ decimal (e ∷ es))
      ≡ some (value_of 0 (d ∷ ds), value_of 0 (e ∷ es))
  unfolding two_numbers
  two_numbers-decimal =
      ap (low_end (c ∷ [])) (read_digits-start d ds (c ∷ decimal (e ∷ es)) h o)
      ∙ (ap (λ t. high_end (value_of 0 (d ∷ ds)) (drop_prefix (c ∷ []) t))
            (skip_spaces-stop c (decimal (e ∷ es)) s)
          ∙ (ap (high_end (value_of 0 (d ∷ ds))) (drop_prefix_self c (decimal (e ∷ es)))
              ∙ high_end-decimal (value_of 0 (d ∷ ds)) e es k))

  -- No numbers on the sides of another separator.
  two_numbers-other :
      (c' : ℕ)
      → (c' == c) ≡ false
      → two_numbers (c' ∷ []) (decimal (d ∷ ds) ++ c ∷ decimal (e ∷ es)) ≡ none
  unfolding two_numbers
  two_numbers-other c' ne =
      ap (low_end (c' ∷ [])) (read_digits-start d ds (c ∷ decimal (e ∷ es)) h o)
      ∙ (ap (λ t. high_end (value_of 0 (d ∷ ds)) (drop_prefix (c' ∷ []) t))
            (skip_spaces-stop c (decimal (e ∷ es)) s)
          ∙ rw ne refl)

module _ (d e : ℕ) (ds es : List ℕ) (h : AreDigits (d ∷ ds)) (k : AreDigits (e ∷ es)) where
  plain_range :
      (c : ℕ)
      → is_special c ≡ false
      → any is_special (decimal (d ∷ ds) ++ c ∷ decimal (e ∷ es)) ≡ false
  plain_range c p =
      special_none (d ∷ ds) (c ∷ decimal (e ∷ es)) h
      ∙ rw p (rw append-nil at (special_none (e ∷ es) [] k))

  -- The text of two numbers on the sides of a colon is the token of the ports from the one to the
  -- other, if they are in order and ports.
  pub port_token-colon :
      port_token (decimal (d ∷ ds) ++ b':' ∷ decimal (e ∷ es))
      ≡ closed_range (some (value_of 0 (d ∷ ds), value_of 0 (e ∷ es)))
  unfolding port_token digit is_space
  port_token-colon =
      rw (plain_range b':' refl, number-other d ds b':' (decimal (e ∷ es)) h refl)
        (rw (two_numbers-decimal b':' d e ds es h k refl refl))

  -- The text of two numbers on the sides of a dash is the token of the ports from the one to the
  -- other, if they are in order and ports.
  pub port_token-dash :
      port_token (decimal (d ∷ ds) ++ b'-' ∷ decimal (e ∷ es))
      ≡ closed_range (some (value_of 0 (d ∷ ds), value_of 0 (e ∷ es)))
  unfolding port_token digit is_space
  port_token-dash =
      rw (plain_range b'-' refl, number-other d ds b'-' (decimal (e ∷ es)) h refl)
        (rw (two_numbers-other b'-' d e ds es h k refl refl b':' refl)
          (rw (two_numbers-decimal b'-' d e ds es h k refl refl)))
