-- ===== src/Prelude/Strings.antt =====
-- Python's `str` as the list of its code points, with the operations that the sources use.
use Prim.Native.Nat.{ℕ, zero, suc, ◌+◌}
use Prim.Native.Char.{code}
use Prim.Native.String.{String}
use mathlib.Core.Path.{◌≡◌, refl}
use mathlib.Core.Logic.{◌↔◌, inl, inr}
use mathlib.Core.Bool.{Bool, true, false, ◌&&◌, ◌||◌}
use mathlib.Core.List.{List, [], ◌∷◌, map}
use native.Mathlib.Omega.{arith}
use iaas.Prelude.Tests.{leb, ltb, ◌==◌, if◌then◌else◌, Bool-cases}
use iaas.Prelude.Lists.{any, take}

abbrev pub Text : Type 0
Text = List ℕ

-- A literal of the source.
abbrev pub codes : String → Text
codes String.[] = []
codes (String.◌∷◌ c s) = code c ∷ codes s

unfoldable pub text_eq : Text → Text → Bool
text_eq [] [] = true
text_eq [] (d ∷ t) = false
text_eq (c ∷ s) [] = false
text_eq (c ∷ s) (d ∷ t) = (c == d) && text_eq s t

pub text_eq_iff : (s t : Text) → (text_eq s t ≡ true) ↔ (s ≡ t)
unfolding text_eq
text_eq_iff [] [] = ground arith
text_eq_iff [] (d ∷ t) = ground arith
text_eq_iff (c ∷ s) [] = ground arith
text_eq_iff (c ∷ s) (d ∷ t) = ground (arith, text_eq_iff s t)

pub text_eq_refl : (s : Text) → text_eq s s ≡ true
text_eq_refl s = (text_eq_iff s s).1 refl

-- `text in {...}`
unfoldable pub is_in : Text → List Text → Bool
unfolding text_eq
is_in s set = any (text_eq s) set

-- `str.lower()`. Besides A to Z, the Kelvin sign is the one character that lowers to an ASCII
-- letter alone; no other character's lower case can equal the ASCII words that are compared.
abbrev pub lower_code : ℕ → ℕ
lower_code c = if leb b'A' c && leb c b'Z' then c + 32 else if c == 0x212a then b'k' else c

unfoldable pub lower : Text → Text
lower = map lower_code

-- `text.startswith(prefix)`
unfoldable pub starts_with : Text → Text → Bool
starts_with [] s = true
starts_with (c ∷ p) [] = false
starts_with (c ∷ p) (d ∷ s) = (c == d) && starts_with p s

-- `part in text`
unfoldable pub contains : Text → Text → Bool
unfolding starts_with
contains part [] = starts_with part []
contains part (c ∷ s) = starts_with part (c ∷ s) || contains part s

-- Python's order of texts, and `sorted(set(...))`.
unfoldable pub text_before : Text → Text → Bool
text_before [] [] = false
text_before [] (d ∷ t) = true
text_before (c ∷ s) [] = false
text_before (c ∷ s) (d ∷ t) = ltb c d || (c == d && text_before s t)

insert_text : Text → List Text → List Text
unfolding text_before text_eq
insert_text t [] = t ∷ []
insert_text t (u ∷ us) =
    let rest = insert_text t us in
    if text_before t u then t ∷ u ∷ us else if text_eq t u then u ∷ us else u ∷ rest

unfoldable pub sorted_set : List Text → List Text
unfolding insert_text
sorted_set [] = []
sorted_set (t ∷ ts) = insert_text t (sorted_set ts)

starts_with-take :
    (p : Text) (n : ℕ) (s : Text) → starts_with p (take n s) ≡ true → starts_with p s ≡ true
unfolding starts_with
starts_with-take [] n s h = refl
starts_with-take (c ∷ p) zero s h = cc
starts_with-take (c ∷ p) (suc n) [] h = cc
starts_with-take (c ∷ p) (suc n) (d ∷ s) h = ground (arith, starts_with-take p n s)

-- What a text does not contain, no prefix of it contains.
pub contains-take :
    (p : Text) (n : ℕ) (s : Text) → contains p s ≡ false → contains p (take n s) ≡ false
unfolding contains
contains-take p zero [] h = h
contains-take p (suc n) [] h = h
contains-take p zero (c ∷ s) h = none_in_empty p (c ∷ s) h
  where
    none_in_empty : (p s : Text) → contains p s ≡ false → contains p [] ≡ false
    none_in_empty [] [] h = cc
    none_in_empty [] (d ∷ s) h = cc
    none_in_empty (c ∷ p) s h = refl
contains-take p (suc n) (c ∷ s) h = elim (Bool-cases (starts_with p (take (suc n) (c ∷ s)))) [
  | inl y ↦ absurd (ground (arith, starts_with-take p (suc n) (c ∷ s) y))
  | inr e ↦ rw e (contains-take p n s (ground arith))
]
