-- ===== src/Prelude/Unicode.antt =====
-- The character classes of Python's `re` and `str` that the sources use.
use Prim.Native.Nat.{ℕ, ◌<◌, ◌+◌, ◌-◌}
use mathlib.Core.Path.{◌≡◌}
use native.Mathlib.Omega.{arith}
use mathlib.Core.Bool.{Bool, true, false, ◌&&◌, ◌||◌}
use mathlib.Core.Option.{Option, none, some}
use mathlib.Core.List.{List, [], ◌∷◌}
use iaas.Prelude.Tests.{leb, ltb, ◌==◌, if◌then◌else◌}
use iaas.Prelude.Lists.{any}

-- The code points of the digits zero of Unicode's decimal digits (`\d`), ten of each from there,
-- behind the ASCII zero. Blocks that later versions of Unicode added are left out.
abbrev pub wide_zeros : List ℕ
wide_zeros =
    0x660 ∷ 0x6f0 ∷ 0x7c0 ∷ 0x966 ∷ 0x9e6 ∷ 0xa66 ∷ 0xae6 ∷ 0xb66 ∷ 0xbe6 ∷ 0xc66 ∷ 0xce6 ∷ 0xd66
    ∷ 0xde6 ∷ 0xe50 ∷ 0xed0 ∷ 0xf20 ∷ 0x1040 ∷ 0x1090 ∷ 0x17e0 ∷ 0x1810 ∷ 0x1946 ∷ 0x19d0 ∷ 0x1a80
    ∷ 0x1a90 ∷ 0x1b50 ∷ 0x1bb0 ∷ 0x1c40 ∷ 0x1c50 ∷ 0xa620 ∷ 0xa8d0 ∷ 0xa900 ∷ 0xa9d0 ∷ 0xa9f0
    ∷ 0xaa50 ∷ 0xabf0 ∷ 0xff10 ∷ 0x104a0 ∷ 0x10d30 ∷ 0x11066 ∷ 0x110f0 ∷ 0x11136 ∷ 0x111d0 ∷ 0x112f0
    ∷ 0x11450 ∷ 0x114d0 ∷ 0x11650 ∷ 0x116c0 ∷ 0x11730 ∷ 0x118e0 ∷ 0x11950 ∷ 0x11c50 ∷ 0x11d50
    ∷ 0x11da0 ∷ 0x16a60 ∷ 0x16ac0 ∷ 0x16b50 ∷ 0x1d7ce ∷ 0x1d7d8 ∷ 0x1d7e2 ∷ 0x1d7ec ∷ 0x1d7f6
    ∷ 0x1e140 ∷ 0x1e2f0 ∷ 0x1e950 ∷ 0x1fbf0 ∷ []

-- The value of a decimal digit, `none` for another character.
digit_from : List ℕ → ℕ → Option ℕ
digit_from [] c = none
digit_from (z ∷ zs) c = if leb z c && ltb c (z + 10) then some (c - z) else digit_from zs c

unfoldable pub digit : ℕ → Option ℕ
unfolding digit_from
digit c = digit_from (48 ∷ wide_zeros) c

digit_from-head : (z : ℕ) (zs : List ℕ) (d : ℕ) → d < 10 → digit_from (z ∷ zs) (z + d) ≡ some d
unfolding digit_from
digit_from-head z zs d h = ground arith

-- The ASCII digits.
pub digit_ascii : (d : ℕ) → d < 10 → digit (48 + d) ≡ some d
unfolding digit
digit_ascii d h = digit_from-head 48 wide_zeros d h

unfoldable pub is_digit : ℕ → Bool
unfolding digit
is_digit c = elim (digit c) [ none ↦ false | some d ↦ true ]

-- `str.isspace` and `\s`.
unfoldable pub is_space : ℕ → Bool
is_space c =
    leb 9 c && leb c 13
    || (leb 28 c && leb c 32
        || (leb 0x2000 c && leb c 0x200a
            || any (λ d. c == d)
                (0x85 ∷ 0xa0 ∷ 0x1680 ∷ 0x2028 ∷ 0x2029 ∷ 0x202f ∷ 0x205f ∷ 0x3000 ∷ [])))
