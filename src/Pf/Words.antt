-- ===== src/Pf/Words.antt =====
-- The operations of Python's `str` that src/iaas/opnsense_workflow/pf_rules.py parses a rule with.
use iaas.Prelude.{ℕ, Bool, false, ◌&&◌, List, [], ◌∷◌, ◌++◌, Text, ◌==◌, if◌then◌else◌, drop}
use iaas.Prelude.Unicode.{is_space}
use iaas.Pf.Ports.{skip_spaces, is_nil}

-- `str.strip()`
rstrip : Text → Text
unfolding is_space
rstrip [] = []
rstrip (c ∷ s) = let rest = rstrip s in if is_space c && is_nil rest then [] else c ∷ rest

unfoldable pub strip : Text → Text
unfolding rstrip skip_spaces
strip s = rstrip (skip_spaces s)

-- `str.split()`: `word` is the one that is being read.
abbrev add_word : Text → List Text → List Text
add_word [] words = words
add_word (c ∷ s) words = (c ∷ s) ∷ words

split_from : Text → Text → List Text
unfolding is_space
split_from word [] = add_word word []
split_from word (c ∷ s) =
    let words = split_from (if is_space c then [] else word ++ c ∷ []) s in
    if is_space c then add_word word words else words

unfoldable pub split : Text → List Text
unfolding split_from
split s = split_from [] s

-- `str.partition` at one character: what stands before it and what behind it.
unfoldable pub partition : ℕ → Text → Text × Text
partition at [] = ([], [])
partition at (c ∷ s) =
    let (left, right) = partition at s in if c == at then ([], s) else (c ∷ left, right)

-- `text.endswith` and `text[:-1]`, for one character.
unfoldable pub ends_in : ℕ → Text → Bool
ends_in c [] = false
ends_in c (d ∷ []) = d == c
ends_in c (d ∷ e ∷ s) = ends_in c (e ∷ s)

unfoldable pub drop_last : Text → Text
drop_last [] = []
drop_last (c ∷ []) = []
drop_last (c ∷ d ∷ s) = c ∷ drop_last (d ∷ s)

-- `value[1:-1]`
unfoldable pub inner : Text → Text
unfolding drop_last
inner s = drop_last (drop 1 s)
