-- ===== src/Pf/Scan.antt =====
-- The scanners of src/iaas/opnsense_workflow/pf_rules.py over the raw text of one PF rule. `wide`
-- is `str.isalnum` on the code points behind ASCII.
use iaas.Prelude.{
  ℕ, zero, suc, ◌+◌, ◌-◌, Bool, true, false, not, ◌&&◌, ◌||◌, Option, none, some, List, [], ◌∷◌,
  ◌++◌, Text, codes, leb, ◌==◌, if◌then◌else◌, any, take, drop, length, lower, starts_with,
}
use iaas.Prelude.Int.{ℤ, pos, ◌+ℤ◌, ◌-ℤ◌}
use iaas.Prelude.Unicode.{is_space}
use iaas.Pf.Ports.{skip_spaces, read_digits}

-- `quote` and `escaped`.
pub data Quote : Type 0 where
  outside : Quote
  inside : Quote
  escaped : Quote

abbrev pub is_outside : Quote → Bool
is_outside outside = true
is_outside _ = false

abbrev pub next_quote : Quote → ℕ → Quote
next_quote escaped c = inside
next_quote inside c = if c == b'\\' then escaped else if c == b'"' then outside else inside
next_quote outside c = if c == b'"' then inside else outside

-- `pairs`
abbrev closing_of : ℕ → Option ℕ
closing_of c =
    if c == b'{'
    then some b'}'
    else if c == b'('
    then some b')'
    else if c == b'['
    then some b']'
    else none

abbrev is_closing : ℕ → Bool
is_closing c = any (λ d. c == d) (codes "})]")

abbrev pop : ℕ → List ℕ → Option (List ℕ)
pop c [] = none
pop c (d ∷ stack) = if d == c then some stack else none

abbrev on_stack : ℕ → List ℕ → Option (List ℕ)
on_stack c stack = elim (closing_of c) [
  | some d ↦ some (d ∷ stack)
  | none ↦ if is_closing c then pop c stack else some stack
]

-- The stack behind one character, `none` where the loop returns False.
abbrev next_stack : Quote → ℕ → List ℕ → Option (List ℕ)
next_stack outside c stack = if c == b'"' then some stack else on_stack c stack
next_stack _ c stack = some stack

balanced_from : Quote → Option (List ℕ) → Text → Bool
balanced_from q none s = false
balanced_from outside (some []) [] = true
balanced_from q (some stack) [] = false
balanced_from q (some stack) (c ∷ s) = balanced_from (next_quote q c) (next_stack q c stack) s

unfoldable pub balanced_rule_text : Text → Bool
unfolding balanced_from
balanced_rule_text value = balanced_from outside (some []) value

-- `char.isalnum()`
abbrev is_alnum : (ℕ → Bool) → ℕ → Bool
is_alnum wide c =
    if leb 128 c
    then wide c
    else leb b'0' c && leb c b'9' || (leb b'A' c && leb c b'Z' || leb b'a' c && leb c b'z')

abbrev is_word_code : (ℕ → Bool) → ℕ → Bool
is_word_code wide c = is_alnum wide c || (c == b'_' || c == b'-')

-- A top-level word, in lower case, and where it stands in the text.
pub record Word : Type 0 where
  pub word : Text
  pub start : ℕ
  pub stop : ℕ

pub record Scan : Type 0 where
  pub quote : Quote
  pub brace : ℤ
  pub paren : ℤ
  pub bracket : ℤ
  pub skip : ℕ  -- what is left of the word that was read
  pub found : List Word

abbrev is_zero : ℤ → Bool
is_zero (pos zero) = true
is_zero _ = false

-- The characters of the word at the head of a text.
unfoldable pub run : (ℕ → Bool) → Text → Text
run p [] = []
run p (c ∷ s) = let rest = run p s in if p c then c ∷ rest else []

abbrev is_top : Scan → Bool
is_top scan = is_zero scan.brace && (is_zero scan.paren && is_zero scan.bracket)

-- The inner loop has read the word `c ∷ tail`, that begins at `i`.
word_step : ℕ → ℕ → Text → Scan → Scan
unfolding lower
word_step i c tail scan = record scan {
  skip = length tail;
  found =
      scan.found ++ record { word = lower (c ∷ tail); start = i; stop = i + 1 + length tail } ∷ [];
}

-- One character outside a quotation.
plain_step : (ℕ → Bool) → ℕ → ℕ → Text → Scan → Scan
unfolding word_step run
plain_step wide i c s scan =
    if c == b'"'
    then record scan { quote = inside }
    else if c == b'{'
    then record scan { brace = scan.brace +ℤ pos 1 }
    else if c == b'}'
    then record scan { brace = scan.brace -ℤ pos 1 }
    else if c == b'('
    then record scan { paren = scan.paren +ℤ pos 1 }
    else if c == b')'
    then record scan { paren = scan.paren -ℤ pos 1 }
    else if c == b'['
    then record scan { bracket = scan.bracket +ℤ pos 1 }
    else if c == b']'
    then record scan { bracket = scan.bracket -ℤ pos 1 }
    else if is_top scan && is_word_code wide c
    then word_step i c (run (is_word_code wide) s) scan
    else scan

scan_step : (ℕ → Bool) → ℕ → ℕ → Text → Scan → ℕ → Quote → Scan
unfolding plain_step
scan_step wide i c s scan (suc skip) q = record scan { skip = skip }
scan_step wide i c s scan zero outside = plain_step wide i c s scan
scan_step wide i c s scan zero q = record scan { quote = next_quote q c }

scan_from : (ℕ → Bool) → ℕ → Text → Scan → Scan
unfolding scan_step
scan_from wide i [] scan = scan
scan_from wide i (c ∷ s) scan =
    scan_from wide (suc i) s (scan_step wide i c s scan scan.skip scan.quote)

abbrev scan_start : Scan
scan_start = record {
  quote = outside;
  brace = pos 0;
  paren = pos 0;
  bracket = pos 0;
  skip = 0;
  found = [];
}

unfoldable pub top_level_words : (ℕ → Bool) → Text → List Word
unfolding scan_from
top_level_words wide value =
    let scan = scan_from wide 0 value scan_start in
    if not (is_outside scan.quote) || not (is_top scan) then [] else scan.found

-- `depth`, behind one character.
abbrev next_depth : Quote → ℕ → ℕ → ℕ → ℤ → ℤ
next_depth outside opening closing c depth =
    if c == opening then depth +ℤ pos 1 else if c == closing then depth -ℤ pos 1 else depth
next_depth _ opening closing c depth = depth

matching_from : ℕ → ℕ → ℕ → Quote → ℤ → Text → Option ℕ
matching_from opening closing index q depth [] = none
matching_from opening closing index q depth (c ∷ s) =
    let left = next_depth q opening closing c depth in
    let later = matching_from opening closing (suc index) (next_quote q c) left s in
    if is_outside q && (c == closing && is_zero left) then some index else later

unfoldable pub matching_delimiter : Text → ℕ → ℕ → ℕ → Option ℕ
unfolding matching_from
matching_delimiter value start opening closing =
    matching_from opening closing start outside (pos 0) (drop start value)

-- `value[start:stop]`
unfoldable pub slice : ℕ → ℕ → Text → Text
slice start stop value = take (stop - start) (drop start value)

-- `\w`
abbrev is_word_class : (ℕ → Bool) → ℕ → Bool
is_word_class wide c = is_alnum wide c || c == b'_'

-- The text up to the next quotation mark, `none` if there is none.
to_quote : Text → Option Text
to_quote [] = none
to_quote (c ∷ s) =
    let rest = to_quote s in
    if c == b'"' then some [] else elim rest [ none ↦ none | some t ↦ some (c ∷ t) ]

abbrev full : Option Text → Option Text
full (some (c ∷ s)) = some (c ∷ s)
full _ = none

unfoldable pub quoted : Text → Option Text
unfolding to_quote
quoted [] = none
quoted (c ∷ s) = if c == b'"' then full (to_quote s) else none

unfoldable pub spaced : Text → Bool
unfolding is_space
spaced [] = false
spaced (c ∷ s) = is_space c

-- `label\s+"([^"]+)"`, at the head of the text.
label_here : Text → Option Text
unfolding starts_with skip_spaces
label_here s =
    if starts_with (codes "label") s && spaced (drop 5 s)
    then quoted (skip_spaces (drop 5 s))
    else none

-- `_LABEL_RE.search`: `before` says whether the character before is one of a word.
search_label : (ℕ → Bool) → Bool → Text → Option Text
unfolding label_here
search_label wide before [] = none
search_label wide before (c ∷ s) =
    let later = search_label wide (is_word_class wide c) s in
    elim (if before then none else label_here (c ∷ s)) [ some v ↦ some v | none ↦ later ]

-- `_UUID_RE`
abbrev is_hex : ℕ → Bool
is_hex c = leb b'0' c && leb c b'9' || (leb b'a' c && leb c b'f' || leb b'A' c && leb c b'F')

abbrev hexes : ℕ → List Bool → List Bool
hexes zero shape = shape
hexes (suc n) shape = true ∷ hexes n shape

abbrev uuid_shape : List Bool
uuid_shape = hexes 8 (false ∷ hexes 4 (false ∷ hexes 4 (false ∷ hexes 4 (false ∷ hexes 12 []))))

has_shape : List Bool → Text → Bool
has_shape [] [] = true
has_shape (hex ∷ shape) (c ∷ s) = (if hex then is_hex c else c == b'-') && has_shape shape s
has_shape _ _ = false

-- Python's `UUID` prints a text of that form back in lower case.
unfoldable pub is_native_uuid : Text → Bool
unfolding has_shape
is_native_uuid value = has_shape uuid_shape value

native_label : Option Text → Option Text
unfolding is_native_uuid lower
native_label none = none
native_label (some value) = if is_native_uuid (lower value) then some (lower value) else none

unfoldable pub rule_label : (ℕ → Bool) → Text → Option Text
unfolding native_label search_label
rule_label wide raw = native_label (search_label wide false raw)

index_of : ℕ × ℕ × Text → Option ℕ
unfolding spaced
index_of (zero, n, rest) = none
index_of (suc count, n, rest) = if spaced rest then some n else none

-- `_INDEX_RE.match`
unfoldable pub pf_index : Text → Option ℕ
unfolding index_of read_digits
pf_index [] = none
pf_index (c ∷ s) = if c == b'@' then index_of (read_digits 0 0 s) else none
