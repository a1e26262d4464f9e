-- ===== src/Observe/Safety.antt =====
-- `safe_facts` of observation.py lets through nothing but bounded facts under allowed keys.
use iaas.Prelude.{
  ℕ, zero, suc, ◌+◌, ◌≤◌, ◌≡◌, refl, Bool, true, false, [], ◌∷◌, Text, codes, text_eq, length, take,
  contains, contains-take, arith, ◌||◌, lt→ltb, if◌then◌else◌, text_eq_iff, subst, sym, Bool-cases,
  inl, inr, ltb, not, ◌&&◌,
}
use iaas.Prelude.Int.{ℤ}
use iaas.Value.{
  Value, Values, Fields, null, bool, int, float_integer, float_other, str, list, dict, object, nil,
  cons, end, field, is_text,
}
use iaas.Observe.Facts.{
  clean, clean_items, clean_fields, clean_text, safe_facts, is_fact_key, is_exit_fact,
}

-- A text of at most 512 characters with no URL scheme separator and no line break.
abbrev pub IsSafeText : Text → Type 0
IsSafeText s =
    (length s ≤ 512) × (contains (codes "://") s ≡ false) × (contains (10 ∷ []) s ≡ false)

abbrev pub length_items : Values → ℕ
length_items nil = 0
length_items (cons v vs) = suc (length_items vs)

-- Null, `OK`, `ERROR`, `unexpected status` or `non_ok`.
abbrev pub is_exit_word : Value → Bool
is_exit_word v = is_exit_fact v || is_text (codes "non_ok") v

-- Safe values with at most `levels` dicts or lists inside one another.
mutual
  pub data IsSafe : ℕ → Value → Type 0 where
    safe_null : {n : ℕ} → IsSafe n null
    safe_bool : {n : ℕ} {b : Bool} → IsSafe n (bool b)
    safe_int : {n : ℕ} {z : ℤ} → IsSafe n (int z)
    safe_str : {n : ℕ} {s : Text} → IsSafeText s → IsSafe n (str s)
    safe_list :
        {n : ℕ} {vs : Values} → length_items vs ≤ 64 → AreSafe n vs → IsSafe (suc n) (list vs)
    safe_dict : {n : ℕ} {fs : Fields} → AreSafeFields n fs → IsSafe (suc n) (dict fs)

  pub data AreSafe : ℕ → Values → Type 0 where
    safe_nil : {n : ℕ} → AreSafe n nil
    safe_cons :
        {n : ℕ} {v : Value} {vs : Values} → IsSafe n v → AreSafe n vs → AreSafe n (cons v vs)

  -- Under an allowed key; an exit status is null or one of the fixed words.
  pub data AreSafeFields : ℕ → Fields → Type 0 where
    safe_end : {n : ℕ} → AreSafeFields n end
    safe_field :
        {n : ℕ} {k : Text} {v : Value} {fs : Fields}
        → is_fact_key k ≡ true
        → (text_eq k (codes "exitstatus") ≡ true → is_exit_word v ≡ true)
        → IsSafe n v
        → AreSafeFields n fs
        → AreSafeFields n (field k v fs)

length-take-le : (n : ℕ) (s : Text) → length (take n s) ≤ n
length-take-le zero s = omega arith
length-take-le (suc n) [] = omega arith
length-take-le (suc n) (c ∷ s) = omega (arith, length-take-le n s)

clean_text-IsSafe : (n : ℕ) (s : Text) → IsSafe n (clean_text s)
unfolding clean_text
clean_text-IsSafe n s =
    elim (Bool-cases (not (contains (codes "://") s) && not (contains (10 ∷ []) s))) [
      | inl clear ↦ rw clear (
          safe_str (
            length-take-le 512 s,
            contains-take (codes "://") 512 s (ground arith),
            contains-take (10 ∷ []) 512 s (ground arith),
          ))
      | inr other ↦ rw other (safe_str (unfold contains in (omega arith, refl, refl)))
    ]

IsKeptWord : Text → Type 0
IsKeptWord s = is_exit_word (clean_text s) ≡ true

word-IsKeptWord : (s : Text) → is_exit_fact (str s) ≡ true → IsKeptWord s
unfolding IsKeptWord clean_text contains text_eq
word-IsKeptWord s h = elim (Bool-cases (text_eq s (codes "OK"))) [
  | inl e ↦ subst IsKeptWord (sym ((text_eq_iff s (codes "OK")).0 e)) refl
  | inr not_ok ↦ elim (Bool-cases (text_eq s (codes "ERROR"))) [
    | inl e ↦ subst IsKeptWord (sym ((text_eq_iff s (codes "ERROR")).0 e)) refl
    | inr not_error ↦
        subst IsKeptWord (sym ((text_eq_iff s (codes "unexpected status")).0 (ground arith))) refl
  ]
]

-- The words are short and clear, so that `clean` keeps them.
clean-word :
    (d : ℕ) (s : Text) → is_exit_fact (str s) ≡ true → is_exit_word (clean d (str s)) ≡ true
unfolding clean IsKeptWord
clean-word d s h = elim (Bool-cases (ltb 6 d)) [
  | inl deep ↦ rw deep
  | inr e ↦ rw e (word-IsKeptWord s h)
]

clean-is_exit_word : (d : ℕ) (v : Value) → is_exit_fact v ≡ true → is_exit_word (clean d v) ≡ true
unfolding clean
clean-is_exit_word d null h = refl
clean-is_exit_word d (str s) h = clean-word d s h
clean-is_exit_word d (bool b) h = cc
clean-is_exit_word d (int z) h = cc
clean-is_exit_word d (float_integer z) h = cc
clean-is_exit_word d float_other h = cc
clean-is_exit_word d (list vs) h = cc
clean-is_exit_word d (dict fs) h = cc
clean-is_exit_word d object h = cc

non_ok-word : is_exit_word (str (codes "non_ok")) ≡ true
unfolding text_eq
non_ok-word = refl

non_ok-IsSafe : (n : ℕ) → IsSafe n (str (codes "non_ok"))
unfolding contains
non_ok-IsSafe n = safe_str (omega arith, refl, refl)

field-AreSafeFields :
    (d n : ℕ) (k : Text) (v : Value) (rest : Fields)
    → IsSafe n (clean (suc d) v)
    → AreSafeFields n rest
    → AreSafeFields n (
        if is_fact_key k
        then field k
            (if text_eq k (codes "exitstatus") && not (is_exit_fact v)
              then str (codes "non_ok")
              else clean (suc d) v)
            rest
        else rest)
field-AreSafeFields d n k v rest hv hr = elim (Bool-cases (is_fact_key k)) [
  | inr other ↦ rw other hr
  | inl fact ↦ elim (Bool-cases (text_eq k (codes "exitstatus") && not (is_exit_fact v))) [
    | inl masked ↦ rw (fact, masked) (safe_field fact (λ _. non_ok-word) (non_ok-IsSafe n) hr)
    | inr kept ↦
        rw (fact, kept) (safe_field fact (λ e. clean-is_exit_word (suc d) v (ground arith)) hv hr)
  ]
]

mutual
  unfolding clean clean_items clean_fields

  clean-IsSafe : (d n : ℕ) (v : Value) → d + n ≡ 7 → IsSafe n (clean d v)
  clean-IsSafe d n null e = safe_null
  clean-IsSafe d n (bool b) e = elim (Bool-cases (ltb 6 d)) [
    | inl h ↦ rw h safe_null
    | inr h ↦ rw h safe_bool
  ]
  clean-IsSafe d n (int z) e = elim (Bool-cases (ltb 6 d)) [
    | inl h ↦ rw h safe_null
    | inr h ↦ rw h safe_int
  ]
  clean-IsSafe d n (float_integer z) e = elim (Bool-cases (ltb 6 d)) [
    | inl h ↦ rw h safe_null
    | inr h ↦ rw h safe_int
  ]
  clean-IsSafe d n float_other e = safe_null
  clean-IsSafe d n (str s) e = elim (Bool-cases (ltb 6 d)) [
    | inl h ↦ rw h safe_null
    | inr h ↦ rw h (clean_text-IsSafe n s)
  ]
  clean-IsSafe d zero (list vs) e = rw (lt→ltb 6 d (omega arith)) safe_null
  clean-IsSafe d (suc n) (list vs) e = elim (Bool-cases (ltb 6 d)) [
    | inl h ↦ rw h safe_null
    | inr h ↦
        rw h
          (let (short, safe) = clean_items-AreSafe d n vs (omega arith) 64 in safe_list short safe)
  ]
  clean-IsSafe d zero (dict fs) e = rw (lt→ltb 6 d (omega arith)) safe_null
  clean-IsSafe d (suc n) (dict fs) e = elim (Bool-cases (ltb 6 d)) [
    | inl h ↦ rw h safe_null
    | inr h ↦ rw h (safe_dict (clean_fields-AreSafe d n fs (omega arith)))
  ]
  clean-IsSafe d n object e = safe_null

  clean_items-AreSafe :
      (d n : ℕ) (vs : Values)
      → suc d + n ≡ 7
      → (left : ℕ)
      → (length_items (clean_items d left vs) ≤ left) × AreSafe n (clean_items d left vs)
  clean_items-AreSafe d n nil e left = (omega arith, safe_nil)
  clean_items-AreSafe d n (cons v vs) e zero = (omega arith, safe_nil)
  clean_items-AreSafe d n (cons v vs) e (suc left) =
      let (short, safe) = clean_items-AreSafe d n vs e left in
      (omega arith, safe_cons (clean-IsSafe (suc d) n v e) safe)

  clean_fields-AreSafe :
      (d n : ℕ) (fs : Fields) → suc d + n ≡ 7 → AreSafeFields n (clean_fields d fs)
  clean_fields-AreSafe d n end e = safe_end
  clean_fields-AreSafe d n (field k v fs) e =
      field-AreSafeFields d n k v (clean_fields d fs) (clean-IsSafe (suc d) n v e)
        (clean_fields-AreSafe d n fs e)

-- Whatever evidence it is given, `safe_facts` returns allowed keys only, with texts of at most 512
-- characters that hold no `://` and no line break, lists of at most 64 items, at most 7 levels,
-- and exit statuses among the fixed words.
pub safe_facts-AreSafeFields : (facts : Fields) → AreSafeFields 6 (safe_facts facts)
unfolding safe_facts
safe_facts-AreSafeFields facts = clean_fields-AreSafe 0 6 facts (omega arith)
