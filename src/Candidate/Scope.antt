-- ===== src/Candidate/Scope.antt =====
-- The loop of `relevant` in src/iaas/opnsense_workflow/planning.py: it ends, and what it reaches is
-- the least set that holds every object that is touched.
pub mod Ends
pub mod Least
use iaas.Prelude.{
  ℕ, zero, suc, ◌+◌, ◌≤◌, ◌<◌, ◌≡◌, refl, sym, ◌∙◌, ap, subst, inl, inr, Bool, true, false, not,
  ◌&&◌, ◌||◌, Option, none, some, List, [], ◌∷◌, Text, is_in, text_eq, text_eq_refl, any, length,
  ◌==◌, All, arith, Bool-cases, Option-cases, if◌then◌else◌,
}
use iaas.Staging.{Marker, same_marker, is_marked}
use iaas.Dependency.Check.Topology.{same_marker_refl}
use iaas.Candidate.{
  Link, Reached, any_in, add_marker, add_texts, is_labelled, is_touched, reach, pass, same_size,
  spread,
}

-- Everything that is in one is in the other.
pub record Within (s t : Reached) : Type 0 where
  pub markers : (m : Marker) → is_marked m s.wanted ≡ true → is_marked m t.wanted ≡ true
  pub texts : (r : Text) → is_in r s.needed ≡ true → is_in r t.needed ≡ true

Within_refl : (s : Reached) → Within s s
Within_refl s = record { markers = λ m h. h; texts = λ r h. h }

Within_trans : (s t u : Reached) → Within s t → Within t u → Within s u
Within_trans s t u h k = record {
  markers = λ m e. k.markers m (h.markers m e);
  texts = λ r e. k.texts r (h.texts r e);
}

abbrev pub AreNeeded : Reached → List Text → Type 0
AreNeeded s refs = All (λ r. is_in r s.needed ≡ true) refs

-- A touched object is wanted, and what it refers to is needed.
abbrev pub IsFollowed : List Text → Reached → Link → Type 0
IsFollowed labels s link =
    is_touched labels s link ≡ true
    → (is_marked link.marker s.wanted ≡ true) × AreNeeded s link.refs

abbrev pub IsClosed : List Text → Reached → List Link → Type 0
IsClosed labels s links = All (IsFollowed labels s) links

add_texts-old :
    (ts set : List Text) (r : Text) → is_in r set ≡ true → is_in r (add_texts ts set) ≡ true
unfolding add_texts is_in
add_texts-old [] set r h = h
add_texts-old (t ∷ ts) set r h = elim (Bool-cases (is_in t set)) [
  | inl e ↦ rw e (add_texts-old ts set r h)
  | inr e ↦ rw e (add_texts-old ts (t ∷ set) r (ground (arith, h)))
]

is_in_head : (t : Text) (set : List Text) → is_in t (t ∷ set) ≡ true
unfolding is_in
is_in_head t set = rw (text_eq_refl t) refl

is_in_added : (t : Text) (set : List Text) → is_in t (if is_in t set then set else t ∷ set) ≡ true
is_in_added t set = elim (Bool-cases (is_in t set)) [
  | inl e ↦ rw e e
  | inr e ↦ rw e (is_in_head t set)
]

add_texts-new : (ts set : List Text) → All (λ r. is_in r (add_texts ts set) ≡ true) ts
unfolding add_texts
add_texts-new [] set = tt
add_texts-new (t ∷ ts) set =
    let more = if is_in t set then set else t ∷ set in
    (add_texts-old ts more t (is_in_added t set), add_texts-new ts more)

add_texts-known : (ts set : List Text) → All (λ r. is_in r set ≡ true) ts → add_texts ts set ≡ set
unfolding add_texts
add_texts-known [] set h = refl
add_texts-known (t ∷ ts) set (h, hs) = rw h (add_texts-known ts set hs)

add_texts-length : (ts set : List Text) → length set ≤ length (add_texts ts set)
unfolding add_texts
add_texts-length [] set = omega arith
add_texts-length (t ∷ ts) set = elim (Bool-cases (is_in t set)) [
  | inl e ↦ rw e (add_texts-length ts set)
  | inr e ↦ rw e (omega (arith, add_texts-length ts (t ∷ set)))
]

-- Texts that add nothing were there.
add_texts-same :
    (ts set : List Text) → length (add_texts ts set) ≡ length set → All (λ r. is_in r set ≡ true) ts
unfolding add_texts
add_texts-same [] set h = tt
add_texts-same (t ∷ ts) set h = elim (Bool-cases (is_in t set)) [
  | inl e ↦ (e, add_texts-same ts set (rw e at h))
  | inr e ↦
      let longer : length (add_texts ts (t ∷ set)) ≡ length set = rw e at h in
      absurd (omega (arith, add_texts-length ts (t ∷ set), longer))
]

add_marker-length : (m : Marker) (ms : List Marker) → length ms ≤ length (add_marker m ms)
unfolding add_marker
add_marker-length m ms = elim (Bool-cases (is_marked m ms)) [
  | inl e ↦ rw e (omega arith)
  | inr e ↦ rw e (omega arith)
]

add_marker-same :
    (m : Marker) (ms : List Marker) → length (add_marker m ms) ≡ length ms → is_marked m ms ≡ true
unfolding add_marker
add_marker-same m ms h = elim (Bool-cases (is_marked m ms)) [
  | inl e ↦ e
  | inr e ↦ let longer : suc (length ms) ≡ length ms = rw e at h in absurd (omega (arith, longer))
]

add_marker-known : (m : Marker) (ms : List Marker) → is_marked m ms ≡ true → add_marker m ms ≡ ms
unfolding add_marker
add_marker-known m ms h = rw h refl

add_marker-new : (m : Marker) (ms : List Marker) → is_marked m (add_marker m ms) ≡ true
unfolding add_marker is_marked
add_marker-new m ms = elim (Bool-cases (is_marked m ms)) [
  | inl e ↦ rw e e
  | inr e ↦ rw e (rw (same_marker_refl m) refl)
]

add_marker-old :
    (m d : Marker) (ms : List Marker) → is_marked d ms ≡ true → is_marked d (add_marker m ms) ≡ true
unfolding add_marker is_marked
add_marker-old m d ms h = elim (Bool-cases (is_marked m ms)) [
  | inl e ↦ rw e h
  | inr e ↦ rw e (ground (arith, h))
]

reach-Within : (labels : List Text) (s : Reached) (link : Link) → Within s (reach labels s link)
unfolding reach
reach-Within labels s link = elim (Bool-cases (is_touched labels s link)) [
  | inl e ↦ rw e (record {
    markers = λ m h. add_marker-old link.marker m s.wanted h;
    texts = λ r h. add_texts-old link.refs s.needed r h;
  })
  | inr e ↦ rw e (Within_refl s)
]

pass-Within :
    (labels : List Text) (s : Reached) (links : List Link) → Within s (pass labels s links)
unfolding pass
pass-Within labels s [] = Within_refl s
pass-Within labels s (link ∷ links) =
    Within_trans s (reach labels s link) (pass labels (reach labels s link) links)
      (reach-Within labels s link) (pass-Within labels (reach labels s link) links)

-- Steps make the two sets no smaller.
record NoLess (s t : Reached) : Type 0 where
  wanted : length s.wanted ≤ length t.wanted
  needed : length s.needed ≤ length t.needed

reach-NoLess : (labels : List Text) (s : Reached) (link : Link) → NoLess s (reach labels s link)
unfolding reach
reach-NoLess labels s link = elim (Bool-cases (is_touched labels s link)) [
  | inl e ↦ rw e (record {
    wanted = add_marker-length link.marker s.wanted;
    needed = add_texts-length link.refs s.needed;
  })
  | inr e ↦ rw e (record { wanted = omega arith; needed = omega arith })
]

pass-NoLess :
    (labels : List Text) (s : Reached) (links : List Link) → NoLess s (pass labels s links)
unfolding pass
pass-NoLess labels s [] = record { wanted = omega arith; needed = omega arith }
pass-NoLess labels s (link ∷ links) =
    let first = reach-NoLess labels s link in
    let later = pass-NoLess labels (reach labels s link) links in
    record {
      wanted = omega (arith, first.wanted, later.wanted);
      needed = omega (arith, first.needed, later.needed);
    }

abbrev SameSize : Reached → Reached → Type 0
SameSize t s = (length t.wanted ≡ length s.wanted) × (length t.needed ≡ length s.needed)

-- A step that adds nothing changes nothing, and its object is followed.
reach-same :
    (labels : List Text) (s : Reached) (link : Link)
    → SameSize (reach labels s link) s
    → (reach labels s link ≡ s) × IsFollowed labels s link
unfolding reach
reach-same labels s link h = elim (Bool-cases (is_touched labels s link)) [
  | inl e ↦
      let (markers, texts) = rw (e, reach) at h in
      let marker = add_marker-same link.marker s.wanted markers in
      let refs = add_texts-same link.refs s.needed texts in
      (
        rw
            (
              e,
              add_marker-known link.marker s.wanted marker,
              add_texts-known link.refs s.needed refs,
            )
            refl,
        (λ k. (marker, refs)),
      )
  | inr e ↦ (rw e refl, (λ k. absurd (cc (e, k))))
]

pass-same :
    (labels : List Text) (s : Reached) (links : List Link)
    → SameSize (pass labels s links) s
    → (pass labels s links ≡ s) × IsClosed labels s links
unfolding pass
pass-same labels s [] h = (refl, tt)
pass-same labels s (link ∷ links) h =
    let first = reach-NoLess labels s link in
    let later = pass-NoLess labels (reach labels s link) links in
    let same : SameSize (reach labels s link) s = (
      omega (arith, first.wanted, later.wanted, h.0),
      omega (arith, first.needed, later.needed, h.1),
    ) in
    let (stays, followed) = reach-same labels s link same in
    let rest : SameSize (pass labels s links) s = rw (stays, pass) at h in
    let (all_stay, closed) = pass-same labels s links rest in
    (rw stays all_stay, (followed, closed))
