-- ===== src/Candidate/Scope/Ends.antt =====
-- The loop of `relevant` in src/iaas/opnsense_workflow/planning.py ends.
use iaas.Prelude.{
  ℕ, zero, suc, ◌+◌, ◌≤◌, ◌<◌, ◌≡◌, refl, sym, ◌∙◌, ap, subst, ◌⊎◌, inl, inr, Bool, true, false,
  ◌&&◌, some, List, [], ◌∷◌, Text, is_in, all, length, ==_iff, arith, Bool-cases, if◌then◌else◌,
}
use iaas.Staging.{is_marked}
use iaas.Candidate.{
  Link, Reached, add_marker, add_texts, is_touched, reach, pass, same_size, spread,
}
use iaas.Candidate.Scope.{
  Within, AreNeeded, SameSize, reach-Within, pass-Within, add_marker-known, add_texts-known,
  add_marker-new, add_texts-new,
}

-- The object adds nothing any more.
is_settled : Reached → Link → Bool
is_settled s link = is_marked link.marker s.wanted && all (λ r. is_in r s.needed) link.refs

pub unsettled : Reached → List Link → ℕ
unsettled s [] = 0
unsettled s (link ∷ links) = (if is_settled s link then 0 else 1) + unsettled s links

all-All :
    (refs : List Text) (s : Reached) → all (λ r. is_in r s.needed) refs ≡ true → AreNeeded s refs
all-All [] s h = tt
all-All (r ∷ refs) s h = (ground (arith, h), all-All refs s (ground (arith, h)))

All-all :
    (refs : List Text) (s : Reached) → AreNeeded s refs → all (λ r. is_in r s.needed) refs ≡ true
All-all [] s h = refl
All-all (r ∷ refs) s (h, hs) = ground (arith, h, All-all refs s hs)

AreNeeded-Within :
    (s t : Reached) (refs : List Text) → Within s t → AreNeeded s refs → AreNeeded t refs
AreNeeded-Within s t [] w h = tt
AreNeeded-Within s t (r ∷ refs) w (h, hs) = (w.texts r h, AreNeeded-Within s t refs w hs)

is_settled-Within :
    (s t : Reached) (link : Link) → Within s t → is_settled s link ≡ true → is_settled t link ≡ true
unfolding is_settled
is_settled-Within s t link w h =
    let marked : is_marked link.marker s.wanted ≡ true = ground (arith, h) in
    let needed : all (λ r. is_in r s.needed) link.refs ≡ true = ground (arith, h) in
    let later =
      All-all link.refs t (AreNeeded-Within s t link.refs w (all-All link.refs s needed)) in
    ground (arith, w.markers link.marker marked, later)

unsettled-Within :
    (s t : Reached) (links : List Link) → Within s t → unsettled t links ≤ unsettled s links
unfolding unsettled
unsettled-Within s t [] w = omega arith
unsettled-Within s t (link ∷ links) w = elim (Bool-cases (is_settled s link)) [
  | inl e ↦ rw (e, is_settled-Within s t link w e) (omega (arith, unsettled-Within s t links w))
  | inr e ↦ elim (Bool-cases (is_settled t link)) [
    | inl k ↦ rw (e, k) (omega (arith, unsettled-Within s t links w))
    | inr k ↦ rw (e, k) (omega (arith, unsettled-Within s t links w))
  ]
]

-- A step on a settled object changes nothing.
settled-reach :
    (labels : List Text) (s : Reached) (link : Link)
    → is_settled s link ≡ true
    → reach labels s link ≡ s
unfolding is_settled reach
settled-reach labels s link h =
    let marked : is_marked link.marker s.wanted ≡ true = ground (arith, h) in
    let needed : all (λ r. is_in r s.needed) link.refs ≡ true = ground (arith, h) in
    elim (Bool-cases (is_touched labels s link)) [
      | inl e ↦
          rw
            (
              e,
              add_marker-known link.marker s.wanted marked,
              add_texts-known link.refs s.needed (all-All link.refs s needed),
            )
            refl
      | inr e ↦ rw e refl
    ]

-- A step changes nothing or settles its object.
reach-settles :
    (labels : List Text) (s : Reached) (link : Link)
    → (reach labels s link ≡ s) ⊎ (is_settled (reach labels s link) link ≡ true)
unfolding reach is_settled
reach-settles labels s link = elim (Bool-cases (is_touched labels s link)) [
  | inl e ↦
      let after : Reached = record {
        wanted = add_marker link.marker s.wanted;
        needed = add_texts link.refs s.needed;
      } in
      let needed = All-all link.refs after (add_texts-new link.refs s.needed) in
      inr (rw (e, add_marker-new link.marker s.wanted, needed) refl)
  | inr e ↦ inl (rw e refl)
]

settles :
    (p s : Reached) (link : Link) (links : List Link)
    → is_settled s link ≡ false
    → is_settled p link ≡ true
    → unsettled p links ≤ unsettled s links
    → unsettled p (link ∷ links) < unsettled s (link ∷ links)
unfolding unsettled
settles p s link links e k h = rw (e, k) (omega (arith, h))

less-cons :
    (p s : Reached) (link : Link) (links : List Link)
    → Within s p
    → unsettled p links < unsettled s links
    → unsettled p (link ∷ links) < unsettled s (link ∷ links)
unfolding unsettled
less-cons p s link links w h =
    one_more (is_settled p link) (is_settled s link) (is_settled-Within s p link w) h
  where
    one_more :
        (b c : Bool) {m n : ℕ}
        → (c ≡ true → b ≡ true)
        → m < n
        → (if b then 0 else 1) + m < (if c then 0 else 1) + n
    one_more b c h k = ground (arith, h, k)

-- A pass changes nothing or settles an object.
pass-settles :
    (labels : List Text) (s : Reached) (links : List Link)
    → (pass labels s links ≡ s) ⊎ (unsettled (pass labels s links) links < unsettled s links)
unfolding pass
pass-settles labels s [] = inl refl
pass-settles labels s (link ∷ links) = elim (Bool-cases (is_settled s link)) [
  | inl e ↦ unchanged (pass-settles labels s links) (settled-reach labels s link e)
  | inr e ↦ elim (reach-settles labels s link) [
    | inl stays ↦ unchanged (pass-settles labels s links) stays
    | inr k ↦
        let next = reach labels s link in
        let grows = pass-Within labels next links in
        let settled = is_settled-Within next (pass labels next links) link grows k in
        inr (
          settles (pass labels next links) s link links e settled (
            omega (
              arith,
              unsettled-Within s next links (reach-Within labels s link),
              unsettled-Within next (pass labels next links) links grows,
            )))
  ]
]
  where
    unchanged :
        (pass labels s links ≡ s) ⊎ (unsettled (pass labels s links) links < unsettled s links)
        → reach labels s link ≡ s
        → (pass labels s (link ∷ links) ≡ s)
          ⊎ (unsettled (pass labels s (link ∷ links)) (link ∷ links) < unsettled s (link ∷ links))
    unchanged later stays = elim later [
      | inl k ↦ inl (ap (λ x. pass labels x links) stays ∙ k)
      | inr k ↦ inr (
          subst (λ x. unsettled (pass labels x links) (link ∷ links) < unsettled s (link ∷ links))
            (sym stays)
            (less-cons (pass labels s links) s link links (pass-Within labels s links) k))
    ]

pub same_size-≡ : (s t : Reached) → same_size s t ≡ true → SameSize s t
unfolding same_size
same_size-≡ s t h = (
  (==_iff (length s.wanted) (length t.wanted)).0 (ground (arith, h)),
  (==_iff (length s.needed) (length t.needed)).0 (ground (arith, h)),
)

same_size_refl : (s : Reached) → same_size s s ≡ true
unfolding same_size
same_size_refl s = ground arith

-- With as much fuel as there are objects to settle, and one round more, the loop ends.
pub spread-ends :
    (labels : List Text) (fuel : ℕ) (s : Reached) (links : List Link)
    → unsettled s links < fuel
    → (t : Reached) × (spread labels fuel s links ≡ some t)
unfolding spread
spread-ends labels zero s links h = absurd (omega (arith, h))
spread-ends labels (suc fuel) s links h = elim (Bool-cases (same_size (pass labels s links) s)) [
  | inl e ↦ (pass labels s links, rw e refl)
  | inr e ↦ elim (pass-settles labels s links) [
    | inl k ↦ absurd (cc (k, same_size_refl s))
    | inr k ↦
        let (t, found) =
          spread-ends labels fuel (pass labels s links) links (omega (arith, h, k)) in
        (t, rw e found)
  ]
]

pub unsettled-length : (s : Reached) (links : List Link) → unsettled s links ≤ length links
unfolding unsettled
unsettled-length s [] = omega arith
unsettled-length s (link ∷ links) = elim (Bool-cases (is_settled s link)) [
  | inl e ↦ rw e (omega (arith, unsettled-length s links))
  | inr e ↦ rw e (omega (arith, unsettled-length s links))
]
