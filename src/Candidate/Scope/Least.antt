-- ===== src/Candidate/Scope/Least.antt =====
-- The loop of `relevant` in src/iaas/opnsense_workflow/planning.py, from start to end.
use iaas.Prelude.{
  ℕ, zero, suc, ◌≡◌, refl, sym, ◌∙◌, subst, inl, inr, true, ◌||◌, Option, none, some, List, [], ◌∷◌,
  Text, is_in, text_eq, text_eq_iff, length, arith, Bool-cases, if◌then◌else◌,
}
use iaas.Staging.{Marker, same_marker, is_marked}
use iaas.Dependency.Check.Topology.{same_marker-≡}
use iaas.Candidate.{
  Link, Reached, any_in, add_marker, add_texts, is_labelled, is_touched, reach, pass, same_size,
  spread,
}
use iaas.Candidate.Scope.{
  Within, Within_refl, Within_trans, AreNeeded, IsFollowed, IsClosed, pass-Within, pass-same,
}
use iaas.Candidate.Scope.Ends.{spread-ends, same_size-≡, unsettled-length}

is_labelled-Within :
    (s u : Reached) (label : Option Text)
    → Within s u
    → is_labelled label s.needed ≡ true
    → is_labelled label u.needed ≡ true
unfolding is_labelled
is_labelled-Within s u none w h = cc
is_labelled-Within s u (some l) w h = w.texts l h

is_touched-Within :
    (labels : List Text) (s u : Reached) (link : Link)
    → Within s u
    → is_touched labels s link ≡ true
    → is_touched labels u link ≡ true
unfolding is_touched
is_touched-Within labels s u link w h = elim (Bool-cases (is_marked link.marker s.wanted)) [
  | inl e ↦ rw (w.markers link.marker e) refl
  | inr e ↦ elim (Bool-cases (is_labelled link.label s.needed)) [
    | inl k ↦ ground (arith, is_labelled-Within s u link.label w k)
    | inr k ↦
        let shared : any_in link.refs labels ≡ true = rw (e, k, is_touched) at h in
        ground (arith, shared)
  ]
]

add_marker-Within :
    (m d : Marker) (ms : List Marker) (u : Reached)
    → ((x : Marker) → is_marked x ms ≡ true → is_marked x u.wanted ≡ true)
    → is_marked m u.wanted ≡ true
    → is_marked d (add_marker m ms) ≡ true
    → is_marked d u.wanted ≡ true
unfolding add_marker is_marked
add_marker-Within m d ms u w h k = elim (Bool-cases (is_marked m ms)) [
  | inl e ↦ w d (rw (e, add_marker) at k)
  | inr e ↦
      let either : same_marker d m || is_marked d ms ≡ true = rw (e, add_marker) at k in
      elim (Bool-cases (same_marker d m)) [
        | inl y ↦ subst (λ x. is_marked x u.wanted ≡ true) (sym (same_marker-≡ d m y)) h
        | inr y ↦ w d (rw y at either)
      ]
]

add_texts-Within :
    (ts set : List Text) (r : Text) (u : Reached)
    → ((x : Text) → is_in x set ≡ true → is_in x u.needed ≡ true)
    → AreNeeded u ts
    → is_in r (add_texts ts set) ≡ true
    → is_in r u.needed ≡ true
unfolding add_texts is_in
add_texts-Within [] set r u w h k = w r k
add_texts-Within (t ∷ ts) set r u w (h, hs) k =
    add_texts-Within ts (if is_in t set then set else t ∷ set) r u (λ x i. one_more t set x w h i)
      hs k
  where
    one_more :
        (t : Text) (set : List Text) (x : Text)
        → ((x : Text) → is_in x set ≡ true → is_in x u.needed ≡ true)
        → is_in t u.needed ≡ true
        → is_in x (if is_in t set then set else t ∷ set) ≡ true
        → is_in x u.needed ≡ true
    one_more t set x w h i = elim (Bool-cases (is_in t set)) [
      | inl e ↦ w x (rw e at i)
      | inr e ↦
          let either : text_eq x t || is_in x set ≡ true = rw e at i in
          elim (Bool-cases (text_eq x t)) [
            | inl y ↦ subst (λ z. is_in z u.needed ≡ true) (sym ((text_eq_iff x t).0 y)) h
            | inr y ↦ w x (rw y at either)
          ]
    ]

reach-least :
    (labels : List Text) (s u : Reached) (link : Link)
    → Within s u
    → IsFollowed labels u link
    → Within (reach labels s link) u
unfolding reach
reach-least labels s u link w f = elim (Bool-cases (is_touched labels s link)) [
  | inl e ↦
      let (marked, needed) = f (is_touched-Within labels s u link w e) in
      rw e (record {
        markers = λ m h. add_marker-Within link.marker m s.wanted u w.markers marked h;
        texts = λ r h. add_texts-Within link.refs s.needed r u w.texts needed h;
      })
  | inr e ↦ rw e w
]

pass-least :
    (labels : List Text) (s u : Reached) (links : List Link)
    → Within s u
    → IsClosed labels u links
    → Within (pass labels s links) u
unfolding pass
pass-least labels s u [] w c = w
pass-least labels s u (link ∷ links) w (f, fs) =
    pass-least labels (reach labels s link) u links (reach-least labels s u link w f) fs

-- What the loop reaches: it holds the start, is closed, and lies within all that does.
pub record IsLeast (labels : List Text) (s : Reached) (links : List Link) (t : Reached)
    : Type 0 where
  pub start : Within s t
  pub closed : IsClosed labels t links
  pub least : (u : Reached) → Within s u → IsClosed labels u links → Within t u

spread-some-IsLeast :
    (labels : List Text) (fuel : ℕ) (s : Reached) (links : List Link) (t : Reached)
    → spread labels fuel s links ≡ some t
    → IsLeast labels s links t
unfolding spread
spread-some-IsLeast labels zero s links t h = absurd (cc h)
spread-some-IsLeast labels (suc fuel) s links t h =
    let next = pass labels s links in
    elim (Bool-cases (same_size next s)) [
      | inl e ↦
          let found : some next ≡ some t = rw (e, spread) at h in
          let same : next ≡ t = cc found in
          let (stays, closed) = pass-same labels s links (same_size-≡ next s e) in
          subst (IsLeast labels s links) (sym stays ∙ same)
            (record { start = Within_refl s; closed = closed; least = λ u w c. w })
      | inr e ↦
          let rest = spread-some-IsLeast labels fuel next links t (rw (e, spread) at h) in
          record {
            start = Within_trans s next t (pass-Within labels s links) rest.start;
            closed = rest.closed;
            least = λ u w c. rest.least u (pass-least labels s u links w c) c;
          }
    ]

-- The loop over the live objects ends within one round more than there are objects, and it reaches
-- the least sets that hold the selected records and what they refer to, and with each object that is
-- wanted, has a needed label or refers to a selected label, that object and what it refers to.
pub spread-IsLeast :
    (labels : List Text) (s : Reached) (links : List Link)
    → (t : Reached) × (spread labels (suc (length links)) s links ≡ some t)
      × IsLeast labels s links t
spread-IsLeast labels s links =
    let enough = unsettled-length s links in
    let (t, found) = spread-ends labels (suc (length links)) s links (omega (arith, enough)) in
    (t, found, spread-some-IsLeast labels (suc (length links)) s links t found)
