-- ===== src/Dependency/Check/Topology.antt =====
-- The last loop of `valid_state` of src/iaas/opnsense_workflow/planning.py: it ends with nothing left
-- exactly if the dependencies have no cycle.
use iaas.Prelude.{
  ℕ, zero, suc, ◌≡◌, refl, ◌≤◌, ◌<◌, inl, inr, Bool, true, false, ◌||◌, List, [], ◌∷◌, text_eq_iff,
  any, length, All, arith, Bool-cases, if◌then◌else◌,
}
use iaas.Staging.{Marker, same_marker, is_marked}
use iaas.Dependency.Check.{Graph, keys, is_ready, blocked, peel}

-- Each dependency that is among the pending objects has a lower rank.
abbrev pub IsBelow : List Marker → (Marker → ℕ) → Marker × List Marker → Type 0
IsBelow pending rank (m, deps) = All (λ d. is_marked d pending ≡ true → rank d < rank m) deps

abbrev pub IsRanked : Graph → (Marker → ℕ) → Type 0
IsRanked graph rank = All (IsBelow (keys graph) rank) graph

pub All-map :
    {A : Type 0} (P Q : A → Type 0) → ((a : A) → P a → Q a) → (xs : List A) → All P xs → All Q xs
All-map P Q f [] h = tt
All-map P Q f (x ∷ xs) (p, ps) = (f x p, All-map P Q f xs ps)

pub same_marker-≡ : (m n : Marker) → same_marker m n ≡ true → m ≡ n
unfolding same_marker
same_marker-≡ [] [] h = refl
same_marker-≡ [] (t ∷ n) h = cc
same_marker-≡ (s ∷ m) [] h = cc
same_marker-≡ (s ∷ m) (t ∷ n) h =
    let first : s ≡ t = (text_eq_iff s t).0 (ground arith) in
    let rest : m ≡ n = same_marker-≡ m n (ground arith) in cc

-- What is left is among what was pending.
pub blocked-keys :
    (pending : List Marker) (graph : Graph) (d : Marker)
    → is_marked d (keys (blocked pending graph)) ≡ true
    → is_marked d (keys graph) ≡ true
unfolding blocked is_marked
blocked-keys pending [] d h = h
blocked-keys pending ((m, deps) ∷ graph) d h = elim (Bool-cases (is_ready pending (m, deps))) [
  | inl e ↦
      let later : is_marked d (keys graph) ≡ true = blocked-keys pending graph d (rw e at h) in
      ground arith
  | inr e ↦
      let both : same_marker d m || is_marked d (keys (blocked pending graph)) ≡ true = rw e at h in
      elim (Bool-cases (same_marker d m)) [
        | inl s ↦ rw s
        | inr s ↦ rw s (blocked-keys pending graph d (rw s at both))
      ]
]

pub blocked-All :
    (P : Marker × List Marker → Type 0) (pending : List Marker) (graph : Graph)
    → All P graph
    → All P (blocked pending graph)
unfolding blocked
blocked-All P pending [] h = tt
blocked-All P pending (e ∷ es) (p, ps) = elim (Bool-cases (is_ready pending e)) [
  | inl r ↦ rw r (blocked-All P pending es ps)
  | inr r ↦ rw r (p, blocked-All P pending es ps)
]

blocked-length :
    (pending : List Marker) (graph : Graph) → length (blocked pending graph) ≤ length graph
unfolding blocked
blocked-length pending [] = omega arith
blocked-length pending (e ∷ es) = elim (Bool-cases (is_ready pending e)) [
  | inl r ↦ rw r (omega (arith, blocked-length pending es))
  | inr r ↦ rw r (omega (arith, blocked-length pending es))
]

-- A round deletes an object if one is ready.
pub blocked-shorter :
    (pending : List Marker) (graph : Graph)
    → any (is_ready pending) graph ≡ true
    → length (blocked pending graph) < length graph
unfolding blocked
blocked-shorter pending [] h = cc
blocked-shorter pending (e ∷ es) h = elim (Bool-cases (is_ready pending e)) [
  | inl r ↦ rw r (omega (arith, blocked-length pending es))
  | inr r ↦ rw r (omega (arith, blocked-shorter pending es (rw r at h)))
]

-- A ready object has no pending dependency.
free-IsBelow :
    (pending : List Marker) (rank : Marker → ℕ) (m : Marker) (deps : List Marker)
    → any (λ d. is_marked d pending) deps ≡ false
    → IsBelow pending rank (m, deps)
free-IsBelow pending rank m [] h = tt
free-IsBelow pending rank m (d ∷ deps) h = elim (Bool-cases (is_marked d pending)) [
  | inl e ↦ absurd (cc (rw e at h))
  | inr e ↦ ((λ k. absurd (cc (e, k))), free-IsBelow pending rank m deps (rw e at h))
]

-- The round in which an object is deleted, where `rank` is that of the later rounds.
next_rank : List Marker → (Marker → ℕ) → Marker → ℕ
unfolding is_marked
next_rank left rank m = if is_marked m left then suc (rank m) else 0

raised :
    (pending : List Marker) (graph : Graph) (rank : Marker → ℕ) (m : Marker) (deps : List Marker)
    → is_marked m (keys (blocked pending graph)) ≡ true
    → IsBelow (keys (blocked pending graph)) rank (m, deps)
    → IsBelow pending (next_rank (keys (blocked pending graph)) rank) (m, deps)
unfolding next_rank
raised pending graph rank m [] h k = tt
raised pending graph rank m (d ∷ deps) h (k, ks) = (
  (λ i. elim (Bool-cases (is_marked d (keys (blocked pending graph)))) [
    | inl e ↦ rw (e, h) (omega (arith, k e))
    | inr e ↦ rw (e, h) (omega arith)
  ]),
  raised pending graph rank m deps h ks,
)

-- The ranks of a round, from those of what it leaves; `part` runs through the objects.
round-IsBelow :
    (pending : List Marker) (graph part : Graph) (rank : Marker → ℕ)
    → All (λ e. is_marked e.0 (keys (blocked pending graph)) ≡ true) (blocked pending part)
    → All (IsBelow (keys (blocked pending graph)) rank) (blocked pending part)
    → All (IsBelow pending (next_rank (keys (blocked pending graph)) rank)) part
unfolding blocked is_ready
round-IsBelow pending graph [] rank h k = tt
round-IsBelow pending graph ((m, deps) ∷ part) rank h k =
    elim (Bool-cases (any (λ d. is_marked d pending) deps)) [
      | inl e ↦
          let (h1, hs) = rw e at h in
          let (k1, ks) = rw e at k in
          (raised pending graph rank m deps h1 k1, round-IsBelow pending graph part rank hs ks)
      | inr e ↦ (
        free-IsBelow pending _ m deps e,
        round-IsBelow pending graph part rank (rw e at h) (rw e at k),
      )
    ]

pub same_marker_refl : (m : Marker) → same_marker m m ≡ true
unfolding same_marker
same_marker_refl [] = refl
same_marker_refl (t ∷ m) = ground (arith, (text_eq_iff t t).1 refl, same_marker_refl m)

-- Every object of a graph is among its keys.
own_keys : (graph : Graph) → All (λ e. is_marked e.0 (keys graph) ≡ true) graph
unfolding is_marked
own_keys [] = tt
own_keys ((m, deps) ∷ graph) = (
  rw (same_marker_refl m) refl,
  All-map _ _ (λ e h. later e.0 m (is_marked e.0 (keys graph)) h) graph (own_keys graph),
)
  where
    later : (d m : Marker) (b : Bool) → b ≡ true → same_marker d m || b ≡ true
    later d m b h = ground arith

-- What the loop deletes has ranks.
pub peel-IsRanked :
    (fuel : ℕ) (graph : Graph) → peel fuel graph ≡ true → (rank : Marker → ℕ) × IsRanked graph rank
unfolding peel
peel-IsRanked fuel [] h = ((λ m. 0), tt)
peel-IsRanked zero (e ∷ es) h = cc
peel-IsRanked (suc fuel) (e ∷ es) h =
    let left = blocked (keys (e ∷ es)) (e ∷ es) in
    let (rank, ranked) = peel-IsRanked fuel left (ground arith) in
    (
      next_rank (keys left) rank,
      round-IsBelow (keys (e ∷ es)) (e ∷ es) (e ∷ es) rank (own_keys left) ranked,
    )
