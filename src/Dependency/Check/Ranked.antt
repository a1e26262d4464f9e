-- ===== src/Dependency/Check/Ranked.antt =====
-- The last loop of `valid_state` of src/iaas/opnsense_workflow/planning.py deletes what has no cycle.
use iaas.Prelude.{
  ℕ, zero, suc, ◌≡◌, refl, sym, subst, ◌≤◌, ◌↔◌, inl, inr, true, false, List, [], ◌∷◌, any, length,
  All, arith, Bool-cases, leb,
}
use iaas.Staging.{Marker, same_marker, is_marked}
use iaas.Dependency.Check.{Graph, keys, is_ready, blocked, peel}
use iaas.Dependency.Check.Topology.{
  All-map, same_marker-≡, IsBelow, IsRanked, blocked-keys, blocked-All, blocked-shorter,
  peel-IsRanked,
}

-- A dependency that is pending has at least the least rank.
least_key :
    (graph : Graph) (rank : Marker → ℕ) (n : ℕ) (d : Marker)
    → All (λ e. n ≤ rank e.0) graph
    → is_marked d (keys graph) ≡ true
    → n ≤ rank d
unfolding is_marked
least_key [] rank n d h k = cc
least_key ((m, deps) ∷ graph) rank n d (h, hs) k = elim (Bool-cases (same_marker d m)) [
  | inl e ↦ subst (λ x. n ≤ rank x) (sym (same_marker-≡ d m e)) h
  | inr e ↦ least_key graph rank n d hs (rw e at k)
]

least-is_ready :
    (graph : Graph) (rank : Marker → ℕ) (m : Marker) (deps : List Marker)
    → All (λ e. rank m ≤ rank e.0) graph
    → IsBelow (keys graph) rank (m, deps)
    → any (λ d. is_marked d (keys graph)) deps ≡ false
least-is_ready graph rank m [] h k = refl
least-is_ready graph rank m (d ∷ deps) h (k, ks) = elim (Bool-cases (is_marked d (keys graph))) [
  | inl e ↦ absurd (omega (arith, least_key graph rank (rank m) d h e, k e))
  | inr e ↦ rw e (least-is_ready graph rank m deps h ks)
]

-- Some object of least rank, among the pending ones.
least :
    (pending : List Marker) (rank : Marker → ℕ) (e : Marker × List Marker) (part : Graph)
    → All (IsBelow pending rank) (e ∷ part)
    → (m : Marker) × (deps : List Marker) × All (λ x. rank m ≤ rank x.0) (e ∷ part)
      × IsBelow pending rank (m, deps)
      × ((any (λ d. is_marked d pending) deps ≡ false) → any (is_ready pending) (e ∷ part) ≡ true)
unfolding is_ready
least pending rank (m, deps) [] (h, hs) = (m, deps, (omega arith, tt), h, (λ k. rw k refl))
least pending rank (m, deps) (e ∷ part) (h, hs) =
    let (n, others, low, below, ready) = least pending rank e part hs in
    elim (Bool-cases (leb (rank m) (rank n))) [
      | inl c ↦ (
        m,
        deps,
        (
          omega arith,
          All-map _ _ (λ x k. omega (arith, leb_le (rank m) (rank n) c, k)) (e ∷ part) low,
        ),
        h,
        (λ k. rw k refl),
      )
      | inr c ↦ (
        n,
        others,
        (leb_le_false (rank m) (rank n) c, low),
        below,
        (λ k. ground (arith, ready k)),
      )
    ]
  where
    leb_le : (a b : ℕ) → leb a b ≡ true → a ≤ b
    leb_le a b h = ground arith

    leb_le_false : (a b : ℕ) → leb a b ≡ false → b ≤ a
    leb_le_false a b h = ground arith

fewer_keys :
    (pending : List Marker) (graph : Graph) (rank : Marker → ℕ) (e : Marker × List Marker)
    → IsBelow (keys graph) rank e
    → IsBelow (keys (blocked pending graph)) rank e
fewer_keys pending graph rank (m, []) h = tt
fewer_keys pending graph rank (m, d ∷ deps) (h, hs) =
    ((λ k. h (blocked-keys pending graph d k)), fewer_keys pending graph rank (m, deps) hs)

-- A graph with ranks is deleted whole.
peel-ranked :
    (fuel : ℕ) (graph : Graph) (rank : Marker → ℕ)
    → length graph ≤ fuel
    → IsRanked graph rank
    → peel fuel graph ≡ true
unfolding peel
peel-ranked fuel [] rank h r = refl
peel-ranked zero (e ∷ es) rank h r = absurd (omega (arith, h))
peel-ranked (suc fuel) (e ∷ es) rank h r =
    let pending = keys (e ∷ es) in
    let (m, deps, low, below, ready) = least pending rank e es r in
    let found = ready (least-is_ready (e ∷ es) rank m deps low below) in
    let shorter = blocked-shorter pending (e ∷ es) found in
    let left : IsRanked (blocked pending (e ∷ es)) rank =
      All-map _ _ (fewer_keys pending (e ∷ es) rank) (blocked pending (e ∷ es))
        (blocked-All _ pending (e ∷ es) r) in
    let rest = peel-ranked fuel (blocked pending (e ∷ es)) rank (omega (arith, h, shorter)) left in
    ground (arith, found, rest)

-- The loop over a graph, with one round for each object, deletes every object exactly if there are
-- ranks by which each object stands above the objects it depends on: there is no cycle.
pub peel-IsRanked_iff :
    (graph : Graph)
    → (peel (length graph) graph ≡ true) ↔ ((rank : Marker → ℕ) × IsRanked graph rank)
peel-IsRanked_iff graph = (
  peel-IsRanked (length graph) graph,
  λ r. peel-ranked (length graph) graph r.0 (omega arith) r.1,
)
