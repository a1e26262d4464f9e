-- ===== src/Observe/Sink.antt =====
-- src/iaas/observation.py: `EvidenceSink`, the last useful sample and the frozen terminal decision of
-- each check. A row comes with its key, the `json.dumps` of its phase, check and association.
use iaas.Prelude.{
  ◌≡◌, refl, Bool, true, false, Option, none, some, List, [], ◌∷◌, Text, codes, text_eq,
  text_eq_iff, ap, ◌∙◌, if◌then◌else◌, arith, not, ◌&&◌, Bool-cases, inl, inr,
}
use iaas.Value.{has_key}
use iaas.Observe.{Status, pending, Row, is_empty}

pub record Group : Type 0 where
  pub last : Option Row
  pub last_observation : Option Row
  pub terminal : Option Row

abbrev pub Groups : Type 0
Groups = List (Text × Group)

abbrev pub new_group : Group
new_group = record { last = none; last_observation = none; terminal = none }

abbrev pub is_pending : Status → Bool
is_pending pending = true
is_pending _ = false

abbrev pub is_observation : Row → Bool
is_observation r =
    not (is_empty r.decision.evidence)
    && (not (has_key (codes "category") r.decision.evidence)
        && not (text_eq r.decision.reason (codes "observation_deadline_expired")))

-- What one row does to its group.
record_at : Option Row → Row → Group → Group
record_at (some t) r g = g
record_at none r g = record {
  last = some r;
  last_observation = if is_observation r then some r else g.last_observation;
  terminal = if is_pending r.decision.status then none else some r;
}

unfoldable pub record_row : Row → Group → Group
unfolding record_at
record_row r g = record_at g.terminal r g

-- `self.groups.setdefault(key, ...)`, and the update of that group.
unfoldable pub sink : Groups → Text → Row → Groups
sink [] key r = (key, record_row r new_group) ∷ []
sink ((k, g) ∷ gs) key r =
    if text_eq k key then (k, record_row r g) ∷ gs else (k, g) ∷ sink gs key r

unfoldable pub sink_all : Groups → List (Text × Row) → Groups
sink_all gs [] = gs
sink_all gs ((key, r) ∷ rows) = sink_all (sink gs key r) rows

-- The group of a key, a new one if there is none.
unfoldable pub group_of : Text → Groups → Group
group_of key [] = new_group
group_of key ((k, g) ∷ gs) = if text_eq k key then g else group_of key gs

-- The rows of one key, in order.
unfoldable pub rows_of : Text → List (Text × Row) → List Row
rows_of key [] = []
rows_of key ((k, r) ∷ rows) =
    let rest = rows_of key rows in if text_eq k key then r ∷ rest else rest

-- The specification: the first row that is not pending closes its group, and up to it the last
-- row, and the last one that is an observation, are kept.
abbrev pub first_terminal : List Row → Option Row
first_terminal [] = none
first_terminal (r ∷ rows) = if is_pending r.decision.status then first_terminal rows else some r

abbrev until_terminal : List Row → List Row
until_terminal [] = []
until_terminal (r ∷ rows) = if is_pending r.decision.status then r ∷ until_terminal rows else r ∷ []

abbrev pub last_that : (Row → Bool) → Option Row → List Row → Option Row
last_that p found [] = found
last_that p found (r ∷ rows) = last_that p (if p r then some r else found) rows

abbrev pub group_spec : List Row → Group
group_spec rows = record {
  last = last_that (λ r. true) none (until_terminal rows);
  last_observation = last_that is_observation none (until_terminal rows);
  terminal = first_terminal rows;
}

group_of-sink :
    (gs : Groups) (key k : Text) (r : Row)
    → group_of key (sink gs k r)
      ≡ (if text_eq k key then record_row r (group_of key gs) else group_of key gs)
unfolding sink group_of
group_of-sink [] key k r = refl
group_of-sink ((j, g) ∷ gs) key k r =
    ground (arith, group_of-sink gs key k r, text_eq_iff j k, text_eq_iff j key, text_eq_iff k key)

fold_rows : Group → List Row → Group
fold_rows g [] = g
fold_rows g (r ∷ rows) = fold_rows (record_row r g) rows

group_of-sink_all :
    (gs : Groups) (key : Text) (rows : List (Text × Row))
    → group_of key (sink_all gs rows) ≡ fold_rows (group_of key gs) (rows_of key rows)
unfolding sink_all rows_of fold_rows
group_of-sink_all gs key [] = refl
group_of-sink_all gs key ((k, r) ∷ rows) = elim (Bool-cases (text_eq k key)) [
  | inl e ↦ rw e (
      group_of-sink_all (sink gs k r) key rows
      ∙ ap (λ g. fold_rows g (rows_of key rows)) (group_of-sink gs key k r ∙ rw e))
  | inr e ↦ rw e (
      group_of-sink_all (sink gs k r) key rows
      ∙ ap (λ g. fold_rows g (rows_of key rows)) (group_of-sink gs key k r ∙ rw e))
]

fold_rows-closed :
    (g : Group) (t : Row) (rows : List Row) → g.terminal ≡ some t → fold_rows g rows ≡ g
unfolding fold_rows record_row
fold_rows-closed g t [] h = refl
fold_rows-closed g t (r ∷ rows) h = ground (arith, fold_rows-closed g t rows)

fold_rows_lem :
    (rows : List Row) (l o : Option Row)
    → fold_rows (record { last = l; last_observation = o; terminal = none }) rows ≡ record {
      last = last_that (λ r. true) l (until_terminal rows);
      last_observation = last_that is_observation o (until_terminal rows);
      terminal = first_terminal rows;
    }
unfolding fold_rows record_row
fold_rows_lem [] l o = refl
fold_rows_lem (r ∷ rows) l o = elim (Bool-cases (is_pending r.decision.status)) [
  | inl e ↦ rw e (fold_rows_lem rows (some r) (if is_observation r then some r else o))
  | inr e ↦ rw e (fold_rows-closed _ r rows refl)
]

-- After any rows of any checks, the group of a check is that of its own rows alone: its terminal row
-- is the first that is not pending, and it keeps the last row up to there and the last observation.
pub sink_all-group_spec :
    (key : Text) (rows : List (Text × Row))
    → group_of key (sink_all [] rows) ≡ group_spec (rows_of key rows)
unfolding group_of
sink_all-group_spec key rows =
    group_of-sink_all [] key rows ∙ fold_rows_lem (rows_of key rows) none none
