-- ===== src/Query/Sequence.antt =====
-- crates/montre-query/src/executor.rs, the scan of a sequence: the partial matches that end at each
-- position are carried from step to step. One text models the two copies of the loop: `Tracker` says
-- what a partial match is, its start alone or its start with the captures of the labels.
pub mod Hits
pub mod Entries
pub mod Step
pub mod Chain
pub mod Found
pub mod Spans
use montre.Prelude.{
  ℕ, zero, suc, ◌+◌, leb, ltb, ◌==◌, if◌then◌else◌, Bool, true, false, Option, some, none, Text,
  List, [], ◌∷◌, ◌++◌, map, flat_map,
}
use montre.Core.{Span, span}
use montre.Index.{Crates}
use montre.Query.Run.{Run, spans_for_quantifier, continuations_at, spans_for_scan_all}

-- A step with its run index: `steps[i]` and `run_indices[i]`.
pub record Stage : Type 0 where
  pub least : ℕ
  pub most : Option ℕ
  pub label : Option Text
  pub is_scan_all : Bool
  pub runs : List Run

pub record Captured : Type 0 where
  pub start : ℕ
  pub captures : List (Text × Span)

-- What the two copies of the loop do to a partial match: its start, how the first step begins one
-- at a span, and how a later step extends it over a span.
pub record Tracker (A : Type 0) : Type 0 where
  pub key : A → ℕ
  pub begin : Stage → ℕ → ℕ → A
  pub extend : Stage → ℕ → ℕ → A → A

-- The capture that a labelled step adds.
abbrev pub capture : Stage → ℕ → ℕ → List (Text × Span)
capture stage a b = elim stage.label [ none ↦ [] | some label ↦ (label, span a b) ∷ [] ]

unfoldable pub unlabeled : Tracker ℕ
unlabeled = record { key = λ s. s; begin = λ stage a b. a; extend = λ stage a b s. s }

unfoldable pub labeled : Tracker Captured
labeled = record {
  key = λ m. m.start;
  begin = λ stage a b. record { start = a; captures = capture stage a b };
  extend = λ stage a b m. record m { captures = m.captures ++ capture stage a b };
}

-- `HashMap<u64, Vec<A>>`: the partial matches by their end.
abbrev pub Active : Type 0 → Type 0
Active A = List (ℕ × List A)

module _ {A : Type 0} where
  -- `active.entry(end).or_default().push(item)`
  unfoldable pub push : ℕ → A → Active A → Active A
  push end item [] = (end, item ∷ []) ∷ []
  push end item ((e, items) ∷ active) =
      if e == end then (e, items ++ item ∷ []) ∷ active else (e, items) ∷ push end item active

  -- The pushes of a loop, in order.
  unfoldable pub push_all : List (ℕ × A) → Active A → Active A
  unfolding push
  push_all [] active = active
  push_all ((end, item) ∷ rest) active = push_all rest (push end item active)

  -- `sort_unstable_by_key` and `dedup_by_key`: one match for each key, in ascending order. Of
  -- matches with one key the program keeps some one; the model keeps the first.
  unfoldable pub insert_by : (A → ℕ) → A → List A → List A
  insert_by key a [] = a ∷ []
  insert_by key a (x ∷ xs) =
      if ltb (key a) (key x)
      then a ∷ x ∷ xs
      else if key a == key x
      then a ∷ xs
      else x ∷ insert_by key a xs

  unfoldable pub sort_dedup_by : (A → ℕ) → List A → List A
  unfolding insert_by
  sort_dedup_by key [] = []
  sort_dedup_by key (x ∷ xs) = insert_by key x (sort_dedup_by key xs)

  abbrev pub map_values : (List A → List A) → Active A → Active A
  map_values f [] = []
  map_values f ((e, items) ∷ active) = (e, f items) ∷ map_values f active

-- The ends that a step reaches from a position.
unfoldable pub continuations : Stage → ℕ → ℕ → List ℕ
unfolding continuations_at spans_for_scan_all
continuations stage range_end pos =
    if stage.is_scan_all
    then spans_for_scan_all pos stage.least stage.most range_end
    else continuations_at stage.runs pos stage.least stage.most

module _ {A : Type 0} (tracker : Tracker A) where
  -- `spans_for_quantifier` of the first step.
  abbrev pub first_pushes : Stage → List (ℕ × A)
  first_pushes stage =
      map (λ (a, b). (b, tracker.begin stage a b))
        (spans_for_quantifier stage.runs stage.least stage.most)

  -- An optional first step is skipped at the start of each run of the second step.
  abbrev pub skip_pushes : Stage → List Stage → List (ℕ × A)
  skip_pushes first [] = []
  skip_pushes first (second ∷ rest) =
      if first.least == 0
      then map (λ r. (r.start, tracker.begin first r.start r.start)) second.runs
      else []

  unfoldable pub first_active : Stage → List Stage → Active A
  unfolding push_all spans_for_quantifier
  first_active first rest = push_all (first_pushes first ++ skip_pushes first rest) []

  abbrev pub extend_all : Stage → ℕ → List A → ℕ → List (ℕ × A)
  extend_all stage from items to = map (λ item. (to, tracker.extend stage from to item)) items

  -- The pushes of a step for the matches that end at one position.
  unfoldable pub entry_pushes : Stage → ℕ → ℕ × List A → List (ℕ × A)
  unfolding continuations
  entry_pushes stage range_end (pos, items) =
      (if stage.least == 0 then extend_all stage pos items pos else [])
      ++ flat_map (extend_all stage pos items) (continuations stage range_end pos)

module _ (x : Crates) {A : Type 0} (tracker : Tracker A) where
  unfoldable pub advance : Stage → ℕ → Active A → Active A
  unfolding entry_pushes push_all sort_dedup_by
  advance stage range_end active =
      map_values (sort_dedup_by tracker.key) (
        push_all (flat_map (entry_pushes tracker stage range_end) (x.hash_order (List A) active))
          [])

  unfoldable pub later_steps : List Stage → ℕ → Active A → Active A
  unfolding advance
  later_steps [] range_end active = active
  later_steps (stage ∷ stages) range_end [] = []
  later_steps (stage ∷ stages) range_end (e ∷ active) =
      later_steps stages range_end (advance stage range_end (e ∷ active))

  -- `run_sequence_steps_unlabeled` and `run_sequence_steps_labeled`.
  unfoldable pub run_sequence_steps : List Stage → ℕ → ℕ → Active A
  unfolding first_active later_steps
  run_sequence_steps [] range_start range_end = []
  run_sequence_steps (first ∷ rest) range_start range_end =
      if leb range_end range_start
      then []
      else later_steps rest range_end (first_active tracker first rest)
