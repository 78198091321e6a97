-- ===== src/Query/Sequence/Hits.antt =====
-- crates/montre-query/src/executor.rs, `Hit` and `execute_sequence`: the hits of a sequence, in one
-- range or document by document.
use montre.Prelude.{
  ℕ, ◌+◌, leb, ltb, ◌==◌, if◌then◌else◌, Bool, true, false, ◌&&◌, ◌||◌, Option, some, none, Text,
  codes, List, [], ◌∷◌, map, flat_map, keep, length,
}
use montre.Core.{Span, span}
use montre.Index.{Crates}
use montre.Index.Corpus.{Corpus, spans}
use montre.Query.Plan.{PlanNode, Steps, scan_all, difference, no_steps, and_step}
use montre.Query.Sequence.{Stage, unlabeled, labeled, Active, run_sequence_steps}

pub record Hit : Type 0 where
  pub span : Span
  pub document_index : ℕ
  pub sentence_index : ℕ
  pub captures : List (Text × Span)

-- `u32::MAX`
abbrev pub unpopulated : ℕ
unpopulated = 4294967295

-- `Hit::new`, with the captures that a labelled sequence sets.
abbrev pub hit : ℕ → ℕ → List (Text × Span) → Hit
hit a b captures = record {
  span = span a b;
  document_index = unpopulated;
  sentence_index = unpopulated;
  captures = captures;
}

-- `sort_by_key(|h| (h.span.start, h.span.end))`
unfoldable pub hit_le : Hit → Hit → Bool
hit_le h k =
    ltb h.span.start k.span.start || h.span.start == k.span.start && leb h.span.end k.span.end

unfoldable pub insert_hit : (Hit → Hit → Bool) → Hit → List Hit → List Hit
insert_hit le h [] = h ∷ []
insert_hit le h (k ∷ hits) = if le h k then h ∷ k ∷ hits else k ∷ insert_hit le h hits

unfoldable pub sort_hits : (Hit → Hit → Bool) → List Hit → List Hit
unfolding insert_hit
sort_hits le [] = []
sort_hits le (h ∷ hits) = insert_hit le h (sort_hits le hits)

-- The matches of one entry that are not empty.
abbrev pub nonempty : {A : Type 0} → (A → ℕ) → ℕ → List A → List A
nonempty key end items = keep (λ item. ltb (key item) end) items

-- Whether a step carries a label.
unfoldable pub has_labels : Steps → Bool
has_labels no_steps = false
has_labels (and_step node least most (some label) rest) = true
has_labels (and_step node least most none rest) = has_labels rest

abbrev pub is_scan_all : PlanNode → Bool
is_scan_all scan_all = true
is_scan_all _ = false

-- `matches!(node, Difference { base, .. } if matches!(base, ScanAll))`
abbrev pub is_complement : PlanNode → Bool
is_complement (difference base subtract) = is_scan_all base
is_complement _ = false

abbrev pub is_once : ℕ → Option ℕ → Bool
is_once least none = false
is_once least (some most) = least == 1 && most == 1

unfoldable pub benefits_from_parallel : Steps → Bool
benefits_from_parallel no_steps = false
benefits_from_parallel (and_step node least most label rest) =
    if is_once least most
    then is_scan_all node || is_complement node || benefits_from_parallel rest
    else true

-- The sums of `count_sequence`.
unfoldable pub count_entries : Active ℕ → ℕ
count_entries [] = 0
count_entries ((end, starts) ∷ rest) = length (nonempty (λ s. s) end starts) + count_entries rest

unfoldable pub sum_over : (Span → ℕ) → List Span → ℕ
sum_over f [] = 0
sum_over f (s ∷ rest) = f s + sum_over f rest

module _ (x : Crates) where
  unfoldable pub hits_of : {A : Type 0} → (A → ℕ) → (A → List (Text × Span)) → Active A → List Hit
  hits_of {A} key captures active =
      flat_map (λ (end, items). map (λ i. hit (key i) end (captures i)) (nonempty key end items))
        (x.hash_order (List A) active)

  unfoldable pub execute_sequence_in_range : Bool → List Stage → ℕ → ℕ → List Hit
  unfolding hits_of run_sequence_steps sort_hits hit_le labeled unlabeled
  execute_sequence_in_range has_label stages a b =
      if has_label
      then sort_hits hit_le
          (hits_of (λ m. m.start) (λ m. m.captures) (run_sequence_steps x labeled stages a b))
      else sort_hits hit_le (hits_of (λ s. s) (λ s. []) (run_sequence_steps x unlabeled stages a b))

  unfoldable pub count_in_range : List Stage → ℕ → ℕ → ℕ
  unfolding run_sequence_steps unlabeled count_entries
  count_in_range stages a b =
      count_entries (x.hash_order (List ℕ) (run_sequence_steps x unlabeled stages a b))

  -- One range for each document, or the whole corpus. `stages a b` are the steps with the run
  -- indices that `build_run_indices` makes of the range.
  unfoldable pub execute_sequence : Corpus x.Bitmap → Steps → (ℕ → ℕ → List Stage) → List Hit
  unfolding execute_sequence_in_range benefits_from_parallel has_labels spans
  execute_sequence corpus steps stages =
      let in_range = λ (a b : ℕ). execute_sequence_in_range (has_labels steps) (stages a b) a b in
      elim (spans corpus (codes "document")) [
        | none ↦ in_range 0 corpus.token_count
        | some docs ↦
            if ltb 1 (length docs) && benefits_from_parallel steps
            then flat_map (λ d. in_range d.start d.end) docs
            else in_range 0 corpus.token_count
      ]

  unfoldable pub count_sequence : Corpus x.Bitmap → Steps → (ℕ → ℕ → List Stage) → ℕ
  unfolding count_in_range benefits_from_parallel sum_over spans
  count_sequence corpus steps stages =
      let in_range = λ (a b : ℕ). count_in_range (stages a b) a b in
      elim (spans corpus (codes "document")) [
        | none ↦ in_range 0 corpus.token_count
        | some docs ↦
            if ltb 1 (length docs) && benefits_from_parallel steps
            then sum_over (λ d. in_range d.start d.end) docs
            else in_range 0 corpus.token_count
      ]
