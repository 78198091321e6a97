-- ===== src/Query/Executor/Count.antt =====
-- crates/montre-query/src/executor.rs, `count_node`: the number of hits, without the hits.
pub mod Lengths
pub mod Combine
pub mod Agreement
use montre.Prelude.{
  ℕ, ◌+◌, ◌-◌, Bool, Option, some, none, Text, List, [], ◌∷◌, length, if◌then◌else◌,
}
use montre.Index.{Crates}
use montre.Index.Corpus.{Corpus, inverted_get}
use montre.Query.{Result, ok, err, ◌>>=◌, regex}
use montre.Query.Plan.{
  PlanNode, scan_literal, scan_regex, scan_all, intersect, union, difference, filter_by_span,
  filter_by_component, filter_by_document, project_alignment, sequence_scan,
  global_constraint_filter,
}
use montre.Query.Sequence.Hits.{count_sequence}
use montre.Query.Executor.{layer_values, execute_node, build_stages}

module _ (x : Crates) (corpus : Corpus x.Bitmap) where
  unfoldable pub posting_count : Text → Text → ℕ
  unfolding inverted_get
  posting_count layer value = elim (inverted_get corpus layer value) [ none ↦ 0 | some b ↦ x.len b ]

  -- `combined |= bitmap`, if the index has the value.
  unfoldable pub add_posting : Text → Text → x.Bitmap → x.Bitmap
  unfolding inverted_get
  add_posting layer value combined = elim (inverted_get corpus layer value) [
    | none ↦ combined
    | some b ↦ x.union combined b
  ]

  -- The loop over the values, for those that match.
  unfoldable pub combine : (Text → Bool) → Text → List Text → x.Bitmap → x.Bitmap
  unfolding add_posting
  combine matches layer [] combined = combined
  combine matches layer (value ∷ values) combined =
      combine matches layer values
        (if matches value then add_posting layer value combined else combined)

  abbrev pub count_hits : PlanNode → Result ℕ
  count_hits node = execute_node x corpus node >>= λ hits. ok (length hits)

  -- A complement: the tokens of the corpus less those of the posting list.
  unfoldable pub count_difference : PlanNode → PlanNode → Result ℕ
  unfolding posting_count execute_node
  count_difference scan_all (scan_literal layer value) =
      ok (corpus.token_count - posting_count layer value)
  count_difference base subtract = count_hits (difference base subtract)

  unfoldable pub count_node : PlanNode → Result ℕ
  unfolding posting_count combine count_sequence count_difference execute_node
  count_node (scan_literal layer value) = ok (posting_count layer value)
  count_node scan_all = ok corpus.token_count
  count_node (scan_regex layer pattern) = elim (x.regex_new pattern) [
    | none ↦ err (regex pattern)
    | some matches ↦ ok (x.len (combine matches layer (layer_values x corpus layer) x.empty))
  ]
  count_node (sequence_scan steps) =
      ok (count_sequence x corpus steps (build_stages x corpus steps))
  count_node (difference base subtract) = count_difference base subtract
  count_node (intersect nodes) = count_hits (intersect nodes)
  count_node (union nodes) = count_hits (union nodes)
  count_node (filter_by_span inner layer) = count_hits (filter_by_span inner layer)
  count_node (filter_by_component inner names) = count_hits (filter_by_component inner names)
  count_node (filter_by_document inner names) = count_hits (filter_by_document inner names)
  count_node (project_alignment inner name) = count_hits (project_alignment inner name)
  count_node (global_constraint_filter inner cs) = count_hits (global_constraint_filter inner cs)
