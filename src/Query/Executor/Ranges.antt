-- ===== src/Query/Executor/Ranges.antt =====
-- `get_matching_positions_in_range` and the run indices of a sequence, against `execute_node`.
use montre.Prelude.{
  ℕ, ◌-◌, ◌≤◌, ◌≡◌, refl, inl, inr, arith, Option-cases, Bool, some, none, Text, map, sort_dedup,
  mem-sort_dedup,
}
use montre.Index.{Crates}
use montre.Index.Corpus.{Corpus}
use montre.Query.{ok, err, regex}
use montre.Query.Plan.{
  PlanNode, Nodes, scan_literal, scan_regex, scan_all, intersect, union, difference, filter_by_span,
  filter_by_component, filter_by_document, project_alignment, sequence_scan,
  global_constraint_filter, no_nodes, and_node,
}
use montre.Query.Run.{half_open}
use montre.Query.Run.Cover.{mem-count_up}
use montre.Query.Sequence.Hits.{execute_sequence}
use montre.Query.Filter.{
  start_of, hits_at, filter_by_span_hits, filter_by_component_hits, filter_by_document_hits,
  constrained_hits, project_alignment_hits,
}
use montre.Query.Executor.{
  regex_positions, scan_regex_positions, layer_values, clip, execute_node, execute_starts,
  positions_in_range, positions_of_all, build_stages,
}
use montre.Query.Executor.Sets.{starts-hits_at}
use montre.Query.Executor.Agree.{
  Restricts, Agrees, AgreesAll, Agrees-ok, Agrees-filter, Agrees-project, AgreesAll-cons,
  Agrees-union, Agrees-intersect, Agrees-difference,
}
use montre.Query.Executor.Clip.{Agrees-literal, regex_positions-clip}

module _ (x : Crates) (corpus : Corpus x.Bitmap) (a b : ℕ) where
  Restricts-regex :
      (matches : Text → Bool) (layer : Text)
      → Restricts a b
          (map start_of (
            hits_at (
              sort_dedup
                (regex_positions x corpus (λ ps. ps) matches layer (layer_values x corpus layer)))))
          (sort_dedup
            (regex_positions x corpus (clip a b) matches layer (layer_values x corpus layer)))
  Restricts-regex matches layer p =
      let vs = layer_values x corpus layer in
      let whole = regex_positions x corpus (λ ps. ps) matches layer vs in
      let part = regex_positions x corpus (clip a b) matches layer vs in
      rw (starts-hits_at (sort_dedup whole)) (
        ground (
          arith,
          mem-sort_dedup p whole,
          mem-sort_dedup p part,
          regex_positions-clip x corpus a b matches layer vs p,
        ))

  module _ (layer pattern : Text) where
    whole_fails :
        x.regex_new pattern ≡ none
        → execute_node x corpus (scan_regex layer pattern) ≡ err (regex pattern)
    unfolding execute_node scan_regex_positions
    whole_fails e = ground arith

    part_fails :
        x.regex_new pattern ≡ none
        → positions_in_range x corpus (scan_regex layer pattern) a b ≡ err (regex pattern)
    unfolding execute_node scan_regex_positions
    part_fails e = ground arith

    whole_finds :
        (matches : Text → Bool)
        → x.regex_new pattern ≡ some matches
        → execute_node x corpus (scan_regex layer pattern)
          ≡ ok (
              hits_at (
                sort_dedup (
                  regex_positions x corpus (λ ps. ps) matches layer (layer_values x corpus layer))))
    unfolding execute_node scan_regex_positions
    whole_finds matches e = ground arith

    part_finds :
        (matches : Text → Bool)
        → x.regex_new pattern ≡ some matches
        → positions_in_range x corpus (scan_regex layer pattern) a b
          ≡ ok (
              sort_dedup
                (regex_positions x corpus (clip a b) matches layer (layer_values x corpus layer)))
    unfolding execute_node scan_regex_positions
    part_finds matches e = ground arith

  Agrees-regex :
      (layer pattern : Text)
      → Agrees a b
          (execute_node x corpus (scan_regex layer pattern))
          (positions_in_range x corpus (scan_regex layer pattern) a b)
  Agrees-regex layer pattern = elim (Option-cases (x.regex_new pattern)) [
    | inl e ↦ rw (whole_fails layer pattern e, part_fails layer pattern e) refl
    | inr (matches, e) ↦
        rw (whole_finds layer pattern matches e, part_finds layer pattern matches e)
          (Restricts-regex matches layer)
  ]

  Agrees-all :
      b ≤ corpus.token_count
      → Agrees a b (execute_node x corpus scan_all) (positions_in_range x corpus scan_all a b)
  unfolding execute_node
  Agrees-all h p =
      rw (starts-hits_at (half_open 0 corpus.token_count))
        (ground (arith, mem-count_up p 0 corpus.token_count, mem-count_up p a (b - a)))

  mutual
    unfolding execute_node

    Agrees-node :
        (node : PlanNode)
        → b ≤ corpus.token_count
        → Agrees a b (execute_node x corpus node) (positions_in_range x corpus node a b)
    Agrees-node (scan_literal layer value) h = Agrees-literal x corpus a b layer value
    Agrees-node (scan_regex layer pattern) h = Agrees-regex layer pattern
    Agrees-node scan_all h = Agrees-all h
    Agrees-node (intersect nodes) h =
        Agrees-intersect a b (execute_starts x corpus nodes) (positions_of_all x corpus nodes a b)
          (AgreesAll-nodes nodes h)
    Agrees-node (union nodes) h =
        Agrees-union a b (execute_starts x corpus nodes) (positions_of_all x corpus nodes a b)
          (AgreesAll-nodes nodes h)
    Agrees-node (difference base subtract) h =
        Agrees-difference a b (execute_node x corpus base) (execute_node x corpus subtract)
          (positions_in_range x corpus base a b) (positions_in_range x corpus subtract a b)
          (Agrees-node base h) (Agrees-node subtract h)
    Agrees-node (filter_by_span inner layer) h =
        Agrees-filter a b (execute_node x corpus inner) (filter_by_span_hits corpus layer)
    Agrees-node (filter_by_component inner names) h =
        Agrees-filter a b (execute_node x corpus inner) (filter_by_component_hits corpus names)
    Agrees-node (filter_by_document inner names) h =
        Agrees-filter a b (execute_node x corpus inner) (filter_by_document_hits corpus names)
    Agrees-node (project_alignment inner name) h =
        Agrees-project a b (execute_node x corpus inner) (project_alignment_hits corpus name)
    Agrees-node (sequence_scan steps) h =
        Agrees-ok a b (execute_sequence x corpus steps (build_stages x corpus steps))
    Agrees-node (global_constraint_filter inner cs) h =
        Agrees-filter a b (execute_node x corpus inner) (constrained_hits corpus cs)

    AgreesAll-nodes :
        (nodes : Nodes)
        → b ≤ corpus.token_count
        → AgreesAll a b (execute_starts x corpus nodes) (positions_of_all x corpus nodes a b)
    AgreesAll-nodes no_nodes h = tt
    AgreesAll-nodes (and_node node nodes) h =
        AgreesAll-cons a b (execute_node x corpus node) (positions_in_range x corpus node a b)
          (execute_starts x corpus nodes) (positions_of_all x corpus nodes a b) (Agrees-node node h)
          (AgreesAll-nodes nodes h)

-- In a range of the corpus, and where the hash maps of both executions iterate in the same order,
-- `get_matching_positions_in_range` fails with the error of `execute_node`, or both succeed, and its
-- positions are exactly the starts of the hits of `execute_node` that lie in the range: for every
-- node of a plan.
pub positions_in_range-execute_node :
    (x : Crates) (corpus : Corpus x.Bitmap) (node : PlanNode) (a b : ℕ)
    → b ≤ corpus.token_count
    → Agrees a b (execute_node x corpus node) (positions_in_range x corpus node a b)
positions_in_range-execute_node x corpus node a b h = Agrees-node x corpus a b node h
