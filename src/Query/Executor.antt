-- ===== src/Query/Executor.antt =====
-- crates/montre-query/src/executor.rs: the execution of a plan.
pub mod Sets
pub mod Meets
pub mod Parts
pub mod Token
pub mod Clip
pub mod Ranges
pub mod Stages
pub mod Searched
pub mod Sequences
pub mod Count
pub mod Agree
use montre.Prelude.{
  ℕ, zero, suc, ◌+◌, ◌-◌, leb, ltb, ◌==◌, if◌then◌else◌, Bool, true, false, not, Option, some, none,
  Text, List, [], ◌∷◌, ◌++◌, map, keep, length, sort_dedup, any,
}
use montre.Core.{Span}
use montre.Index.{Crates}
use montre.Index.Corpus.{Corpus, inverted_get, inverted_values}
use montre.Query.{Result, ok, err, ◌>>=◌, ◌>>◌, or_empty, regex}
use montre.Query.Plan.{
  PlanNode, Nodes, Steps, scan_literal, scan_regex, scan_all, intersect, union, difference,
  filter_by_span, filter_by_component, filter_by_document, project_alignment, sequence_scan,
  global_constraint_filter, no_nodes, and_node, no_steps, and_step,
}
use montre.Query.Run.{Run, from_positions, range, half_open, count_up}
use montre.Query.Sequence.{Stage}
use montre.Query.Sequence.Hits.{Hit, hit, is_scan_all, execute_sequence, count_sequence}
use montre.Query.Filter.{
  start_of, hits_at, contains_pos, intersect_all, union_all, skip_below, take_below, in_range,
  filter_by_span_hits, filter_by_component_hits, filter_by_document_hits, constrained_hits,
  project_alignment_hits,
}

-- The part of ascending positions in a range.
abbrev pub clip : ℕ → ℕ → List ℕ → List ℕ
clip start end ps = take_below end (skip_below start ps)

module _ (x : Crates) (corpus : Corpus x.Bitmap) where
  -- The positions of a value, ascending; none if the index does not have it.
  unfoldable pub posting : Text → Text → List ℕ
  unfolding inverted_get
  posting layer value = elim (inverted_get corpus layer value) [ none ↦ [] | some b ↦ x.iter b ]

  -- The positions of the values that match, value by value.
  unfoldable pub regex_positions : (List ℕ → List ℕ) → (Text → Bool) → Text → List Text → List ℕ
  unfolding posting
  regex_positions part matches layer [] = []
  regex_positions part matches layer (value ∷ values) =
      (if matches value then part (posting layer value) else [])
      ++ regex_positions part matches layer values

  abbrev layer_values : Text → List Text
  layer_values layer = elim (inverted_values corpus layer) [ none ↦ [] | some vs ↦ vs ]

  -- `ScanRegex`, with what is kept of each posting list.
  unfoldable pub scan_regex_positions : (List ℕ → List ℕ) → Text → Text → Result (List ℕ)
  unfolding regex_positions sort_dedup inverted_values
  scan_regex_positions part layer pattern = elim (x.regex_new pattern) [
    | none ↦ err (regex pattern)
    | some matches ↦ ok (sort_dedup (regex_positions part matches layer (layer_values layer)))
  ]

  -- `execute_node`, `get_matching_positions_in_range` and `build_run_indices`. The last case of
  -- `get_matching_positions_in_range` executes the node itself; it is written out for each node,
  -- as the recursion goes to the inner nodes.
  unfoldable mutual
    pub execute_node : PlanNode → Result (List Hit)
    execute_node (scan_literal layer value) = ok (hits_at (posting layer value))
    execute_node (scan_regex layer pattern) =
        scan_regex_positions (λ ps. ps) layer pattern >>= λ ps. ok (hits_at ps)
    execute_node scan_all = ok (hits_at (half_open 0 corpus.token_count))
    execute_node (intersect nodes) =
        execute_starts nodes >>= λ sets. ok (hits_at (intersect_all sets))
    execute_node (union nodes) = execute_starts nodes >>= λ sets. ok (hits_at (union_all sets))
    execute_node (difference base subtract) = do
      base_hits ← execute_node base
      subtract_hits ← execute_node subtract
      let starts = map start_of subtract_hits
      ok (keep (λ h. not (contains_pos starts h.span.start)) base_hits)
    execute_node (filter_by_span inner layer) =
        execute_node inner >>= λ hits. ok (filter_by_span_hits corpus layer hits)
    execute_node (filter_by_component inner names) =
        execute_node inner >>= λ hits. ok (filter_by_component_hits corpus names hits)
    execute_node (filter_by_document inner names) =
        execute_node inner >>= λ hits. ok (filter_by_document_hits corpus names hits)
    execute_node (project_alignment inner name) =
        execute_node inner >>= λ hits. project_alignment_hits corpus name hits
    execute_node (sequence_scan steps) = ok (execute_sequence x corpus steps (build_stages steps))
    execute_node (global_constraint_filter inner cs) =
        execute_node inner >>= λ hits. ok (constrained_hits corpus cs hits)

    -- The starts of the hits of each node.
    pub execute_starts : Nodes → Result (List (List ℕ))
    execute_starts no_nodes = ok []
    execute_starts (and_node node nodes) = do
      hits ← execute_node node
      sets ← execute_starts nodes
      ok (map start_of hits ∷ sets)

    pub positions_in_range : PlanNode → ℕ → ℕ → Result (List ℕ)
    positions_in_range scan_all start end = ok (half_open start end)
    positions_in_range (scan_literal layer value) start end =
        ok (clip start end (posting layer value))
    positions_in_range (scan_regex layer pattern) start end =
        scan_regex_positions (clip start end) layer pattern
    positions_in_range (union nodes) start end =
        positions_of_all nodes start end >>= λ sets. ok (union_all sets)
    positions_in_range (intersect nodes) start end =
        positions_of_all nodes start end >>= λ sets. ok (intersect_all sets)
    positions_in_range (difference base subtract) start end = do
      base_positions ← positions_in_range base start end
      subtract_set ← positions_in_range subtract start end
      ok (keep (λ p. not (contains_pos subtract_set p)) base_positions)
    positions_in_range (filter_by_span inner layer) start end = execute_node inner >>= λ hits.
        ok (in_range start end (map start_of (filter_by_span_hits corpus layer hits)))
    positions_in_range (filter_by_component inner names) start end = execute_node inner >>= λ hits.
        ok (in_range start end (map start_of (filter_by_component_hits corpus names hits)))
    positions_in_range (filter_by_document inner names) start end = execute_node inner >>= λ hits.
        ok (in_range start end (map start_of (filter_by_document_hits corpus names hits)))
    positions_in_range (project_alignment inner name) start end = do
      hits ← execute_node inner
      projected ← project_alignment_hits corpus name hits
      ok (in_range start end (map start_of projected))
    positions_in_range (sequence_scan steps) start end =
        ok
          (in_range start end (map start_of (execute_sequence x corpus steps (build_stages steps))))
    positions_in_range (global_constraint_filter inner cs) start end =
        execute_node inner >>= λ hits.
        ok (in_range start end (map start_of (constrained_hits corpus cs hits)))

    pub positions_of_all : Nodes → ℕ → ℕ → Result (List (List ℕ))
    positions_of_all no_nodes start end = ok []
    positions_of_all (and_node node nodes) start end = do
      positions ← positions_in_range node start end
      sets ← positions_of_all nodes start end
      ok (positions ∷ sets)

    -- Each step with its run index. A step that fails has no positions: `unwrap_or_default`.
    pub build_stages : Steps → ℕ → ℕ → List Stage
    build_stages no_steps start end = []
    build_stages (and_step node least most label rest) start end =
        record {
          least = least;
          most = most;
          label = label;
          is_scan_all = is_scan_all node;
          runs =
              if is_scan_all node
              then range start end
              else from_positions (or_empty (positions_in_range node start end) []);
        }
        ∷ build_stages rest start end
