-- ===== src/Query/Executor/Count/Agreement.antt =====
-- `count_node` against `execute_node`.
use montre.Prelude.{
  ℕ, zero, suc, ◌+◌, ◌-◌, ◌≡◌, refl, sym, ap, ◌∙◌, inl, inr, arith, Bool, Bool-cases, Option-cases,
  false, not, ◌&&◌, ltb, Text, codes, List, [], ◌∷◌, keep, length, sort_dedup,
}
use montre.Core.{Span}
use montre.Index.{Crates}
use montre.Index.Corpus.{Corpus, spans}
use montre.Query.{ok, ◌>>=◌}
use montre.Query.Plan.{
  PlanNode, Steps, scan_literal, scan_regex, scan_all, intersect, union, difference, filter_by_span,
  filter_by_component, filter_by_document, project_alignment, sequence_scan,
  global_constraint_filter,
}
use montre.Query.Run.{half_open, count_up}
use montre.Query.Sequence.{Stage, unlabeled, run_sequence_steps}
use montre.Query.Sequence.Hits.{
  hit_le, hits_of, count_in_range, execute_sequence_in_range, execute_sequence, count_sequence,
  has_labels, benefits_from_parallel,
}
use montre.Query.Filter.{hits_at, contains_pos}
use montre.Query.Executor.{
  posting, regex_positions, scan_regex_positions, layer_values, execute_node, build_stages,
}
use montre.Query.Executor.Sets.{starts-hits_at, keep-hits_at}
use montre.Query.Executor.Clip.{posting-IsAscending}
use montre.Query.Executor.Meets.{IsIndexed}
use montre.Query.Executor.Count.{count_hits, count_difference, count_node}
use montre.Query.Executor.Count.Lengths.{
  length-keep-count_up, length-sort_hits, length-entry_hits, length-flat_map,
}
use montre.Query.Executor.Count.Combine.{posting_count-length, regex-length}

length-hits_at : (ps : List ℕ) → length (hits_at ps) ≡ length ps
length-hits_at [] = refl
length-hits_at (p ∷ ps) = ap suc (length-hits_at ps)

length-count_up : (a n : ℕ) → length (count_up a n) ≡ n
unfolding count_up
length-count_up a zero = refl
length-count_up a (suc n) = ap suc (length-count_up (a + 1) n)

module _ (x : Crates) (corpus : Corpus x.Bitmap) where
  count_regex :
      (layer pattern : Text)
      → count_node x corpus (scan_regex layer pattern)
        ≡ count_hits x corpus (scan_regex layer pattern)
  unfolding count_node execute_node scan_regex_positions
  count_regex layer pattern = elim (Option-cases (x.regex_new pattern)) [
    | inl e ↦ ground arith
    | inr (matches, e) ↦
        let vs = layer_values x corpus layer in
        let found = sort_dedup (regex_positions x corpus (λ ps. ps) matches layer vs) in
        ground (arith, regex-length x corpus matches layer vs, length-hits_at found)
  ]

  count_literal :
      (layer value : Text)
      → count_node x corpus (scan_literal layer value)
        ≡ count_hits x corpus (scan_literal layer value)
  unfolding count_node execute_node
  count_literal layer value = ap ok (
      posting_count-length x corpus layer value
      ∙ sym (length-hits_at (posting x corpus layer value)))

  count_all : count_node x corpus scan_all ≡ count_hits x corpus scan_all
  unfolding count_node execute_node
  count_all =
      let n = corpus.token_count in
      ap ok (omega (arith, length-hits_at (half_open 0 n), length-count_up 0 (n - 0)))

  count_complement :
      (layer value : Text)
      → IsIndexed x corpus
      → count_difference x corpus scan_all (scan_literal layer value)
        ≡ count_hits x corpus (difference scan_all (scan_literal layer value))
  unfolding count_difference execute_node
  count_complement layer value indexed =
      let ps = posting x corpus layer value in
      let n = corpus.token_count in
      let kept = keep (λ p. not (contains_pos ps p)) (half_open 0 n) in
      let left =
        length-keep-count_up 0 (n - 0) ps (posting-IsAscending x corpus 0 0 layer value)
          (λ p m. omega (arith, indexed layer value p m)) in
      rw
        (
          starts-hits_at ps,
          keep-hits_at (λ p. not (contains_pos ps p)) (half_open 0 n),
          length-hits_at kept,
          posting_count-length x corpus layer value,
        )
        (ap ok (omega (arith, left)))

  count_difference-hits :
      (base subtract : PlanNode)
      → IsIndexed x corpus
      → count_difference x corpus base subtract ≡ count_hits x corpus (difference base subtract)
  unfolding count_difference
  count_difference-hits scan_all (scan_literal layer value) indexed =
      count_complement layer value indexed
  count_difference-hits scan_all scan_all indexed = refl
  count_difference-hits scan_all (scan_regex layer pattern) indexed = refl
  count_difference-hits scan_all (intersect nodes) indexed = refl
  count_difference-hits scan_all (union nodes) indexed = refl
  count_difference-hits scan_all (difference b s) indexed = refl
  count_difference-hits scan_all (filter_by_span inner layer) indexed = refl
  count_difference-hits scan_all (filter_by_component inner names) indexed = refl
  count_difference-hits scan_all (filter_by_document inner names) indexed = refl
  count_difference-hits scan_all (project_alignment inner name) indexed = refl
  count_difference-hits scan_all (sequence_scan steps) indexed = refl
  count_difference-hits scan_all (global_constraint_filter inner cs) indexed = refl
  count_difference-hits (scan_literal layer value) subtract indexed = refl
  count_difference-hits (scan_regex layer pattern) subtract indexed = refl
  count_difference-hits (intersect nodes) subtract indexed = refl
  count_difference-hits (union nodes) subtract indexed = refl
  count_difference-hits (difference b s) subtract indexed = refl
  count_difference-hits (filter_by_span inner layer) subtract indexed = refl
  count_difference-hits (filter_by_component inner names) subtract indexed = refl
  count_difference-hits (filter_by_document inner names) subtract indexed = refl
  count_difference-hits (project_alignment inner name) subtract indexed = refl
  count_difference-hits (sequence_scan steps) subtract indexed = refl
  count_difference-hits (global_constraint_filter inner cs) subtract indexed = refl

  count_in_range-length :
      (stages : List Stage) (a b : ℕ)
      → count_in_range x stages a b ≡ length (execute_sequence_in_range x false stages a b)
  unfolding count_in_range execute_sequence_in_range hits_of
  count_in_range-length stages a b =
      let active = x.hash_order (List ℕ) (run_sequence_steps x unlabeled stages a b) in
      sym (
        length-sort_hits hit_le
          (hits_of x (λ s. s) (λ s. []) (run_sequence_steps x unlabeled stages a b))
        ∙ length-entry_hits active)

  count_in_range-plain :
      (has_label : Bool) (stages : List Stage) (a b : ℕ)
      → has_label ≡ false
      → count_in_range x stages a b ≡ length (execute_sequence_in_range x has_label stages a b)
  count_in_range-plain has_label stages a b e = rw e (count_in_range-length stages a b)

  count_sequence-length :
      (steps : Steps) (stages : ℕ → ℕ → List Stage)
      → has_labels steps ≡ false
      → count_sequence x corpus steps stages ≡ length (execute_sequence x corpus steps stages)
  unfolding count_sequence execute_sequence
  count_sequence-length steps stages plain =
      let n = corpus.token_count in
      let in_range = λ (d : Span).
        execute_sequence_in_range x (has_labels steps) (stages d.start d.end) d.start d.end in
      let whole = count_in_range-plain (has_labels steps) (stages 0 n) 0 n plain in
      elim (Option-cases (spans corpus (codes "document"))) [
        | inl e ↦ ground (arith, whole)
        | inr (docs, e) ↦ elim (Bool-cases (ltb 1 (length docs) && benefits_from_parallel steps)) [
          | inl t ↦
              let each =
                length-flat_map in_range
                  (λ d. count_in_range x (stages d.start d.end) d.start d.end) docs
                  (λ d. sym (
                    count_in_range-plain (has_labels steps) (stages d.start d.end) d.start d.end
                      plain)) in
              ground (arith, each)
          | inr t ↦ ground (arith, whole)
        ]
      ]

-- A sequence has no labels; nothing is asked of another node.
abbrev pub IsPlain : PlanNode → Type 0
IsPlain (sequence_scan steps) = has_labels steps ≡ false
IsPlain _ = Unit {0}

-- If every position in the index is one of the corpus, and the hash maps of both executions iterate
-- in the same order, `count_node` returns the number of the hits that `execute_node` returns, or
-- fails with its error: for every node, except that a sequence at the root has no labels.
pub count_node-length :
    (x : Crates) (corpus : Corpus x.Bitmap) (node : PlanNode)
    → IsIndexed x corpus
    → IsPlain node
    → count_node x corpus node ≡ (execute_node x corpus node >>= λ hits. ok (length hits))
unfolding count_node execute_node
count_node-length x corpus (scan_literal layer value) indexed plain =
    count_literal x corpus layer value
count_node-length x corpus (scan_regex layer pattern) indexed plain =
    count_regex x corpus layer pattern
count_node-length x corpus scan_all indexed plain = count_all x corpus
count_node-length x corpus (difference base subtract) indexed plain =
    count_difference-hits x corpus base subtract indexed
count_node-length x corpus (sequence_scan steps) indexed plain =
    ap ok (count_sequence-length x corpus steps (build_stages x corpus steps) plain)
count_node-length x corpus (intersect nodes) indexed plain = refl
count_node-length x corpus (union nodes) indexed plain = refl
count_node-length x corpus (filter_by_span inner layer) indexed plain = refl
count_node-length x corpus (filter_by_component inner names) indexed plain = refl
count_node-length x corpus (filter_by_document inner names) indexed plain = refl
count_node-length x corpus (project_alignment inner name) indexed plain = refl
count_node-length x corpus (global_constraint_filter inner cs) indexed plain = refl
