-- ===== src/Query/Alignment.antt =====
-- crates/montre-query/src/executor.rs: the units of an alignment. A unit is a sentence, counted
-- within its document, and a document is counted within its component.
pub mod RoundTrip
use montre.Prelude.{
  ℕ, zero, suc, ◌+◌, ◌-◌, leb, ltb, ◌==◌, if◌then◌else◌, Bool, true, false, ◌&&◌, ◌||◌, Option,
  some, none, List, [], ◌∷◌, ◌++◌, get_elem?, drop, partition_point,
}
use montre.Core.{as_u32, Span, UnitId, span_containing}
use montre.Index.Corpus.{ComponentMeta}

abbrev pub unit_eq : UnitId → UnitId → Bool
unit_eq (d, s) (d', s') = d == d' && s == s'

abbrev pub EdgeMap : Type 0
EdgeMap = List (UnitId × List UnitId)

-- `map.entry(source).or_default().push(target)`
unfoldable pub add_edge : UnitId → UnitId → EdgeMap → EdgeMap
add_edge source target [] = (source, target ∷ []) ∷ []
add_edge source target ((k, targets) ∷ edges) =
    if unit_eq k source
    then (k, targets ++ target ∷ []) ∷ edges
    else (k, targets) ∷ add_edge source target edges

unfoldable pub add_edges : List (UnitId × UnitId) → EdgeMap → EdgeMap
unfolding add_edge
add_edges [] edges = edges
add_edges ((source, target) ∷ rest) edges = add_edges rest (add_edge source target edges)

unfoldable pub build_edge_map : List (UnitId × UnitId) → EdgeMap
unfolding add_edges
build_edge_map edges = add_edges edges []

unfoldable pub targets_of : UnitId → EdgeMap → List UnitId
targets_of unit [] = []
targets_of unit ((k, targets) ∷ edges) = if unit_eq k unit then targets else targets_of unit edges

-- The loop of `find_doc_and_sent` over the sentences from the first of the document. The counter is
-- a `u32`; it stays below the number of sentences.
unfoldable pub find_sentence : Span → Span → ℕ → List Span → Option ℕ
find_sentence s doc count [] = none
find_sentence s doc count (sent ∷ rest) =
    let later = find_sentence s doc (if leb sent.end doc.end then count + 1 else count) rest in
    if leb doc.end sent.start
    then none
    else if leb sent.start s.start && leb s.end sent.end
    then some count
    else later

abbrev pub from_first : Span → List Span → List Span
from_first doc sents = drop (partition_point (λ s. ltb s.start doc.start) sents) sents

unfoldable pub find_doc_and_sent : Span → List Span → List Span → ComponentMeta → Option UnitId
unfolding find_sentence span_containing partition_point
find_doc_and_sent s docs sents comp = elim (span_containing docs s.start) [
  | none ↦ none
  | some doc ↦
      if ltb doc comp.first_document || leb comp.past_document doc
      then none
      else elim (get_elem? docs doc) [
        | none ↦ none
        | some d ↦
            if ltb d.end s.end then none else elim (find_sentence s d 0 (from_first d sents)) [
              | none ↦ none
              | some k ↦ some (as_u32 (doc - comp.first_document), k)
            ]
      ]
]

-- The loop of `resolve_target_span`.
unfoldable pub nth_sentence : Span → ℕ → ℕ → List Span → Option Span
nth_sentence doc target count [] = none
nth_sentence doc target count (sent ∷ rest) =
    let later = nth_sentence doc target (if leb sent.end doc.end then count + 1 else count) rest in
    if leb doc.end sent.start
    then none
    else if leb sent.end doc.end && count == target
    then some sent
    else later

unfoldable pub resolve_target_span : ℕ → ℕ → List Span → List Span → ComponentMeta → Option Span
unfolding nth_sentence partition_point
resolve_target_span doc sent docs sents comp = elim (get_elem? docs (comp.first_document + doc)) [
  | none ↦ none
  | some d ↦ nth_sentence d sent 0 (from_first d sents)
]
