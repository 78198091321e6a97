-- ===== src/Index/Spans.antt =====
-- crates/montre-index/src/spans.rs: `InMemorySpans`, the spans of each layer.
pub mod Layers
pub mod Finalize
pub mod Merge
use montre.Prelude.{
  ℕ, ◌+◌, Option, some, none, if◌then◌else◌, leb, Text, List, [], ◌∷◌, ◌++◌, map, get_elem?,
}
use montre.Core.{Span, span, span_containing}
use montre.Index.Corpus.{lookup}
use montre.Index.Maps.{or_default, remove_key, insert_key}

abbrev pub InMemorySpans : Type 0
InMemorySpans = List (Text × List Span)

unfoldable pub add_span : Text → Span → InMemorySpans → InMemorySpans
unfolding lookup remove_key
add_span layer s m = insert_key layer (or_default (lookup layer m) ++ s ∷ []) m

abbrev pub shift : ℕ → Span → Span
shift offset s = span (s.start + offset) (s.end + offset)

unfoldable pub merge_layers : ℕ → InMemorySpans → InMemorySpans → InMemorySpans
unfolding lookup remove_key
merge_layers offset [] m = m
merge_layers offset ((layer, spans) ∷ layers) m =
    merge_layers offset layers
      (insert_key layer (or_default (lookup layer m) ++ map (shift offset) spans) m)

-- `order` is the order in which the hash map iterates over the layers of the other index.
unfoldable pub merge_from :
    (InMemorySpans → InMemorySpans) → InMemorySpans → ℕ → InMemorySpans → InMemorySpans
unfolding merge_layers
merge_from order other offset m = merge_layers offset (order other) m

-- `sort_by_key(|s| s.start)`, which is stable.
unfoldable pub insert_span : Span → List Span → List Span
insert_span s [] = s ∷ []
insert_span s (t ∷ spans) = if leb s.start t.start then s ∷ t ∷ spans else t ∷ insert_span s spans

unfoldable pub sort_spans : List Span → List Span
unfolding insert_span
sort_spans [] = []
sort_spans (s ∷ spans) = insert_span s (sort_spans spans)

unfoldable pub finalize : InMemorySpans → InMemorySpans
unfolding sort_spans
finalize [] = []
finalize ((layer, spans) ∷ m) = (layer, sort_spans spans) ∷ finalize m

-- `(idx, &spans[idx])`: the index is one of the slice (`containing_iff` of Index.Spans.Layers).
abbrev pub with_span : List Span → ℕ → Option (ℕ × Span)
with_span spans i = elim (get_elem? spans i) [ none ↦ none | some s ↦ some (i, s) ]

unfoldable pub containing_with_index : InMemorySpans → Text → ℕ → Option (ℕ × Span)
unfolding lookup span_containing
containing_with_index m layer position = elim (lookup layer m) [
  | none ↦ none
  | some spans ↦ elim (span_containing spans position) [ none ↦ none | some i ↦ with_span spans i ]
]
