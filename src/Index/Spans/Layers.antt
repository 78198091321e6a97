-- ===== src/Index/Spans/Layers.antt =====
-- crates/montre-index/src/spans.rs: the lookup of a layer whose spans are in order.
use montre.Prelude.{
  ◌≡◌, ◌↔◌, refl, ap, inl, inr, ℕ, Option, Option-cases, some, none, some-eq-some, Text, List,
  get_elem?,
}
use montre.Core.{Span, span_containing}
use montre.Core.Search.{Ordered, Around, span_containing-Around}
use montre.Index.Corpus.{lookup}
use montre.Index.Maps.{or_default}
use montre.Index.Spans.{InMemorySpans, containing_with_index, with_span}

-- The spans of a layer; none where the layer is missing.
abbrev pub layer_spans : InMemorySpans → Text → List Span
layer_spans m layer = or_default (lookup layer m)

-- What the search in a layer finds.
abbrev pub found_in : List Span → ℕ → Option (ℕ × Span)
found_in spans position = elim (span_containing spans position) [
  | none ↦ none
  | some i ↦ with_span spans i
]

containing_with_index-found_in :
    (m : InMemorySpans) (layer : Text) (position : ℕ)
    → containing_with_index m layer position ≡ found_in (layer_spans m layer) position
unfolding containing_with_index
containing_with_index-found_in m layer position = elim (Option-cases (lookup layer m)) [
  | inl e ↦ rw (containing_with_index, e, span_containing) refl
  | inr (spans, e) ↦ rw (containing_with_index, e) refl
]

found_in_iff :
    (n : ℕ) (spans : List Span) (position i : ℕ) (s : Span)
    → Ordered n spans
    → (found_in spans position ≡ some (i, s)) ↔ ((get_elem? spans i ≡ some s) × Around s position)
found_in_iff n spans position i s o =
    let (found, _) = span_containing-Around n spans position o in
    (
      λ e. elim (Option-cases (span_containing spans position)) [
        | inl f ↦ let none_found = rw (found_in, f) at e in cc
        | inr (j, f) ↦ elim (Option-cases (get_elem? spans j)) [
          | inl g ↦ let none_found = rw (found_in, f, with_span, g) at e in cc
          | inr (t, g) ↦
              let same = some-eq-some (rw (found_in, f, with_span, g) at e) in
              let same_index : j ≡ i = ap (λ x. x.0) same in
              let same_span : t ≡ s = ap (λ x. x.1) same in
              let around = (found j t g).0 f in
              (rw (← same_index, ← same_span) g, rw (← same_span) around)
        ]
      ],
      λ (g, around). rw (found_in, (found i s g).1 around, with_span, g) refl,
    )

-- Where the spans of a layer are in order, the lookup finds exactly the span around a position.
pub containing_iff :
    (n : ℕ) (m : InMemorySpans) (layer : Text) (position i : ℕ) (s : Span)
    → Ordered n (layer_spans m layer)
    → (containing_with_index m layer position ≡ some (i, s))
      ↔ ((get_elem? (layer_spans m layer) i ≡ some s) × Around s position)
containing_iff n m layer position i s o =
    rw (containing_with_index-found_in m layer position)
      (found_in_iff n (layer_spans m layer) position i s o)
