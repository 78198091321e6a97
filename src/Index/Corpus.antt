-- ===== src/Index/Corpus.antt =====
-- crates/montre-index/src/corpus.rs and inverted.rs: the parts of a corpus that a query reads.
use montre.Prelude.{
  ℕ, ◌+◌, ◌-◌, ◌==◌, Text, codes, text_eq, List, [], ◌∷◌, Option, some, none, Bool, true, false,
  ◌&&◌, if◌then◌else◌, leb, ltb, find, get_elem?, drop, partition_point,
}
use montre.Core.{Span, UnitId, span_containing}

pub record ComponentMeta : Type 0 where
  pub id : ℕ
  pub name : Text
  pub language : Text
  -- `document_range`, half open
  pub first_document : ℕ
  pub past_document : ℕ

pub record AlignmentMeta : Type 0 where
  pub name : Text
  pub source_component : Text
  pub target_component : Text
  pub source_layer : Text
  pub target_layer : Text
  pub directed : Bool
  pub edge_count : ℕ

-- A hash map with text keys.
unfoldable pub lookup {ℓ} : {V : Type ℓ} → Text → List (Text × V) → Option V
lookup k [] = none
lookup k ((j, v) ∷ m) = if text_eq j k then some v else lookup k m

abbrev pub keys {ℓ} : {V : Type ℓ} → List (Text × V) → List Text
keys [] = []
keys ((j, v) ∷ m) = j ∷ keys m

-- `bitmap` is the type of posting lists. `forward` is `get_str` of the forward store.
pub record Corpus (Bitmap : Type 0) : Type 0 where
  pub token_count : ℕ
  pub document_names : List Text
  pub components : List ComponentMeta
  pub alignments : List AlignmentMeta
  pub inverted : List (Text × List (Text × Bitmap))
  pub forward : ℕ → Text → Option Text
  pub span_index : List (Text × List Span)
  pub alignment_index : List (Text × List (UnitId × UnitId))

module _ {B : Type 0} (c : Corpus B) where
  -- `InMemoryInverted::get` and `values`.
  unfoldable pub inverted_get : Text → Text → Option B
  unfolding lookup
  inverted_get layer value = elim (lookup layer c.inverted) [
    | none ↦ none
    | some values ↦ lookup value values
  ]

  unfoldable pub inverted_values : Text → Option (List Text)
  unfolding lookup
  inverted_values layer = elim (lookup layer c.inverted) [
    | none ↦ none
    | some values ↦ some (keys values)
  ]

  unfoldable pub spans : Text → Option (List Span)
  unfolding lookup
  spans layer = lookup layer c.span_index

  unfoldable pub component : Text → Option ComponentMeta
  component name = find (λ m. text_eq m.name name) c.components

  unfoldable pub alignment_meta : Text → Option AlignmentMeta
  alignment_meta name = find (λ a. text_eq a.name name) c.alignments

  unfoldable pub alignment_edges : Text → Option (List (UnitId × UnitId))
  unfolding lookup
  alignment_edges name = lookup name c.alignment_index

  unfoldable pub component_for_document : ℕ → Option ComponentMeta
  component_for_document doc =
      find (λ m. leb m.first_document doc && ltb doc m.past_document) c.components

  unfoldable pub document_span : ℕ → Option Span
  unfolding spans
  document_span doc = elim (spans (codes "document")) [
    | none ↦ none
    | some docs ↦ get_elem? docs doc
  ]

  unfoldable pub sentence_span : ℕ → Option Span
  unfolding spans
  sentence_span sent = elim (spans (codes "sentence")) [
    | none ↦ none
    | some sents ↦ get_elem? sents sent
  ]

  unfoldable pub document_for_position : ℕ → Option ℕ
  unfolding spans span_containing
  document_for_position position = elim (spans (codes "document")) [
    | none ↦ none
    | some docs ↦ span_containing docs position
  ]

  unfoldable pub document_for_sentence : ℕ → Option ℕ
  unfolding sentence_span document_for_position
  document_for_sentence sent = elim (sentence_span sent) [
    | none ↦ none
    | some s ↦ document_for_position s.start
  ]

-- The scan of `sentences_in_document` from its first sentence: the sentences that end inside.
unfoldable pub sentences_from : Span → ℕ → List Span → List (ℕ × Span)
sentences_from doc i [] = []
sentences_from doc i (s ∷ rest) = elim (leb doc.end s.start) [
  | true ↦ []
  | false ↦ elim (leb s.end doc.end) [
    | true ↦ (i, s) ∷ sentences_from doc (i + 1) rest
    | false ↦ sentences_from doc (i + 1) rest
  ]
]

module _ {B : Type 0} (c : Corpus B) where
  unfoldable pub first_sentence_of_document : ℕ → Option ℕ
  unfolding document_span partition_point
  first_sentence_of_document doc = elim (document_span c doc) [
    | none ↦ none
    | some d ↦ elim (spans c (codes "sentence")) [
      | none ↦ none
      | some sents ↦
          let first = partition_point (λ s. ltb s.start d.start) sents in
          elim (get_elem? sents first) [
            | none ↦ none
            | some s ↦ if leb d.end s.start then none else some first
          ]
    ]
  ]

  unfoldable pub last_sentence_of_document : ℕ → Option ℕ
  unfolding document_span partition_point
  last_sentence_of_document doc = elim (document_span c doc) [
    | none ↦ none
    | some d ↦ elim (spans c (codes "sentence")) [
      | none ↦ none
      | some sents ↦
          let after = partition_point (λ s. ltb s.start d.end) sents in
          if after == 0 then none else elim (get_elem? sents (after - 1)) [
            | none ↦ none
            | some s ↦ if ltb s.start d.start then none else some (after - 1)
          ]
    ]
  ]

  unfoldable pub sentences_in_document : ℕ → Option (List (ℕ × Span))
  unfolding document_span partition_point sentences_from
  sentences_in_document doc = elim (document_span c doc) [
    | none ↦ none
    | some d ↦ elim (spans c (codes "sentence")) [
      | none ↦ none
      | some sents ↦
          let first = partition_point (λ s. ltb s.start d.start) sents in
          some (sentences_from d first (drop first sents))
    ]
  ]
