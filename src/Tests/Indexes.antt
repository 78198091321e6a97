-- ===== src/Tests/Indexes.antt =====
-- Small span indexes and inverted indexes, and the theorems about them.
use mathlib.Core.List.Permᴰ
use montre.Prelude.{
  ap, List, sort_dedup, Text, ◌⊎◌, ◌≡◌, ◌↔◌, refl, arith, inl, inr, ℕ, ◌+◌, some, codes, text_eq,
  [], ◌∷◌, ◌∈◌, length,
}
use montre.Core.{Span, span}
use montre.Core.Search.{Ordered, Around}
use montre.Index.Corpus.{lookup}
use montre.Core.{as_u32}
use montre.Index.Maps.Once.{Once}
use montre.Index.Inverted.{Values, InMemoryInverted, insert, merge_from}
use montre.Index.Inverted.Values.{positions}
use montre.Index.Inverted.Merge.{merge_from-positions}
use montre.Tests.Samples.{crates}
use montre.Index.Spans
use montre.Index.Spans.{InMemorySpans, shift, add_span, finalize, containing_with_index}
use montre.Index.Spans.Layers.{layer_spans}
use montre.Index.Spans.Finalize.{finalize-containing_with_index}
use montre.Index.Spans.Merge.{merge_from-containing_with_index}

abbrev unsorted : InMemorySpans
unsorted = (codes "sentence", span 5 12 ∷ span 0 5 ∷ []) ∷ []

abbrev one : InMemorySpans
one = (codes "sentence", span 0 5 ∷ []) ∷ []

adds :
    add_span (codes "sentence") (span 0 5) (add_span (codes "sentence") (span 5 12) []) ≡ unsorted
unfolding add_span text_eq
adds = refl

sorts : finalize unsorted ≡ ((codes "sentence", span 0 5 ∷ span 5 12 ∷ []) ∷ [])
unfolding finalize
sorts = refl

finds : containing_with_index (finalize unsorted) (codes "sentence") 7 ≡ some (1, span 5 12)
unfolding containing_with_index finalize text_eq
finds = refl

finds_in_one : containing_with_index one (codes "sentence") 4 ≡ some (0, span 0 5)
unfolding containing_with_index text_eq
finds_in_one = refl

merges : Spans.merge_from (λ m. m) one 5 one ≡ ((codes "sentence", span 0 5 ∷ span 5 10 ∷ []) ∷ [])
unfolding Spans.merge_from text_eq
merges = refl

unsorted_layer : layer_spans unsorted (codes "sentence") ≡ span 5 12 ∷ span 0 5 ∷ []
unfolding lookup text_eq
unsorted_layer = refl

one_layer : layer_spans one (codes "sentence") ≡ span 0 5 ∷ []
unfolding lookup text_eq
one_layer = refl

one-Once : Once one
unfolding lookup
one-Once = (refl, _)

finalize-containing_with_index_example :
    ((i : ℕ) × (containing_with_index (finalize unsorted) (codes "sentence") 7
        ≡ some (i, span 5 12)))
    ↔ ((span 5 12 ∈ layer_spans unsorted (codes "sentence")) × Around (span 5 12) 7)
finalize-containing_with_index_example =
    finalize-containing_with_index unsorted (codes "sentence") 7 (span 5 12) (
      rw unsorted_layer (
        omega arith,
        λ t m. elim m [ inl e ↦ inr (rw e (omega arith)) | inr n ↦ absurd n ],
        (omega arith, λ t m. absurd m, _),
      ))

merge_from-containing_with_index_example :
    let after = Spans.merge_from (λ m. m) one 5 one in
    Ordered 0 (layer_spans after (codes "sentence"))
    × ((position i : ℕ) (s : Span)
        → containing_with_index one (codes "sentence") position ≡ some (i, s)
        → containing_with_index after (codes "sentence") position ≡ some (i, s))
    × ((position i : ℕ) (s : Span)
        → containing_with_index one (codes "sentence") position ≡ some (i, s)
        → containing_with_index after (codes "sentence") (position + 5)
          ≡ some (length (layer_spans one (codes "sentence")) + i, shift 5 s))
merge_from-containing_with_index_example =
    merge_from-containing_with_index (λ m. m) one one 5 (codes "sentence") (Permᴰ.refl one) one-Once
      (rw one_layer (omega arith, omega arith, _)) (rw one_layer (omega arith, omega arith, _))
      (rw one_layer (omega arith, _))

abbrev words : InMemoryInverted crates
words = (codes "word", (codes "cat", 3 ∷ 0 ∷ []) ∷ []) ∷ []

abbrev same_order : (V : Type 0) → List (Text × V) → List (Text × V)
same_order V entries = entries

inserts : insert crates (codes "word") (codes "cat") (0 ∷ 3 ∷ []) [] ≡ words
unfolding insert text_eq
inserts = refl

merges_words :
    positions crates (merge_from crates same_order words 5 words) (codes "word") (codes "cat")
    ≡ 0 ∷ 3 ∷ 5 ∷ 8 ∷ []
unfolding merge_from text_eq sort_dedup
merges_words = refl

words-Once : Once words
unfolding lookup
words-Once = (refl, _)

each-Once : (layer : Text) (values : Values crates) → (layer, values) ∈ words → Once values
unfolding lookup
each-Once layer values (inl e) = rw (ap (λ x. x.1) e) (refl, _)
each-Once layer values (inr m) = absurd m

merge_from-positions_example :
    (8 ∈ positions crates (merge_from crates same_order words 5 words) (codes "word") (codes "cat"))
    ↔ ((8 ∈ positions crates words (codes "word") (codes "cat"))
        ⊎ ((q : ℕ) × (q ∈ positions crates words (codes "word") (codes "cat"))
            × (8 ≡ as_u32 (q + 5))))
merge_from-positions_example =
    merge_from-positions crates same_order words words 5 (codes "word") (codes "cat") 8
      (λ V entries. Permᴰ.refl entries) words-Once each-Once
