-- ===== src/Query/Context.antt =====
-- crates/montre-query/src/executor.rs: the document and the sentence of each hit.
use montre.Prelude.{ℕ, none, some, codes, List, map}
use montre.Core.{as_u32, Span, span_containing}
use montre.Index.Corpus.{Corpus, spans}
use montre.Query.Sequence.Hits.{Hit, unpopulated}

-- The index of the span around the start of a hit.
unfoldable pub context_index : List Span → Hit → ℕ
unfolding span_containing
context_index layer hit = elim (span_containing layer hit.span.start) [
  | none ↦ unpopulated
  | some i ↦ as_u32 i
]

module _ {B : Type 0} (corpus : Corpus B) where
  unfoldable pub populate_hit : Hit → Hit
  unfolding spans context_index
  populate_hit hit =
      let in_document : Hit = elim (spans corpus (codes "document")) [
        | none ↦ hit
        | some docs ↦ record hit { document_index = context_index docs hit }
      ] in
      elim (spans corpus (codes "sentence")) [
        | none ↦ in_document
        | some sents ↦ record in_document { sentence_index = context_index sents hit }
      ]

  unfoldable pub populate_context : List Hit → List Hit
  unfolding populate_hit
  populate_context hits = map populate_hit hits
