-- ===== src/Daemon/Interests/Projection.antt =====
-- crates/montre-daemon/src/handlers/alignment.rs: `project_alignment`.
use montre.Prelude.{
  ℕ, zero, suc, ◌+◌, ◌-◌, ◌==◌, leb, ltb, min, if◌then◌else◌, Bool, ◌&&◌, ◌||◌, Option, some, none,
  Text, codes, List, [], ◌∷◌, ◌++◌, any, get_elem?,
}
use montre.Core.{as_u32, Span, UnitId}
use montre.Index.Corpus.{
  Corpus, spans, component, alignment_meta, alignment_edges, first_sentence_of_document,
  last_sentence_of_document,
}
use montre.Query.Alignment.{unit_eq}
use montre.Daemon.Protocol.{ProtocolError, alignment_not_found, span_outside_alignment, internal}
use montre.Daemon.State.{Outcome, done, failed}

-- `AlignmentTarget`: a document, and a span.
abbrev pub Target : Type 0
Target = ℕ × ℕ × ℕ

abbrev pub target_eq : Target → Target → Bool
target_eq (d, s, e) (d', s', e') = d == d' && s == s' && e == e'

infixl 5 ◌>>=◌
abbrev pub ◌>>=◌ : {A B : Type 0} → Outcome A → (A → Outcome B) → Outcome B
done a >>= f = f a
failed e >>= f = failed e

-- `ok_or_else`.
abbrev pub or_fail : {A : Type 0} → Option A → ProtocolError → Outcome A
or_fail (some a) e = done a
or_fail none e = failed e

-- The loop `for global_idx in first_sent..=last_sent`, with the number of rounds left.
unfoldable pub overlapping_sents : List Span → ℕ → ℕ → ℕ → ℕ → ℕ → Outcome (List ℕ)
overlapping_sents sents first start end zero global = done []
overlapping_sents sents first start end (suc n) global = do
  s ← or_fail (get_elem? sents global) internal
  rest ← overlapping_sents sents first start end n (global + 1)
  done (if ltb start s.end && ltb s.start end then as_u32 (global - first) ∷ rest else rest)

-- `target_global_doc`: a saturating sum of two 32-bit numbers.
abbrev pub global_doc : ℕ → ℕ → ℕ
global_doc first doc = min (as_u32 first + doc) 4294967295

module _ {B : Type 0} (corpus : Corpus B) (sents : List Span) (first_document : ℕ) where
  -- The span that the target of an edge names.
  unfoldable pub target_of : UnitId → Outcome Target
  unfolding first_sentence_of_document
  target_of (doc, sent) = do
    first ← or_fail (first_sentence_of_document corpus (global_doc first_document doc)) internal
    s ← or_fail (get_elem? sents (first + sent)) internal
    done (global_doc first_document doc, s.start, s.end)

  -- The loop over the edges, for one source unit. A target that is there already is not added.
  unfoldable pub add_targets : UnitId → List (UnitId × UnitId) → List Target → Outcome (List Target)
  unfolding target_of
  add_targets unit [] targets = done targets
  add_targets unit ((source, target) ∷ edges) targets =
      if unit_eq source unit
      then (target_of target >>= λ t.
          add_targets unit edges (if any (target_eq t) targets then targets else targets ++ t ∷ []))
      else add_targets unit edges targets

  unfoldable pub project_sents :
      ℕ → List (UnitId × UnitId) → List ℕ → List Target → Outcome (List Target)
  unfolding add_targets
  project_sents doc edges [] targets = done targets
  project_sents doc edges (sent ∷ rest) targets =
      add_targets (doc, sent) edges targets >>= λ more. project_sents doc edges rest more

abbrev or_no_edges : Option (List (UnitId × UnitId)) → List (UnitId × UnitId)
or_no_edges none = []
or_no_edges (some edges) = edges

module _ {B : Type 0} (corpus : Corpus B) where
  unfoldable pub project_alignment : Text → ℕ → ℕ → ℕ → Outcome (List Target)
  unfolding alignment_meta component spans alignment_edges first_sentence_of_document
      last_sentence_of_document overlapping_sents project_sents
  project_alignment name doc start end = do
    meta ← or_fail (alignment_meta corpus name) alignment_not_found
    source ← or_fail (component corpus meta.source_component) internal
    target ← or_fail (component corpus meta.target_component) internal
    if ltb doc source.first_document || leb source.past_document doc
        then failed span_outside_alignment
        else (do
          first ← or_fail (first_sentence_of_document corpus doc) internal
          last ← or_fail (last_sentence_of_document corpus doc) internal
          sents ← or_fail (spans corpus (codes "sentence")) internal
          hit ← overlapping_sents sents first start end (last + 1 - first) first
          let edges = or_no_edges (alignment_edges corpus name)
          project_sents corpus sents target.first_document (as_u32 (doc - source.first_document))
              edges hit [])
