-- ===== src/Query/Filter/Kept.antt =====
-- What the filters of `execute_node` keep: hits inside of one span of a layer.
use montre.Prelude.{
  ℕ, ◌+◌, ◌≤◌, ◌≡◌, refl, ◌↔◌, ◌⊎◌, inl, inr, arith, Bool, Option-cases, true, false, some, Text,
  codes, List, [], ◌∷◌, ◌∈◌, keep, mem-keep, get_elem?,
}
use montre.Core.{Span, span_containing}
use montre.Core.Search.{Ordered, Around, span_containing-some, span_containing-Around}
use montre.Index.Corpus.{Corpus, spans}
use montre.Query.Sequence.Hits.{Hit}
use montre.Query.Filter.{
  ends_inside, matching_documents, contains_pos, filter_by_span_hits, named_components,
  has_document, filter_by_component_hits, filter_by_document_hits,
}
use montre.Query.Executor.Sets.{contains_pos_iff}
use montre.Query.Filter.Names.{
  IsNamed, mem-matching_documents, InComponent, has_document-InComponent,
}

-- The hit lies in the span of the layer with the index.
abbrev pub LiesIn : List Span → Hit → ℕ → Type 0
LiesIn layer h i =
    (s : Span) × (get_elem? layer i ≡ some s) × Around s h.span.start × (h.span.end ≤ s.end)

module _ (n : ℕ) (layer : List Span) (ordered : Ordered n layer) where
  ends_inside-LiesIn :
      (test : ℕ → Bool) (h : Hit)
      → (ends_inside layer test h ≡ true) ↔ ((i : ℕ) × LiesIn layer h i × (test i ≡ true))
  unfolding ends_inside
  ends_inside-LiesIn test h = (sound, complete)
    where
      sound : ends_inside layer test h ≡ true → (i : ℕ) × LiesIn layer h i × (test i ≡ true)
      sound e = elim (Option-cases (span_containing layer h.span.start)) [
        | inl f ↦ absurd (ground arith)
        | inr (i, f) ↦
            let (s, g, around) = span_containing-some n layer h.span.start ordered i f in
            (i, (s, g, around, ground arith), ground arith)
      ]

      complete : (i : ℕ) × LiesIn layer h i × (test i ≡ true) → ends_inside layer test h ≡ true
      complete (i, (s, g, around, le), t) =
          let f = ((span_containing-Around n layer h.span.start ordered).0 i s g).1 around in
          ground (arith, f, g)

  keep-LiesIn :
      (test : ℕ → Bool) (h : Hit) (hits : List Hit)
      → (h ∈ keep (ends_inside layer test) hits)
        ↔ ((h ∈ hits) × ((i : ℕ) × LiesIn layer h i × (test i ≡ true)))
  keep-LiesIn test h hits =
      let kept = mem-keep (ends_inside layer test) h hits in
      let inside = ends_inside-LiesIn test h in
      (λ m. let (k, e) = kept.0 m in (k, inside.0 e), λ (k, l). kept.1 (k, inside.1 l))

  -- A filter that keeps the hits of the selected spans, or nothing where none is selected.
  filtered-LiesIn :
      (test : ℕ → Bool) (P : ℕ → Type 0) (h : Hit) (hits filtered : List Hit)
      → ((i : ℕ) → (test i ≡ true) ↔ P i)
      → (filtered ≡ keep (ends_inside layer test) hits)
        ⊎ ((filtered ≡ []) × ((i : ℕ) → test i ≡ false))
      → (h ∈ filtered) ↔ ((h ∈ hits) × ((i : ℕ) × LiesIn layer h i × P i))
  filtered-LiesIn test P h hits filtered selects (inl e) =
      let kept = keep-LiesIn test h hits in
      rw e (
        λ m. let (k, (i, l, s)) = kept.0 m in (k, (i, l, (selects i).0 s)),
        λ (k, (i, l, s)). kept.1 (k, (i, l, (selects i).1 s)),
      )
  filtered-LiesIn test P h hits filtered selects (inr (e, nowhere)) =
      rw e (λ m. absurd m, λ (k, (i, l, s)). absurd (cc ((selects i).1 s, nowhere i)))

List-cases : {A : Type 0} (xs : List A) → (xs ≡ []) ⊎ ((y : A) × (ys : List A) × (xs ≡ y ∷ ys))
List-cases [] = inl refl
List-cases (x ∷ xs) = inr (x, xs, refl)

-- A hit passes `FilterBySpan` on a layer of ordered, disjoint spans exactly when it lies in one of
-- them.
pub filter_by_span_hits-LiesIn :
    {B : Type 0} (corpus : Corpus B) (layer : Text) (ss : List Span) (n : ℕ) (h : Hit)
    (hits : List Hit)
    → spans corpus layer ≡ some ss
    → Ordered n ss
    → (h ∈ filter_by_span_hits corpus layer hits) ↔ ((h ∈ hits) × ((i : ℕ) × LiesIn ss h i))
unfolding filter_by_span_hits
filter_by_span_hits-LiesIn corpus layer ss n h hits e ordered =
    let kept = keep-LiesIn n ss ordered (λ i. true) h hits in
    let same : filter_by_span_hits corpus layer hits ≡ keep (ends_inside ss (λ i. true)) hits =
      ground arith in
    rw same
      (λ m. let (k, (i, l, t)) = kept.0 m in (k, (i, l)), λ (k, (i, l)). kept.1 (k, (i, l, refl)))

-- Where the documents are ordered and disjoint, a hit passes `FilterByDocument` exactly when it lies
-- in a document with one of the names.
pub filter_by_document_hits-IsNamed :
    {B : Type 0} (corpus : Corpus B) (wanted : List Text) (docs : List Span) (n : ℕ) (h : Hit)
    (hits : List Hit)
    → spans corpus (codes "document") ≡ some docs
    → Ordered n docs
    → (h ∈ filter_by_document_hits corpus wanted hits)
      ↔ ((h ∈ hits) × ((i : ℕ) × LiesIn docs h i × IsNamed corpus.document_names wanted i))
unfolding filter_by_document_hits
filter_by_document_hits-IsNamed corpus wanted docs n h hits e ordered =
    let selected = matching_documents 0 wanted corpus.document_names in
    filtered-LiesIn n docs ordered (contains_pos selected) (IsNamed corpus.document_names wanted) h
      hits (filter_by_document_hits corpus wanted hits)
      (λ i.
        let numbered = mem-matching_documents 0 i wanted corpus.document_names in
        let shift : 0 + i ≡ i = omega arith in
        let found = contains_pos_iff selected i in
        (λ t. numbered.0 (rw shift (found.0 t)), λ k. found.1 (rw shift at numbered.1 k)))
      (elim (List-cases selected) [
        | inl f ↦ inr (ground arith, λ i. rw f refl)
        | inr (d, ds, f) ↦ inl (ground arith)
      ])

-- Where the documents are ordered and disjoint, a hit passes `FilterByComponent` exactly when it lies
-- in a document of one of the named components.
pub filter_by_component_hits-InComponent :
    {B : Type 0} (corpus : Corpus B) (names : List Text) (docs : List Span) (n : ℕ) (h : Hit)
    (hits : List Hit)
    → spans corpus (codes "document") ≡ some docs
    → Ordered n docs
    → (h ∈ filter_by_component_hits corpus names hits)
      ↔ ((h ∈ hits) × ((i : ℕ) × LiesIn docs h i × InComponent corpus names i))
unfolding filter_by_component_hits
filter_by_component_hits-InComponent corpus names docs n h hits e ordered =
    let metas = named_components corpus names in
    filtered-LiesIn n docs ordered (has_document corpus metas) (InComponent corpus names) h hits
      (filter_by_component_hits corpus names hits) (has_document-InComponent corpus names)
      (elim (List-cases metas) [
        | inl f ↦ inr (ground arith, λ i. rw f refl)
        | inr (m, ms, f) ↦ inl (ground arith)
      ])
