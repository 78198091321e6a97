-- ===== src/Query/Alignment/RoundTrip.antt =====
-- The unit that `find_doc_and_sent` finds for a span resolves to the sentence around the span.
use montre.Prelude.{
  ℕ, zero, suc, ◌+◌, ◌-◌, ◌≤◌, ◌<◌, ◌≡◌, refl, inl, inr, arith, leb, Bool-cases, Option-cases, ◌&&◌,
  some, List, [], ◌∷◌, ◌∈◌, get_elem?, get_elem?-mem, drop, leb→gt,
}
use montre.Core.{as_u32, Span, UnitId, span_containing}
use montre.Index.Corpus.{ComponentMeta}
use montre.Query.Alignment.{
  find_sentence, find_doc_and_sent, nth_sentence, resolve_target_span, from_first,
}

abbrev pub Covers : Span → Span → Type 0
Covers outer inner = (outer.start ≤ inner.start) × (inner.end ≤ outer.end)

-- No sentence crosses the end of the document.
abbrev pub Nested : Span → List Span → Type 0
Nested doc sents = (s : Span) → s ∈ sents → s.start < doc.end → s.end ≤ doc.end

mem-drop : (n : ℕ) (s : Span) (spans : List Span) → s ∈ drop n spans → s ∈ spans
mem-drop zero s spans m = m
mem-drop (suc n) s [] m = m
mem-drop (suc n) s (t ∷ spans) m = inr (mem-drop n s spans m)

nth-find :
    (s doc : Span) (count k : ℕ) (sents : List Span)
    → Nested doc sents
    → find_sentence s doc count sents ≡ some k
    → (count ≤ k)
      × ((t : Span) × (nth_sentence doc k count sents ≡ some t) × Covers t s × (t ∈ sents))
unfolding find_sentence nth_sentence
nth-find s doc count k [] nested e = absurd (ground arith)
nth-find s doc count k (t ∷ sents) nested e = elim (Bool-cases (leb doc.end t.start)) [
  | inl past ↦ absurd (ground arith)
  | inr before ↦
      let ends = nested t (inl refl) (leb→gt doc.end t.start before) in
      elim (Bool-cases (leb t.start s.start && leb s.end t.end)) [
        | inl here ↦ (ground arith, (t, ground arith, (ground arith, ground arith), inl refl))
        | inr other ↦
            let (le, (u, f, c, m)) =
              nth-find s doc (count + 1) k sents (λ v mv. nested v (inr mv)) (ground arith) in
            (omega arith, (u, ground arith, c, inr m))
      ]
]

-- What a success of `find_doc_and_sent` went through.
record Located (s : Span) (docs sents : List Span) (comp : ComponentMeta) (unit : UnitId)
    : Type 0 where
  index : ℕ
  around : span_containing docs s.start ≡ some index
  lower : comp.first_document ≤ index
  upper : index < comp.past_document
  doc : Span
  read : get_elem? docs index ≡ some doc
  sentence : find_sentence s doc 0 (from_first doc sents) ≡ some (unit.1)
  number : unit.0 ≡ as_u32 (index - comp.first_document)

find_doc_and_sent-Located :
    (s : Span) (docs sents : List Span) (comp : ComponentMeta) (unit : UnitId)
    → find_doc_and_sent s docs sents comp ≡ some unit
    → Located s docs sents comp unit
unfolding find_doc_and_sent
find_doc_and_sent-Located s docs sents comp unit e =
    elim (Option-cases (span_containing docs s.start)) [
      | inl f ↦ absurd (ground arith)
      | inr (i, f) ↦ elim (Option-cases (get_elem? docs i)) [
        | inl g ↦ absurd (ground arith)
        | inr (d, g) ↦ elim (Option-cases (find_sentence s d 0 (from_first d sents))) [
          | inl h ↦ absurd (ground arith)
          | inr (k, h) ↦ record {
            index = i;
            around = f;
            lower = ground arith;
            upper = ground arith;
            doc = d;
            read = g;
            sentence = ground arith;
            number = ground arith;
          }
        ]
      ]
    ]

-- Where no sentence crosses the end of a document and the component's documents are counted in 32
-- bits, the unit that `find_doc_and_sent` finds for a span resolves, by `resolve_target_span` in the
-- same component and layer, to a sentence of the layer that covers the span.
pub resolve-find :
    (s : Span) (docs sents : List Span) (comp : ComponentMeta) (doc sent : ℕ)
    → ((d : Span) → d ∈ docs → Nested d sents)
    → comp.past_document ≤ 4294967296
    → find_doc_and_sent s docs sents comp ≡ some (doc, sent)
    → (t : Span) × (resolve_target_span doc sent docs sents comp ≡ some t)
      × Covers t s
      × (t ∈ sents)
unfolding resolve_target_span
resolve-find s docs sents comp doc sent nested small e =
    let at = find_doc_and_sent-Located s docs sents comp (doc, sent) e in
    let tail = from_first at.doc sents in
    let inner : Nested at.doc tail =
      λ t m. nested at.doc (get_elem?-mem docs at.index at.read) t (mem-drop _ t sents m) in
    let (le, (t, f, c, m)) = nth-find s at.doc 0 sent tail inner at.sentence in
    let same : comp.first_document + doc ≡ at.index =
      omega (arith, at.number, at.lower, at.upper) in
    (t, ground (arith, same, at.read, f), c, mem-drop _ t sents m)
