-- ===== src/Index/Spans/Finalize.antt =====
-- crates/montre-index/src/spans.rs: spans that are added in any order are found after finalize.
use montre.Prelude.{
  ◌≡◌, ◌↔◌, ◌⊎◌, refl, subst, inl, inr, arith, ℕ, ◌≤◌, ◌<◌, leb, leb→le, leb→gt, Bool-cases, some,
  Text, text_eq, List, [], ◌∷◌, ◌∈◌, get_elem?-mem, mem-get_elem?,
}
use montre.Core.{Span}
use montre.Core.Search.{Ordered, Around}
use montre.Index.Corpus.{lookup}
use montre.Index.Spans.{InMemorySpans, insert_span, sort_spans, finalize, containing_with_index}
use montre.Index.Spans.Layers.{layer_spans, containing_iff}

abbrev pub Apart : Span → Span → Type 0
Apart s t = (s.end ≤ t.start) ⊎ (t.end ≤ s.start)

-- The spans are not empty and do not overlap, in whatever order they stand.
abbrev pub AllApart : List Span → Type 0
AllApart [] = Unit {0}
AllApart (s ∷ spans) = (s.start < s.end) × ((t : Span) → t ∈ spans → Apart s t) × AllApart spans

mem-insert_span :
    (s t : Span) (spans : List Span) → (s ∈ insert_span t spans) ↔ ((s ≡ t) ⊎ (s ∈ spans))
unfolding insert_span
mem-insert_span s t [] = ground arith
mem-insert_span s t (u ∷ spans) = ground (arith, mem-insert_span s t spans)

mem-sort_spans : (s : Span) (spans : List Span) → (s ∈ sort_spans spans) ↔ (s ∈ spans)
unfolding sort_spans
mem-sort_spans s [] = ground arith
mem-sort_spans s (t ∷ spans) =
    ground (arith, mem-insert_span s t (sort_spans spans), mem-sort_spans s spans)

insert_span-Ordered :
    (n : ℕ) (s : Span) (spans : List Span)
    → n ≤ s.start
    → s.start < s.end
    → ((t : Span) → t ∈ spans → (t.start < t.end) × Apart s t)
    → Ordered n spans
    → Ordered n (insert_span s spans)
unfolding insert_span
insert_span-Ordered n s [] h k apart o = ground arith
insert_span-Ordered n s (t ∷ spans) h k apart (a, b, o) =
    let (full, side) = apart t (inl refl) in
    elim (Bool-cases (leb s.start t.start)) [
      | inl e ↦ let le = leb→le s.start t.start e in rw e (h, omega arith, (ground arith, b, o))
      | inr e ↦
          let gt = leb→gt s.start t.start e in
          rw e (a, b, insert_span-Ordered t.end s spans (ground arith) k (λ u m. apart u (inr m)) o)
    ]

AllApart-mem : (s : Span) (spans : List Span) → AllApart spans → s ∈ spans → s.start < s.end
AllApart-mem s [] apart m = absurd m
AllApart-mem s (t ∷ spans) (full, _, rest) (inl e) = rw e full
AllApart-mem s (t ∷ spans) (full, _, rest) (inr m) = AllApart-mem s spans rest m

sort_spans-Ordered : (spans : List Span) → AllApart spans → Ordered 0 (sort_spans spans)
unfolding sort_spans
sort_spans-Ordered [] apart = apart
sort_spans-Ordered (s ∷ spans) (full, apart, rest) =
    insert_span-Ordered 0 s (sort_spans spans) (omega arith) full
      (λ t m. let k = (mem-sort_spans t spans).0 m in (AllApart-mem t spans rest k, apart t k))
      (sort_spans-Ordered spans rest)

layer_spans-finalize :
    (m : InMemorySpans) (layer : Text)
    → layer_spans (finalize m) layer ≡ sort_spans (layer_spans m layer)
unfolding finalize lookup
layer_spans-finalize [] layer = refl
layer_spans-finalize ((j, spans) ∷ m) layer = elim (Bool-cases (text_eq j layer)) [
  | inl e ↦ rw e refl
  | inr e ↦ rw e (layer_spans-finalize m layer)
]

-- Where the spans of a layer are not empty and do not overlap, in whatever order they were added,
-- the lookup after finalize finds a span at a position exactly if it is a span of the layer and
-- around the position.
pub finalize-containing_with_index :
    (m : InMemorySpans) (layer : Text) (position : ℕ) (s : Span)
    → AllApart (layer_spans m layer)
    → ((i : ℕ) × (containing_with_index (finalize m) layer position ≡ some (i, s)))
      ↔ ((s ∈ layer_spans m layer) × Around s position)
finalize-containing_with_index m layer position s apart =
    let spans = layer_spans m layer in
    let e = layer_spans-finalize m layer in
    let o : Ordered 0 (layer_spans (finalize m) layer) = rw e (sort_spans-Ordered spans apart) in
    (
      λ (i, f).
          let (g, around) = (containing_iff 0 (finalize m) layer position i s o).0 f in
          (
            (mem-sort_spans s spans).0
                (subst (λ xs. s ∈ xs) e (get_elem?-mem (layer_spans (finalize m) layer) i g)),
            around,
          ),
      λ (k, around).
          let (i, g) =
            mem-get_elem? (layer_spans (finalize m) layer) s
              (rw e ((mem-sort_spans s spans).1 k)) in
          (i, (containing_iff 0 (finalize m) layer position i s o).1 (g, around)),
    )
