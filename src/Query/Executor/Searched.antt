-- ===== src/Query/Executor/Searched.antt =====
-- The ranges that a sequence is searched in, and the hits of each.
use montre.Prelude.{
  ℕ, ◌≤◌, ◌≡◌, refl, ◌↔◌, ◌⊎◌, inl, inr, arith, Bool-cases, Option-cases, Bool, true, false, ◌&&◌,
  some, none, codes, List, [], ◌∷◌, ◌∈◌, flat_map, length, ltb, subst, if◌then◌else◌,
}
use montre.Core.{Span, span}
use montre.Index.{Crates}
use montre.Index.Corpus.{Corpus, spans}
use montre.Query.Plan.{Steps}
use montre.Query.Sequence.{Stage, Captured, Tracker, run_sequence_steps, labeled, unlabeled}
use montre.Query.Sequence.Entries.{HasStart}
use montre.Query.Sequence.Hits.{
  Hit, hit_le, hits_of, has_labels, benefits_from_parallel, execute_sequence_in_range,
  execute_sequence,
}
use montre.Query.Sequence.Spans.{HasHit, HasHit-append, HasHit-sort_hits, HasHit-hits_of}
use montre.Query.Executor.{build_stages}

module _ (x : Crates) (corpus : Corpus x.Bitmap) (steps : Steps) where
  -- The ranges that are searched one by one: the documents, or the whole corpus.
  unfoldable pub ranges : List Span
  unfolding spans benefits_from_parallel
  ranges = elim (spans corpus (codes "document")) [
    | none ↦ span 0 corpus.token_count ∷ []
    | some docs ↦
        if ltb 1 (length docs) && benefits_from_parallel steps
        then docs
        else span 0 corpus.token_count ∷ []
  ]

  abbrev pub hits_in : Span → List Hit
  hits_in r =
      execute_sequence_in_range x (has_labels steps) (build_stages x corpus steps r.start r.end)
        r.start r.end

  HasHit-one :
      (r : Span) (s e : ℕ) → HasHit (hits_in r) s e ↔ HasHit (flat_map hits_in (r ∷ [])) s e
  HasHit-one r s e = ground (arith, HasHit-append (hits_in r) [] s e)

  abbrev whole : Span
  whole = span 0 corpus.token_count

  -- The hits of the whole corpus, or those of each document.
  execute_sequence-cases :
      (execute_sequence x corpus steps (build_stages x corpus steps) ≡ hits_in whole)
        × (ranges ≡ whole ∷ [])
      ⊎ (execute_sequence x corpus steps (build_stages x corpus steps) ≡ flat_map hits_in ranges)
  unfolding execute_sequence ranges
  execute_sequence-cases = elim (Option-cases (spans corpus (codes "document"))) [
    | inl f ↦ inl (ground arith, ground arith)
    | inr (docs, f) ↦ elim (Bool-cases (ltb 1 (length docs) && benefits_from_parallel steps)) [
      | inl t ↦ inr (ground arith)
      | inr t ↦ inl (ground arith, ground arith)
    ]
  ]

  pub execute_sequence-ranges :
      (s e : ℕ)
      → HasHit (execute_sequence x corpus steps (build_stages x corpus steps)) s e
        ↔ HasHit (flat_map hits_in ranges) s e
  execute_sequence-ranges s e = elim execute_sequence-cases [
    | inl (f, g) ↦ rw (f, g) (HasHit-one whole s e)
    | inr f ↦ rw f (λ h. h, λ h. h)
  ]

  pub HasHit-flat_map :
      (rs : List Span) (s e : ℕ)
      → HasHit (flat_map hits_in rs) s e ↔ ((r : Span) × (r ∈ rs) × HasHit (hits_in r) s e)
  HasHit-flat_map [] s e = (λ h. absurd h, λ (r, m, h). absurd m)
  HasHit-flat_map (q ∷ rs) s e =
      let both = HasHit-append (hits_in q) (flat_map hits_in rs) s e in
      let rest = HasHit-flat_map rs s e in
      (
        λ h. elim (both.0 h) [
          | inl k ↦ (q, inl refl, k)
          | inr k ↦ let (r, m, t) = rest.0 k in (r, inr m, t)
        ],
        λ (r, m, h). both.1 (elim m [
          | inl same ↦ inl (subst (λ t. HasHit (hits_in t) s e) same h)
          | inr k ↦ inr (rest.1 (r, k, h))
        ]),
      )

  run_sequence_steps-empty :
      {A : Type 0} (tracker : Tracker A) (stages : List Stage) (a b : ℕ)
      → (stages ≡ []) ⊎ (b ≤ a)
      → run_sequence_steps x tracker stages a b ≡ []
  unfolding run_sequence_steps
  run_sequence_steps-empty tracker [] a b h = refl
  run_sequence_steps-empty tracker (first ∷ rest) a b (inl e) = cc
  run_sequence_steps-empty tracker (first ∷ rest) a b (inr le) = ground arith

  -- Nothing is found by no steps, or in an empty range.
  pub execute_sequence_in_range-empty :
      (has_label : Bool) (stages : List Stage) (a b s e : ℕ)
      → (stages ≡ []) ⊎ (b ≤ a)
      → ¬ HasHit (execute_sequence_in_range x has_label stages a b) s e
  unfolding execute_sequence_in_range
  execute_sequence_in_range-empty true stages a b s e none_left h =
      let active = run_sequence_steps x labeled stages a b in
      let hits = hits_of x (λ m. m.start) (λ m. m.captures) active in
      let held =
        ((HasHit-hits_of (λ m. m.start) (λ m. m.captures) x active s e).0
          ((HasHit-sort_hits hit_le hits s e).0 h)).1 in
      absurd (
        subst (λ t. HasStart (λ (m : Captured). m.start) t e s)
          (run_sequence_steps-empty labeled stages a b none_left) held)
  execute_sequence_in_range-empty false stages a b s e none_left h =
      let active = run_sequence_steps x unlabeled stages a b in
      let hits = hits_of x (λ s. s) (λ s. []) active in
      let held =
        ((HasHit-hits_of (λ s. s) (λ s. []) x active s e).0
          ((HasHit-sort_hits hit_le hits s e).0 h)).1 in
      absurd (
        subst (λ t. HasStart (λ (m : ℕ). m) t e s)
          (run_sequence_steps-empty unlabeled stages a b none_left) held)
