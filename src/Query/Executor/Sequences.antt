-- ===== src/Query/Executor/Sequences.antt =====
-- A sequence from end to end: `execute_node` on a sequence of steps, against the steps themselves.
use montre.Prelude.{
  ℕ, ◌≤◌, ◌<◌, ◌≡◌, refl, ◌↔◌, inl, inr, arith, Bool-cases, List, [], ◌∈◌, ltb, ltb→lt, ltb→ge,
}
use montre.Core.{Span}
use montre.Index.{Crates}
use montre.Index.Corpus.{Corpus}
use montre.Query.{ok}
use montre.Query.Plan.{Steps, sequence_scan, no_steps, and_step}
use montre.Query.Sequence.Hits.{Hit, has_labels, execute_sequence}
use montre.Query.Sequence.Step.{Chain-bounds}
use montre.Query.Sequence.Spans.{HasHit, execute_sequence_in_range-Chain}
use montre.Query.Executor.{execute_node, build_stages}
use montre.Query.Executor.Stages.{StepChain, build_stages-AllFit, Chain-StepChain, StepChain-Chain}
use montre.Query.Executor.Searched.{
  ranges, hits_in, execute_sequence-ranges, HasHit-flat_map, execute_sequence_in_range-empty,
}

module _ (x : Crates) (corpus : Corpus x.Bitmap) (steps : Steps) where
  -- The first step must take a token.
  abbrev pub TakesFirst : Steps → Type 0
  TakesFirst no_steps = Unit {0}
  TakesFirst (and_step node least most label rest) = 0 < least

  -- A match of the steps inside of a range.
  abbrev pub MatchIn : Span → ℕ → ℕ → Type 0
  MatchIn r s e = (r.start ≤ s) × (s < e) × (e ≤ r.end) × StepChain x corpus steps s e

module _ (x : Crates) (corpus : Corpus x.Bitmap) where
  hits_in-MatchIn :
      (steps : Steps) (r : Span) (s e : ℕ)
      → r.end ≤ corpus.token_count
      → (HasHit (hits_in x corpus steps r) s e → MatchIn x corpus steps r s e)
        × (TakesFirst x corpus steps steps
            → MatchIn x corpus steps r s e
            → HasHit (hits_in x corpus steps r) s e)
  unfolding build_stages
  hits_in-MatchIn no_steps r s e inside = (
    λ h. absurd (
        execute_sequence_in_range-empty x corpus no_steps (has_labels no_steps) [] r.start r.end s e
          (inl refl) h),
    λ t (l, k, u, c). absurd (omega arith),
  )
  hits_in-MatchIn (and_step node least most label rest) r s e inside =
      let steps = and_step node least most label rest in
      let stages = build_stages x corpus steps r.start r.end in
      let fit = build_stages-AllFit x corpus r.start r.end inside steps in
      elim (Bool-cases (ltb r.start r.end)) [
        | inl t ↦
            let lt = ltb→lt r.start r.end t in
            let exact =
              execute_sequence_in_range-Chain x (has_labels steps) r.start r.end _
                (build_stages x corpus rest r.start r.end) s e lt fit in
            (
              λ h.
                  let (k, c) = exact.0 h in
                  let (l, u) = Chain-bounds r.start r.end stages s e fit c k in
                  (l, k, u, Chain-StepChain x corpus r.start r.end inside steps s e l c),
              λ z (l, k, u, c).
                  exact.1 z k (StepChain-Chain x corpus r.start r.end inside steps s e l u c),
            )
        | inr f ↦
            let le = ltb→ge r.start r.end f in
            (
              λ h. absurd (
                  execute_sequence_in_range-empty x corpus steps (has_labels steps) stages r.start
                    r.end s e (inr le) h),
              λ z (l, k, u, c). absurd (omega arith),
            )
      ]

  abbrev AllInside : Steps → Type 0
  AllInside steps = (r : Span) → r ∈ ranges x corpus steps → r.end ≤ corpus.token_count

  -- A match of the steps inside of one of the ranges.
  abbrev pub IsMatch : Steps → ℕ → ℕ → Type 0
  IsMatch steps s e = (r : Span) × (r ∈ ranges x corpus steps) × MatchIn x corpus steps r s e

  abbrev sequence_hits : Steps → List Hit
  sequence_hits steps = execute_sequence x corpus steps (build_stages x corpus steps)

  sequence_hits_sound :
      (steps : Steps) (s e : ℕ)
      → AllInside steps
      → HasHit (sequence_hits steps) s e
      → IsMatch steps s e
  sequence_hits_sound steps s e inside h =
      let (r, m, k) =
        (HasHit-flat_map x corpus steps (ranges x corpus steps) s e).0
          ((execute_sequence-ranges x corpus steps s e).0 h) in
      (r, m, (hits_in-MatchIn steps r s e (inside r m)).0 k)

  sequence_hits_complete :
      (steps : Steps) (s e : ℕ)
      → AllInside steps
      → TakesFirst x corpus steps steps
      → IsMatch steps s e
      → HasHit (sequence_hits steps) s e
  sequence_hits_complete steps s e inside takes (r, m, k) =
      (execute_sequence-ranges x corpus steps s e).1 (
        (HasHit-flat_map x corpus steps (ranges x corpus steps) s e).1
          (r, m, (hits_in-MatchIn steps r s e (inside r m)).1 takes k))

-- If the ranges that are searched (the documents, or the whole corpus) end inside the corpus, and the
-- first step must take a token, a sequence executes without an error, and its hits are exactly the
-- matches inside of a range: spans one after another, one for each step, each of a length that the
-- quantifier allows (at most 100), at whose every position a hit of the step's node starts.
pub execute_node-sequence_scan :
    (x : Crates) (corpus : Corpus x.Bitmap) (steps : Steps)
    → ((r : Span) → r ∈ ranges x corpus steps → r.end ≤ corpus.token_count)
    → TakesFirst x corpus steps steps
    → (hits : List Hit) × (execute_node x corpus (sequence_scan steps) ≡ ok hits)
      × ((s e : ℕ) → HasHit hits s e ↔ IsMatch x corpus steps s e)
unfolding execute_node
execute_node-sequence_scan x corpus steps inside takes = (
  sequence_hits x corpus steps,
  refl,
  λ s e. (
    λ h. sequence_hits_sound x corpus steps s e inside h,
    λ k. sequence_hits_complete x corpus steps s e inside takes k,
  ),
)

-- If the ranges that are searched end inside the corpus, any sequence executes without an error, and
-- each of its hits is a match inside of a range, also where the first step is optional.
pub execute_node-sequence_scan_sound :
    (x : Crates) (corpus : Corpus x.Bitmap) (steps : Steps)
    → ((r : Span) → r ∈ ranges x corpus steps → r.end ≤ corpus.token_count)
    → (hits : List Hit) × (execute_node x corpus (sequence_scan steps) ≡ ok hits)
      × ((s e : ℕ) → HasHit hits s e → IsMatch x corpus steps s e)
unfolding execute_node
execute_node-sequence_scan_sound x corpus steps inside =
    (sequence_hits x corpus steps, refl, λ s e h. sequence_hits_sound x corpus steps s e inside h)
