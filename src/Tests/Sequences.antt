-- ===== src/Tests/Sequences.antt =====
-- Two steps over six positions, and what is found of them.
use montre.Prelude.{
  ℕ, ◌+◌, ◌-◌, ◌≤◌, ◌<◌, ◌≡◌, ◌↔◌, refl, arith, ◌∈◌, List, [], ◌∷◌, some, none, true, false,
  get_elem?,
}
use montre.Core.{Span, span, contains, overlaps, span_containing}
use montre.Core.Overlap.{overlaps-contains}
use montre.Core.Search.{Around, span_containing-Around}
use montre.Query.Run.{
  Run, run, from_positions, continuations_at, spans_for_quantifier, spans_for_scan_all,
}
use montre.Query.Run.Cover.{InRuns, Separated, from_positions-cover}
use montre.Query.Run.Quantifier.{
  Allowed, Block, HasSpan, mem-continuations_at, mem-spans_for_quantifier, mem-spans_for_scan_all,
}
use montre.Query.Sequence.{Stage, unlabeled, run_sequence_steps}
use montre.Query.Sequence.Hits.{execute_sequence_in_range}
use montre.Query.Sequence.Step.{Chain, Fits}
use montre.Query.Sequence.Chain.{Held, unlabeled-KeepsStart}
use montre.Query.Sequence.Found.{Begins, run_sequence_steps-Begins}
use montre.Query.Sequence.Spans.{HasHit, execute_sequence_in_range-Begins, optional_first_misses}
use montre.Tests.Samples.{crates, sentences}

-- One or two tokens at 1, 2 and 4, then `[]`.
abbrev two_runs : List Run
two_runs = run 1 3 ∷ run 4 5 ∷ []

abbrev first : Stage
first = record { least = 1; most = some 2; label = none; is_scan_all = false; runs = two_runs }

abbrev anything : Stage
anything = record { least = 0; most = none; label = none; is_scan_all = true; runs = run 0 6 ∷ [] }

first-Fits : Fits 0 6 first
first-Fits = record {
  apart = ground arith;
  inside = λ p m. ground arith;
  full = λ e p l h. ground arith;
}

anything-Fits : Fits 0 6 anything
anything-Fits = record {
  apart = ground arith;
  inside = λ p m. ground arith;
  full = λ e p l h. ground arith;
}

execute_sequence_in_range-Begins_example :
    HasHit (execute_sequence_in_range crates false (first ∷ anything ∷ []) 0 6) 1 5
    ↔ ((1 < 5) × ((m : ℕ) × Begins first (anything ∷ []) 1 m × Chain (anything ∷ []) m 5))
execute_sequence_in_range-Begins_example =
    execute_sequence_in_range-Begins crates 0 6 first (anything ∷ []) false 1 5 (omega arith)
      (first-Fits, (anything-Fits, tt))

run_sequence_steps-Begins_example :
    Held crates unlabeled unlabeled-KeepsStart
      (run_sequence_steps crates unlabeled (first ∷ anything ∷ []) 0 6)
      5
      1
    ↔ ((m : ℕ) × Begins first (anything ∷ []) 1 m × Chain (anything ∷ []) m 5)
run_sequence_steps-Begins_example =
    run_sequence_steps-Begins crates unlabeled unlabeled-KeepsStart 0 6 first (anything ∷ []) 5 1
      (omega arith) (first-Fits, (anything-Fits, tt))

-- An optional step that matches nowhere, before one token at 0, 1 or 2.
abbrev absent : Stage
absent = record { least = 0; most = some 1; label = none; is_scan_all = false; runs = [] }

abbrev noun : Stage
noun = record { least = 1; most = some 1; label = none; is_scan_all = false; runs = run 0 3 ∷ [] }

absent-Fits : Fits 0 6 absent
absent-Fits = record { apart = tt; inside = λ p m. absurd m; full = λ e p l h. ground arith }

noun-Fits : Fits 0 6 noun
noun-Fits = record {
  apart = ground arith;
  inside = λ p m. ground arith;
  full = λ e p l h. ground arith;
}

optional_first_misses_example :
    Chain (absent ∷ noun ∷ []) 1 (1 + 1)
    × ¬ HasHit (execute_sequence_in_range crates false (absent ∷ noun ∷ []) 0 6) 1 (1 + 1)
optional_first_misses_example =
    optional_first_misses crates false 0 6 absent noun 1 (omega arith)
      (absent-Fits, (noun-Fits, tt)) refl (omega arith) (omega arith) (ground arith)
      (λ m. ground arith) (λ m. absurd m)

two_runs-Separated : Separated 0 two_runs
two_runs-Separated = ground arith

mem-continuations_at_example :
    (3 ∈ continuations_at two_runs 1 1 (some 2))
    ↔ (InRuns 1 two_runs × (1 ≤ 3) × Block two_runs 1 3 × Allowed 1 (some 2) (3 - 1))
mem-continuations_at_example = mem-continuations_at 0 two_runs 1 3 1 (some 2) two_runs-Separated

mem-spans_for_quantifier_example :
    HasSpan (spans_for_quantifier two_runs 1 (some 2)) 1 3
    ↔ ((1 < 3) × Block two_runs 1 3 × Allowed 1 (some 2) (3 - 1))
mem-spans_for_quantifier_example =
    mem-spans_for_quantifier 0 two_runs 1 3 1 (some 2) two_runs-Separated

mem-spans_for_scan_all_example :
    (5 ∈ spans_for_scan_all 2 1 none 6) ↔ ((2 ≤ 5) × (5 ≤ 6) × Allowed 1 none (5 - 2))
mem-spans_for_scan_all_example = mem-spans_for_scan_all 2 5 1 6 none

from_positions-cover_example :
    Separated 0 (from_positions (4 ∷ 1 ∷ 2 ∷ 1 ∷ []))
    × ((p : ℕ) → InRuns p (from_positions (4 ∷ 1 ∷ 2 ∷ 1 ∷ [])) ↔ (p ∈ 4 ∷ 1 ∷ 2 ∷ 1 ∷ []))
from_positions-cover_example = from_positions-cover (4 ∷ 1 ∷ 2 ∷ 1 ∷ [])

span_containing-Around_example :
    ((i : ℕ) (s : Span)
      → get_elem? sentences i ≡ some s
      → (span_containing sentences 4 ≡ some i) ↔ Around s 4)
    × ((span_containing sentences 4 ≡ none)
        ↔ ((i : ℕ) (s : Span) → get_elem? sentences i ≡ some s → ¬ Around s 4))
span_containing-Around_example = span_containing-Around 0 sentences 4 (ground arith)

overlaps-contains_example :
    (overlaps (span 0 3) (span 2 4) ≡ true)
    ↔ ((p : ℕ) × (contains (span 0 3) p ≡ true) × (contains (span 2 4) p ≡ true))
overlaps-contains_example = overlaps-contains (span 0 3) (span 2 4) (omega arith) (omega arith)
