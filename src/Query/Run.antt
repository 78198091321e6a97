-- ===== src/Query/Run.antt =====
-- crates/montre-query/src/executor.rs, `Run` and `RunIndex`: the matching positions of a step as
-- maximal runs of neighbours, from which the spans of a quantifier are read off.
pub mod Cover
pub mod Quantifier
use montre.Prelude.{
  ℕ, zero, suc, ◌+◌, ◌-◌, min, max, leb, ltb, ◌==◌, if◌then◌else◌, Bool, true, false, Option, some,
  none, List, [], ◌∷◌, partition_point, map, flat_map, get_elem?, sort_dedup,
}

abbrev pub max_quantifier : ℕ
max_quantifier = 100

pub record Run : Type 0 where
  pub start : ℕ
  pub end : ℕ

abbrev pub run : ℕ → ℕ → Run
run a b = record { start = a; end = b }

-- `a, a + 1, …`, `n` numbers; `a..b` and `a..=b`.
unfoldable pub count_up : ℕ → ℕ → List ℕ
count_up a zero = []
count_up a (suc n) = a ∷ count_up (a + 1) n

abbrev pub half_open : ℕ → ℕ → List ℕ
half_open a b = count_up a (b - a)

abbrev pub inclusive : ℕ → ℕ → List ℕ
inclusive a b = count_up a (b + 1 - a)

-- The loop of `from_positions`, from the second position on, with the final push.
unfoldable pub build_runs : ℕ → ℕ → List ℕ → List Run
build_runs run_start prev [] = run run_start (prev + 1) ∷ []
build_runs run_start prev (pos ∷ rest) = elim (pos == prev + 1) [
  | true ↦ build_runs run_start pos rest
  | false ↦ run run_start (prev + 1) ∷ build_runs pos pos rest
]

unfoldable pub from_sorted : List ℕ → List Run
unfolding build_runs
from_sorted [] = []
from_sorted (first ∷ rest) = build_runs first first rest

-- A `RunIndex` is its list of runs.
unfoldable pub from_positions : List ℕ → List Run
unfolding from_sorted sort_dedup
from_positions positions = from_sorted (sort_dedup positions)

unfoldable pub range : ℕ → ℕ → List Run
range start end = if leb end start then [] else run start end ∷ []

-- `max.unwrap_or(MAX_QUANTIFIER).min(MAX_QUANTIFIER)`
abbrev pub max_len : Option ℕ → ℕ
max_len none = max_quantifier
max_len (some m) = min m max_quantifier

-- The spans of one run.
unfoldable pub spans_of_run : ℕ → ℕ → Run → List (ℕ × ℕ)
unfolding count_up
spans_of_run min_len longest r =
    if ltb (r.end - r.start) min_len
    then []
    else flat_map (λ s. map (λ l. (s, s + l)) (inclusive min_len (min (r.end - s) longest)))
        (inclusive r.start (r.end - min_len))

unfoldable pub spans_for_quantifier : List Run → ℕ → Option ℕ → List (ℕ × ℕ)
unfolding spans_of_run
spans_for_quantifier runs least most = flat_map (spans_of_run (max least 1) (max_len most)) runs

unfoldable pub run_containing : List Run → ℕ → Option Run
unfolding partition_point
run_containing runs pos = elim (get_elem? runs (partition_point (λ r. leb r.end pos) runs)) [
  | none ↦ none
  | some r ↦ if leb r.start pos then some r else none
]

unfoldable pub continuations_at : List Run → ℕ → ℕ → Option ℕ → List ℕ
unfolding run_containing count_up
continuations_at runs pos least most = elim (run_containing runs pos) [
  | none ↦ []
  | some r ↦
      if ltb (r.end - pos) least
      then []
      else map (λ l. pos + l) (inclusive least (min (r.end - pos) (max_len most)))
]

-- The loop of `spans_for_scan_all`, which breaks at the first end that is out of range.
unfoldable pub scan_ends : ℕ → ℕ → List ℕ → List ℕ
scan_ends start token_count [] = []
scan_ends start token_count (l ∷ ls) =
    if leb (start + l) token_count then (start + l) ∷ scan_ends start token_count ls else []

unfoldable pub spans_for_scan_all : ℕ → ℕ → Option ℕ → ℕ → List ℕ
unfolding count_up scan_ends
spans_for_scan_all start least most token_count =
    scan_ends start token_count (inclusive least (max_len most))
