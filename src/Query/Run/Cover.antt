-- ===== src/Query/Run/Cover.antt =====
-- The runs of `from_positions` are apart from one another and cover the positions.
use montre.Prelude.{
  ℕ, zero, suc, ◌+◌, ◌≤◌, ◌<◌, ◌≡◌, refl, ◌↔◌, ◌⊎◌, inl, inr, arith, leb, Bool-cases, List, [], ◌∷◌,
  ◌∈◌, Above, IsAscending, sort_dedup, sort_dedup-IsAscending, mem-sort_dedup, some, none,
  if◌then◌else◌, tests, leb→le, leb→gt, sym,
}
use montre.Query.Run.{Run, count_up, build_runs, from_sorted, from_positions, range, run_containing}

abbrev pub Within : Run → ℕ → Type 0
Within r p = (r.start ≤ p) × (p < r.end)

abbrev pub InRuns : ℕ → List Run → Type 0
InRuns p [] = ⊥
InRuns p (r ∷ runs) = Within r p ⊎ InRuns p runs

-- Non-empty runs in order, with a gap between each two.
abbrev pub Separated : ℕ → List Run → Type 0
Separated n [] = Unit {0}
Separated n (r ∷ runs) = (n ≤ r.start) × (r.start < r.end) × Separated (r.end + 1) runs

pub mem-count_up : (x a n : ℕ) → (x ∈ count_up a n) ↔ ((a ≤ x) × (x < a + n))
unfolding count_up
mem-count_up x a zero = ground arith
mem-count_up x a (suc n) = ground (arith, mem-count_up x (a + 1) n)

build_runs-Separated :
    (n run_start prev : ℕ) (ps : List ℕ)
    → n ≤ run_start
    → run_start ≤ prev
    → Above (prev + 1) ps
    → Separated n (build_runs run_start prev ps)
unfolding build_runs
build_runs-Separated n s prev [] h k a = omega arith
build_runs-Separated n s prev (p ∷ ps) h k a =
    ground (arith, build_runs-Separated n s p ps h, build_runs-Separated (prev + 1 + 1) p p ps)

InRuns-build_runs :
    (p run_start prev : ℕ) (ps : List ℕ)
    → run_start ≤ prev
    → Above (prev + 1) ps
    → InRuns p (build_runs run_start prev ps) ↔ ((run_start ≤ p) × (p ≤ prev) ⊎ (p ∈ ps))
unfolding build_runs
InRuns-build_runs p s prev [] h a = ground arith
InRuns-build_runs p s prev (q ∷ qs) h a =
    ground (arith, InRuns-build_runs p s q qs, InRuns-build_runs p q q qs)

from_sorted-Separated : (ps : List ℕ) → IsAscending ps → Separated 0 (from_sorted ps)
unfolding from_sorted
from_sorted-Separated [] a = tt
from_sorted-Separated (p ∷ ps) a = build_runs-Separated 0 p p ps (omega arith) (omega arith) a.1

InRuns-from_sorted : (p : ℕ) (ps : List ℕ) → IsAscending ps → InRuns p (from_sorted ps) ↔ (p ∈ ps)
unfolding from_sorted
InRuns-from_sorted p [] a = ground arith
InRuns-from_sorted p (q ∷ qs) a = ground (arith, InRuns-build_runs p q q qs)

-- The runs of `from_positions` cover exactly the given positions, and stand in order with a gap
-- between each two: no run can be extended, and none is empty.
pub from_positions-cover :
    (positions : List ℕ)
    → Separated 0 (from_positions positions)
      × ((p : ℕ) → InRuns p (from_positions positions) ↔ (p ∈ positions))
unfolding from_positions
from_positions-cover positions =
    let ascending = sort_dedup-IsAscending positions in
    (
      from_sorted-Separated (sort_dedup positions) ascending,
      λ p. ground (
        arith,
        InRuns-from_sorted p (sort_dedup positions) ascending,
        mem-sort_dedup p positions,
      ),
    )

pub range-cover :
    (a b : ℕ) → Separated 0 (range a b) × ((p : ℕ) → InRuns p (range a b) ↔ ((a ≤ p) × (p < b)))
unfolding range
range-cover a b = (ground arith, λ p. ground arith)

InRuns-ge : (n p : ℕ) (runs : List Run) → Separated n runs → InRuns p runs → n ≤ p
InRuns-ge n p [] s h = absurd h
InRuns-ge n p (r ∷ runs) s (inl h) = omega arith
InRuns-ge n p (r ∷ runs) s (inr h) = omega (arith, InRuns-ge (r.end + 1) p runs s.2 h)

pub InRuns-run : (p : ℕ) (runs : List Run) → InRuns p runs → (r : Run) × (r ∈ runs) × Within r p
InRuns-run p [] h = absurd h
InRuns-run p (r ∷ runs) (inl w) = (r, inl refl, w)
InRuns-run p (r ∷ runs) (inr h) = let (t, m, w) = InRuns-run p runs h in (t, inr m, w)

pub run-InRuns : (p : ℕ) (r : Run) (runs : List Run) → r ∈ runs → Within r p → InRuns p runs
run-InRuns p r [] m w = absurd m
run-InRuns p r (t ∷ runs) (inl e) w = inl (rw (← e) w)
run-InRuns p r (t ∷ runs) (inr m) w = inr (run-InRuns p r runs m w)

run_containing-cons :
    (r : Run) (runs : List Run) (pos : ℕ)
    → run_containing (r ∷ runs) pos ≡ (
        if leb r.end pos then run_containing runs pos else if leb r.start pos then some r else none)
unfolding run_containing
run_containing-cons r runs pos = ground arith

-- The run that is found is around the position, and it is one of the runs.
pub run_containing-some :
    (runs : List Run) (pos : ℕ) (r : Run)
    → run_containing runs pos ≡ some r
    → Within r pos × (r ∈ runs)
run_containing-some [] pos r e = absurd (unfold run_containing in ground arith)
run_containing-some (t ∷ runs) pos r e = elim (Bool-cases (leb t.end pos)) [
  | inl past ↦
      let (w, c) =
        run_containing-some runs pos r (ground (arith, run_containing-cons t runs pos)) in
      (w, inr c)
  | inr here ↦
      let step = run_containing-cons t runs pos in
      let same : (t ≡ r) × (t.start ≤ pos) = (ground (arith, step), ground (arith, step)) in
      (rw (← same.0) (omega tests), inl (sym same.0))
]

-- A block of covered positions lies in the one run around its first position.
pub run_containing-block :
    (n : ℕ) (runs : List Run) (a b : ℕ)
    → Separated n runs
    → a < b
    → ((p : ℕ) → a ≤ p → p < b → InRuns p runs)
    → (r : Run) × (run_containing runs a ≡ some r) × (b ≤ r.end)
run_containing-block n [] a b s h all = absurd (all a (omega arith) h)
run_containing-block n (r ∷ runs) a b s h all = elim (Bool-cases (leb r.end a)) [
  | inl past ↦
      let le = leb→le r.end a past in
      let (t, e, k) =
        run_containing-block (r.end + 1) runs a b s.2 h
          (λ p l u. elim (all p l u) [ inl w ↦ absurd (omega arith) | inr m ↦ m ]) in
      (t, ground (arith, run_containing-cons r runs a), k)
  | inr here ↦
      let gt = leb→gt r.end a here in
      let starts : r.start ≤ a = elim (all a (omega arith) h) [
        | inl w ↦ w.0
        | inr m ↦ absurd (omega (arith, InRuns-ge (r.end + 1) a runs s.2 m))
      ] in
      let ends : b ≤ r.end = elim (Bool-cases (leb b r.end)) [
        | inl e ↦ leb→le b r.end e
        | inr e ↦ elim (all r.end (omega arith) (leb→gt b r.end e)) [
          | inl w ↦ absurd (omega arith)
          | inr m ↦ absurd (omega (arith, InRuns-ge (r.end + 1) r.end runs s.2 m))
        ]
      ] in
      (r, ground (arith, run_containing-cons r runs a), ends)
]
