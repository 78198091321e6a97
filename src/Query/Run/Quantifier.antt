-- ===== src/Query/Run/Quantifier.antt =====
-- What the quantifiers read off the runs: exactly the blocks of covered positions of a length that
-- the quantifier allows.
use montre.Prelude.{
  ℕ, zero, suc, ◌+◌, ◌-◌, ◌≤◌, ◌<◌, ◌≡◌, refl, ◌↔◌, inl, inr, arith, ltb, min, max, Bool-cases,
  Option-cases, List, ◌∈◌, Option, some, none, map, mem-map, map-mem, mem-flat_map, flat_map-mem,
  ltb→lt, ltb→ge,
}
use montre.Query.Run.{
  Run, max_len, inclusive, count_up, spans_of_run, spans_for_quantifier, run_containing,
  continuations_at, scan_ends, spans_for_scan_all,
}
use montre.Query.Run.Cover.{
  InRuns, Separated, mem-count_up, run-InRuns, run_containing-some, run_containing-block,
}

-- The length of a span is at most the upper bound of a quantifier, if it has one.
abbrev pub UpTo : Option ℕ → ℕ → Type 0
UpTo none l = Unit {0}
UpTo (some m) l = l ≤ m

-- The length of a span is allowed by the quantifier `{least, most}`; no span is longer than 100.
abbrev pub Allowed : ℕ → Option ℕ → ℕ → Type 0
Allowed least most l = (least ≤ l) × UpTo most l × (l ≤ 100)

-- The longest length that the code tries is the longest that is allowed.
pub le-max_len : (most : Option ℕ) (l : ℕ) → (l ≤ max_len most) ↔ (UpTo most l × (l ≤ 100))
le-max_len none l = (λ h. (tt, h), λ h. h.1)
le-max_len (some m) l = (λ h. (omega (arith, h), omega (arith, h)), λ h. omega (arith, h.0, h.1))

-- The same bounds, as the code computes them.
abbrev pub Tried : ℕ → Option ℕ → ℕ → Type 0
Tried least most l = (least ≤ l) × (l ≤ max_len most)

pub Tried-iff : (least : ℕ) (most : Option ℕ) (l : ℕ) → Tried least most l ↔ Allowed least most l
Tried-iff least most l = (
  λ (h, k). let (u, c) = (le-max_len most l).0 k in (h, u, c),
  λ (h, u, c). (h, (le-max_len most l).1 (u, c)),
)

-- A step that may match nothing may match the empty span.
pub Allowed-empty : (least : ℕ) (most : Option ℕ) (l : ℕ) → least ≤ l → l ≡ 0 → Allowed least most l
Allowed-empty least none l h e = (h, tt, omega (arith, e))
Allowed-empty least (some m) l h e = (h, omega (arith, e), omega (arith, e))

-- Every position of `[a, b)` is covered.
abbrev pub Block : List Run → ℕ → ℕ → Type 0
Block runs a b = (p : ℕ) → a ≤ p → p < b → InRuns p runs

mem-inclusive : (x a b : ℕ) → (x ∈ inclusive a b) ↔ ((a ≤ x) × (x ≤ b))
mem-inclusive x a b = ground (arith, mem-count_up x a (b + 1 - a))

mem-offsets :
    (a b lo hi : ℕ) → (b ∈ map (λ l. a + l) (inclusive lo hi)) ↔ ((a + lo ≤ b) × (b ≤ a + hi))
mem-offsets a b lo hi = (
  λ m.
      let (l, k, e) = mem-map (λ l. a + l) b (inclusive lo hi) m in
      ground (arith, (mem-inclusive l lo hi).0 k),
  λ (l, h).
      let e : a + (b - a) ≡ b = omega arith in
      rw e at (
        map-mem (λ l. a + l) (b - a) (inclusive lo hi)
          ((mem-inclusive (b - a) lo hi).1 (omega arith, omega arith))),
)

Block-within :
    (runs : List Run) (a b : ℕ) (r : Run) → r ∈ runs → r.start ≤ a → b ≤ r.end → Block runs a b
Block-within runs a b r m s e p l u = run-InRuns p r runs m (omega arith)

module _ (runs : List Run) (a least : ℕ) (most : Option ℕ) where
  -- The ends that `continuations_at` gives once the run around the position is known.
  mem-continuations_run :
      (b : ℕ) (r : Run)
      → run_containing runs a ≡ some r
      → a < r.end
      → (b ∈ continuations_at runs a least most)
        ↔ ((a ≤ b) × (b ≤ r.end) × Tried least most (b - a))
  unfolding continuations_at
  mem-continuations_run b r e h =
      ground (arith, mem-offsets a b least (min (r.end - a) (max_len most)))

  mem-continuations_none :
      (b : ℕ) → run_containing runs a ≡ none → ¬ (b ∈ continuations_at runs a least most)
  unfolding continuations_at
  mem-continuations_none b e m = ground arith

-- From a position, `continuations_at` gives exactly the ends of the blocks of covered positions of
-- an allowed length: at least the lower bound of the quantifier, at most the upper one if it has one,
-- and at most 100; where the position itself is covered.
pub mem-continuations_at :
    (n : ℕ) (runs : List Run) (a b least : ℕ) (most : Option ℕ)
    → Separated n runs
    → (b ∈ continuations_at runs a least most)
      ↔ (InRuns a runs × (a ≤ b) × Block runs a b × Allowed least most (b - a))
mem-continuations_at n runs a b least most s = (sound, complete)
  where
    sound :
        b ∈ continuations_at runs a least most
        → InRuns a runs × (a ≤ b) × Block runs a b × Allowed least most (b - a)
    sound k = elim (Option-cases (run_containing runs a)) [
      | inl e ↦ absurd (mem-continuations_none runs a least most b e k)
      | inr (r, e) ↦
          let (w, m) = run_containing-some runs a r e in
          let (l, u, ok) = (mem-continuations_run runs a least most b r e w.1).0 k in
          (
            run-InRuns a r runs m w,
            l,
            Block-within runs a b r m w.0 u,
            (Tried-iff least most (b - a)).0 ok,
          )
    ]

    at_least_here : Block runs a b → InRuns a runs → Block runs a (max b (a + 1))
    at_least_here block here p l u = elim (Bool-cases (ltb p b)) [
      | inl t ↦ block p l (ltb→lt p b t)
      | inr f ↦ let e : a ≡ p = ground (arith, ltb→ge p b f) in rw (← e) here
    ]

    complete :
        InRuns a runs × (a ≤ b) × Block runs a b × Allowed least most (b - a)
        → b ∈ continuations_at runs a least most
    complete (here, l, block, ok) =
        let (r, e, u) =
          run_containing-block n runs a (max b (a + 1)) s (omega arith)
            (at_least_here block here) in
        (mem-continuations_run runs a least most b r e (omega arith)).1
          (l, omega arith, (Tried-iff least most (b - a)).1 ok)

mem-scan_ends :
    (a b r l n : ℕ) → (b ∈ scan_ends a r (count_up l n)) ↔ ((a + l ≤ b) × (b < a + l + n) × (b ≤ r))
unfolding scan_ends count_up
mem-scan_ends a b r l zero = ground arith
mem-scan_ends a b r l (suc n) = ground (arith, mem-scan_ends a b r (l + 1) n)

-- `spans_for_scan_all` gives exactly the ends inside the range whose distance is at least the lower
-- bound of the quantifier, at most the upper one if it has one, and at most 100.
pub mem-spans_for_scan_all :
    (a b least r : ℕ) (most : Option ℕ)
    → (b ∈ spans_for_scan_all a least most r) ↔ ((a ≤ b) × (b ≤ r) × Allowed least most (b - a))
unfolding spans_for_scan_all
mem-spans_for_scan_all a b least r most =
    ground (arith, le-max_len most (b - a), mem-scan_ends a b r least (max_len most + 1 - least))

abbrev pub HasSpan : List (ℕ × ℕ) → ℕ → ℕ → Type 0
HasSpan spans a b = ◌∈◌ {A = ℕ × ℕ} (a, b) spans

-- The lengths tried at one start, and the spans of one run.
mem-lengths :
    (a b s lo hi : ℕ)
    → HasSpan (map (λ l. (s, s + l)) (inclusive lo hi)) a b
      ↔ ((a ≡ s) × (a + lo ≤ b) × (b ≤ a + hi))
mem-lengths a b s lo hi = (
  λ m.
      let (l, k, e) = mem-map (λ l. (s, s + l)) (a, b) (inclusive lo hi) m in
      ground (arith, e, (mem-inclusive l lo hi).0 k),
  λ (e, l, u).
      let pair : ◌≡◌ {A = ℕ × ℕ} (s, s + (b - s)) (a, b) = ground arith in
      rw pair at (
        map-mem {B = ℕ × ℕ} (λ l. (s, s + l)) (b - s) (inclusive lo hi)
          ((mem-inclusive (b - s) lo hi).1 (omega arith, omega arith))),
)

module _ (a b least longest : ℕ) (r : Run) (pos : 0 < least) where
  abbrev lengths_at : ℕ → List (ℕ × ℕ)
  lengths_at s = map (λ l. (s, s + l)) (inclusive least (min (r.end - s) longest))

  mem-spans_of_run :
      HasSpan (spans_of_run least longest r) a b
      ↔ ((r.start ≤ a) × (b ≤ r.end) × (a + least ≤ b) × (b ≤ a + longest))
  unfolding spans_of_run
  mem-spans_of_run = elim (Bool-cases (ltb (r.end - r.start) least)) [
    | inl short ↦ ground arith
    | inr long ↦
        let starts = inclusive r.start (r.end - least) in
        (
          λ m.
              let (s, ks, k) = mem-flat_map lengths_at (a, b) starts (ground arith) in
              ground (
                arith,
                (mem-inclusive s r.start (r.end - least)).0 ks,
                (mem-lengths a b s least (min (r.end - s) longest)).0 k,
              ),
          λ (l, u, k, k').
              let m =
                flat_map-mem lengths_at (a, b) a starts
                  ((mem-inclusive a r.start (r.end - least)).1 (l, omega arith))
                  ((mem-lengths a b a least (min (r.end - a) longest)).1 (refl, k, omega arith)) in
              ground (arith, m),
        )
  ]

-- `spans_for_quantifier` gives exactly the non-empty blocks of covered positions of an allowed
-- length: at least the lower bound of the quantifier, at most the upper one if it has one, and at
-- most 100.
pub mem-spans_for_quantifier :
    (n : ℕ) (runs : List Run) (a b least : ℕ) (most : Option ℕ)
    → Separated n runs
    → HasSpan (spans_for_quantifier runs least most) a b
      ↔ ((a < b) × Block runs a b × Allowed least most (b - a))
unfolding spans_for_quantifier
mem-spans_for_quantifier n runs a b least most s = (
  λ m.
      let (r, k, h) = mem-flat_map (spans_of_run longer longest) (a, b) runs m in
      let (l, u, lo, hi) = (mem-spans_of_run a b longer longest r (omega arith)).0 h in
      (
        omega arith,
        Block-within runs a b r k l u,
        (Tried-iff least most (b - a)).0 (omega arith, omega arith),
      ),
  λ (h, block, allowed).
      let (lo, hi) = (Tried-iff least most (b - a)).1 allowed in
      let (r, e, u) = run_containing-block n runs a b s h block in
      let (w, k) = run_containing-some runs a r e in
      flat_map-mem (spans_of_run longer longest) (a, b) r runs k
        ((mem-spans_of_run a b longer longest r (omega arith)).1
          (w.0, u, omega arith, omega arith)),
)
  where
    longer : ℕ
    longer = max least 1

    longest : ℕ
    longest = max_len most
