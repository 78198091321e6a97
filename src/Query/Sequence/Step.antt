-- ===== src/Query/Sequence/Step.antt =====
-- A description of what a sequence matches that knows no tables: a chain of spans, one for each step,
-- each of them a block of covered positions of an allowed length.
use montre.Prelude.{
  ltb→lt, ltb→ge, ltb, ℕ, ◌-◌, ◌≤◌, ◌<◌, ◌≡◌, ◌↔◌, ◌⊎◌, inl, inr, arith, leb, Bool-cases, List, [],
  ◌∷◌, ◌∈◌, true, false, leb→gt, leb→le,
}
use montre.Query.Run.Cover.{InRuns, Separated}
use montre.Query.Run.Quantifier.{
  Allowed, Allowed-empty, Block, mem-continuations_at, mem-spans_for_scan_all,
}
use montre.Query.Sequence.{Stage, continuations}

-- A step matches the span from `a` to `b`.
abbrev pub StepSpan : Stage → ℕ → ℕ → Type 0
StepSpan stage a b = (a ≤ b) × Block stage.runs a b × Allowed stage.least stage.most (b - a)

abbrev pub Chain : List Stage → ℕ → ℕ → Type 0
Chain [] a b = a ≡ b
Chain (stage ∷ stages) a b = (m : ℕ) × StepSpan stage a m × Chain stages m b

-- A step over a range: its runs are apart and lie in the range, and those of `[]` fill it.
pub record Fits (low high : ℕ) (stage : Stage) : Type 0 where
  pub apart : Separated 0 stage.runs
  pub inside : (p : ℕ) → InRuns p stage.runs → (low ≤ p) × (p < high)
  pub full : stage.is_scan_all ≡ true → (p : ℕ) → low ≤ p → p < high → InRuns p stage.runs

abbrev pub AllFit : ℕ → ℕ → List Stage → Type 0
AllFit low high [] = Unit {0}
AllFit low high (stage ∷ stages) = Fits low high stage × AllFit low high stages

-- A block that starts in the range ends in it.
Block-le :
    (low high : ℕ) (stage : Stage) (a b : ℕ)
    → Fits low high stage
    → a ≤ high
    → Block stage.runs a b
    → b ≤ high ⊎ (b ≤ a)
Block-le low high stage a b fits h block = elim (Bool-cases (leb b a)) [
  | inl e ↦ inr (leb→le b a e)
  | inr e ↦
      let lt = leb→gt b a e in
      inl (omega (arith, fits.inside (b - 1) (block (b - 1) (omega arith) (omega arith))))
]

-- A step that takes nothing, or that goes on to one of its continuations, matches a span.
pub step_iff :
    (low high : ℕ) (stage : Stage) (a b : ℕ)
    → Fits low high stage
    → low ≤ a
    → a ≤ high
    → ((stage.least ≡ 0) × (b ≡ a) ⊎ (b ∈ continuations stage high a)) ↔ StepSpan stage a b
unfolding continuations
step_iff low high stage a b fits l h = (sound, complete)
  where
    from_all : stage.is_scan_all ≡ true → b ∈ continuations stage high a → StepSpan stage a b
    from_all t m =
        let (k, u, ok) =
          (mem-spans_for_scan_all a b stage.least high stage.most).0 (ground arith) in
        (k, λ p pl pu. fits.full t p (omega arith) (omega arith), ok)

    from_runs : stage.is_scan_all ≡ false → b ∈ continuations stage high a → StepSpan stage a b
    from_runs f m =
        let (here, k, block, ok) =
          (mem-continuations_at 0 stage.runs a b stage.least stage.most fits.apart).0
            (ground arith) in
        (k, block, ok)

    sound : (stage.least ≡ 0) × (b ≡ a) ⊎ (b ∈ continuations stage high a) → StepSpan stage a b
    sound (inl (z, e)) = (
      omega arith,
      λ p pl pu. absurd (omega arith),
      Allowed-empty stage.least stage.most (b - a) (omega arith) (omega arith),
    )
    sound (inr m) = elim (Bool-cases stage.is_scan_all) [
      | inl t ↦ from_all t m
      | inr f ↦ from_runs f m
    ]

    complete : StepSpan stage a b → (stage.least ≡ 0) × (b ≡ a) ⊎ (b ∈ continuations stage high a)
    complete (k, block, ok) = elim (Bool-cases (leb b a)) [
      | inl e ↦ let same = leb→le b a e in inl (omega arith, omega arith)
      | inr e ↦
          let lt = leb→gt b a e in
          let here = block a (omega arith) lt in
          let last = fits.inside (b - 1) (block (b - 1) (omega arith) (omega arith)) in
          ground (
            arith,
            last,
            (mem-spans_for_scan_all a b stage.least high stage.most).1 (k, omega (arith, last), ok),
            (mem-continuations_at 0 stage.runs a b stage.least stage.most fits.apart).1
                (here, k, block, ok),
          )
    ]

pub StepSpan-high :
    (low high : ℕ) (stage : Stage) (a b : ℕ)
    → Fits low high stage
    → low ≤ a
    → a ≤ high
    → StepSpan stage a b
    → (low ≤ b) × (b ≤ high)
StepSpan-high low high stage a b fits l h (k, block, ok) =
    ground (arith, Block-le low high stage a b fits h block)

-- A chain that takes a token stays in the range.
Chain-le : (stages : List Stage) (s e : ℕ) → Chain stages s e → s ≤ e
Chain-le [] s e c = omega arith
Chain-le (stage ∷ stages) s e (m, k, c) = omega (arith, Chain-le stages m e c, k.0)

pub Chain-bounds :
    (low high : ℕ) (stages : List Stage) (s e : ℕ)
    → AllFit low high stages
    → Chain stages s e
    → s < e
    → (low ≤ s) × (e ≤ high)
Chain-bounds low high [] s e fit c h = omega arith
Chain-bounds low high (stage ∷ stages) s e (fit, fits) (m, (k, block, fine), c) h =
    let le = Chain-le stages m e c in
    (
      elim (Bool-cases (ltb s m)) [
        | inl t ↦
            let lt = ltb→lt s m t in let here = fit.inside s (block s (omega arith) lt) in here.0
        | inr f ↦
            let ge = ltb→ge s m f in
            let rest = Chain-bounds low high stages m e fits c (omega arith) in
            omega (arith, rest.0)
      ],
      elim (Bool-cases (ltb m e)) [
        | inl t ↦ (Chain-bounds low high stages m e fits c (ltb→lt m e t)).1
        | inr f ↦
            let ge = ltb→ge m e f in
            let last = fit.inside (m - 1) (block (m - 1) (omega arith) (omega arith)) in
            omega (arith, last.1)
      ],
    )
