-- ===== src/Query/Sequence/Found.antt =====
-- The partial matches and the hits of a whole sequence, exactly: which spans are found, and which
-- are missed when the first step is optional.
use montre.Prelude.{ℕ, ◌+◌, ◌-◌, ◌≤◌, ◌<◌, ◌≡◌, ◌↔◌, ◌⊎◌, inl, inr, arith, List, [], ◌∷◌, ◌++◌, map}
use montre.Index.{Crates}
use montre.Query.Run.{Run, spans_for_quantifier}
use montre.Query.Run.Cover.{InRuns, Separated}
use montre.Query.Run.Quantifier.{HasSpan, Allowed-empty, mem-spans_for_quantifier}
use montre.Query.Sequence.{
  Stage, Tracker, first_pushes, skip_pushes, first_active, later_steps, run_sequence_steps,
}
use montre.Query.Sequence.Entries.{HasStart, HasPush, HasStart-pushed, HasPush-append}
use montre.Query.Sequence.Step.{StepSpan, Chain, Fits, AllFit}
use montre.Query.Sequence.Chain.{KeepsStart, Held, Bounded, HasStart-later_steps}

-- A position at which one of the runs starts.
abbrev pub StartsRun : ℕ → List Run → Type 0
StartsRun s [] = ⊥
StartsRun s (r ∷ runs) = (s ≡ r.start) ⊎ StartsRun s runs

-- An optional first step is skipped at `s`.
abbrev pub Skipped : Stage → List Stage → ℕ → ℕ → Type 0
Skipped first [] s m = ⊥
Skipped first (second ∷ rest) s m = (first.least ≡ 0) × (m ≡ s) × StartsRun s second.runs

-- The first step takes a span, or it is skipped.
abbrev pub Begins : Stage → List Stage → ℕ → ℕ → Type 0
Begins first rest s m = (s < m) × StepSpan first s m ⊎ Skipped first rest s m

StartsRun-InRuns : (n s : ℕ) (runs : List Run) → Separated n runs → StartsRun s runs → InRuns s runs
StartsRun-InRuns n s [] sep h = h
StartsRun-InRuns n s (r ∷ runs) sep (inl e) = inl (omega arith, omega arith)
StartsRun-InRuns n s (r ∷ runs) sep (inr h) = inr (StartsRun-InRuns (r.end + 1) s runs sep.2 h)

module _ {A : Type 0} (tracker : Tracker A) (keeps : KeepsStart tracker) where
  HasPush-begins :
      (stage : Stage) (spans : List (ℕ × ℕ)) (e s : ℕ)
      → HasPush tracker.key (map (λ (a, b). (b, tracker.begin stage a b)) spans) e s
        ↔ HasSpan spans s e
  HasPush-begins stage [] e s = ground arith
  HasPush-begins stage ((a, b) ∷ spans) e s =
      ground (arith, keeps.key-begin stage a b, HasPush-begins stage spans e s)

  HasPush-starts :
      (stage : Stage) (runs : List Run) (e s : ℕ)
      → HasPush tracker.key (map (λ r. (r.start, tracker.begin stage r.start r.start)) runs) e s
        ↔ ((e ≡ s) × StartsRun s runs)
  HasPush-starts stage [] e s = ground arith
  HasPush-starts stage (r ∷ runs) e s =
      ground (arith, keeps.key-begin stage r.start r.start, HasPush-starts stage runs e s)

  HasPush-skip :
      (first : Stage) (rest : List Stage) (e s : ℕ)
      → HasPush tracker.key (skip_pushes tracker first rest) e s ↔ Skipped first rest s e
  HasPush-skip first [] e s = ground arith
  HasPush-skip first (second ∷ rest) e s = ground (arith, HasPush-starts first second.runs e s)

  HasStart-first_active :
      (first : Stage) (rest : List Stage) (e s : ℕ)
      → Separated 0 first.runs
      → HasStart tracker.key (first_active tracker first rest) e s ↔ Begins first rest s e
  unfolding first_active
  HasStart-first_active first rest e s apart =
      let spans = spans_for_quantifier first.runs first.least first.most in
      let taken = HasPush-begins first spans e s in
      let blocks = mem-spans_for_quantifier 0 first.runs s e first.least first.most apart in
      let both =
        HasPush-append tracker.key (first_pushes tracker first) (skip_pushes tracker first rest) e
          s in
      let pushed =
        HasStart-pushed tracker.key (first_pushes tracker first ++ skip_pushes tracker first rest) e
          s in
      let skipped = HasPush-skip first rest e s in
      (
        λ h. elim (both.0 (pushed.0 h)) [
          | inl t ↦ let (l, block, ok) = blocks.0 (taken.0 t) in inl (l, (omega arith, block, ok))
          | inr k ↦ inr (skipped.0 k)
        ],
        λ b. pushed.1 (
            both.1 (elim b [
              | inl (l, (k, block, ok)) ↦ inl (taken.1 (blocks.1 (l, block, ok)))
              | inr k ↦ inr (skipped.1 k)
            ])),
      )

module _ (x : Crates) {A : Type 0} (tracker : Tracker A) (keeps : KeepsStart tracker) where
  Skipped-bounds :
      (low high : ℕ) (first : Stage) (rest : List Stage) (s m : ℕ)
      → AllFit low high rest
      → Skipped first rest s m
      → (low ≤ m) × (m ≤ high)
  Skipped-bounds low high first [] s m fit h = absurd h
  Skipped-bounds low high first (second ∷ rest) s m fit (z, e, h) =
      let here = StartsRun-InRuns 0 s second.runs fit.0.apart h in
      omega (arith, fit.0.inside s here)

  StepSpan-low :
      (low high : ℕ) (stage : Stage) (s m : ℕ)
      → Fits low high stage
      → s < m
      → StepSpan stage s m
      → (low ≤ m) × (m ≤ high)
  StepSpan-low low high stage s m fits l (k, block, ok) =
      omega (arith, fits.inside (m - 1) (block (m - 1) (omega arith) (omega arith)))

  first_active-Bounded :
      (low high : ℕ) (first : Stage) (rest : List Stage)
      → AllFit low high (first ∷ rest)
      → Bounded x tracker keeps low high (first_active tracker first rest)
  first_active-Bounded low high first rest fit e s h =
      elim ((HasStart-first_active tracker keeps first rest e s fit.0.apart).0 h) [
        | inl (l, k) ↦ StepSpan-low low high first s e fit.0 l k
        | inr k ↦ Skipped-bounds low high first rest s e fit.1 k
      ]

  run_sequence_steps-eq :
      (low high : ℕ) (first : Stage) (rest : List Stage)
      → low < high
      → run_sequence_steps x tracker (first ∷ rest) low high
        ≡ later_steps x tracker rest high (first_active tracker first rest)
  unfolding run_sequence_steps
  run_sequence_steps-eq low high first rest l = ground arith

  -- Exactly what is held at the end: a start of the first step, and a chain of spans from there.
  pub run_sequence_steps-Begins :
      (low high : ℕ) (first : Stage) (rest : List Stage) (e s : ℕ)
      → low < high
      → AllFit low high (first ∷ rest)
      → Held x tracker keeps (run_sequence_steps x tracker (first ∷ rest) low high) e s
        ↔ ((m : ℕ) × Begins first rest s m × Chain rest m e)
  run_sequence_steps-Begins low high first rest e s l fit =
      let start = λ (m : ℕ). HasStart-first_active tracker keeps first rest m s fit.0.apart in
      let later =
        HasStart-later_steps x tracker keeps low high rest (first_active tracker first rest) e s
          fit.1 (first_active-Bounded low high first rest fit) in
      rw (run_sequence_steps-eq low high first rest l) (
        λ h. let (m, k, c) = later.0 h in (m, (start m).0 k, c),
        λ (m, b, c). later.1 (m, (start m).1 b, c),
      )

-- A start is a match of the steps.
Begins-StepSpan :
    (first : Stage) (rest : List Stage) (s m : ℕ) → Begins first rest s m → StepSpan first s m
Begins-StepSpan first rest s m (inl (l, k)) = k
Begins-StepSpan first [] s m (inr k) = absurd k
Begins-StepSpan first (second ∷ rest) s m (inr (z, e, h)) = (
  omega arith,
  λ p pl pu. absurd (omega arith),
  Allowed-empty first.least first.most (m - s) (omega arith) (omega arith),
)

pub Begins-Chain :
    (first : Stage) (rest : List Stage) (s e m : ℕ)
    → Begins first rest s m
    → Chain rest m e
    → Chain (first ∷ rest) s e
Begins-Chain first rest s e m b c = (m, Begins-StepSpan first rest s m b, c)

-- Where the first step must take a token, every chain begins.
pub Chain-Begins :
    (first : Stage) (rest : List Stage) (s e : ℕ)
    → 0 < first.least
    → Chain (first ∷ rest) s e
    → (m : ℕ) × Begins first rest s m × Chain rest m e
Chain-Begins first rest s e h (m, (k, block, ok), c) = (m, inl (omega arith, (k, block, ok)), c)
