-- ===== src/Query/Executor/Stages.antt =====
-- The run indices that `build_run_indices` makes of the steps of a sequence over a range.
use montre.Prelude.{
  ℕ, ◌-◌, ◌≤◌, ◌<◌, ◌≡◌, refl, ◌↔◌, inl, inr, arith, Bool-cases, true, Option, List, [], ◌∈◌, map,
  if◌then◌else◌,
}
use montre.Index.{Crates}
use montre.Index.Corpus.{Corpus}
use montre.Query.{Result, ok, err, or_empty}
use montre.Query.Plan.{
  PlanNode, Steps, scan_literal, scan_regex, scan_all, intersect, union, difference, filter_by_span,
  filter_by_component, filter_by_document, project_alignment, sequence_scan,
  global_constraint_filter, no_steps, and_step,
}
use montre.Query.Run.{Run, from_positions, range, half_open}
use montre.Query.Run.Cover.{InRuns, Separated, from_positions-cover, range-cover, mem-count_up}
use montre.Query.Run.Quantifier.{Allowed}
use montre.Query.Sequence.Hits.{Hit, is_scan_all}
use montre.Query.Sequence.Step.{Chain, AllFit}
use montre.Query.Filter.{start_of}
use montre.Query.Executor.{execute_node, positions_in_range, build_stages}
use montre.Query.Executor.Sets.{starts-hits_at}
use montre.Query.Executor.Agree.{Agrees}
use montre.Query.Executor.Ranges.{positions_in_range-execute_node}

is_scan_all-eq : (node : PlanNode) → is_scan_all node ≡ true → node ≡ scan_all
is_scan_all-eq scan_all e = refl
is_scan_all-eq (scan_literal layer value) e = cc
is_scan_all-eq (scan_regex layer pattern) e = cc
is_scan_all-eq (intersect nodes) e = cc
is_scan_all-eq (union nodes) e = cc
is_scan_all-eq (difference base subtract) e = cc
is_scan_all-eq (filter_by_span inner layer) e = cc
is_scan_all-eq (filter_by_component inner names) e = cc
is_scan_all-eq (filter_by_document inner names) e = cc
is_scan_all-eq (project_alignment inner name) e = cc
is_scan_all-eq (sequence_scan steps) e = cc
is_scan_all-eq (global_constraint_filter inner cs) e = cc

-- A hit starts at the position.
abbrev pub Emits : Result (List Hit) → ℕ → Type 0
Emits (ok hits) p = p ∈ map start_of hits
Emits (err e) p = ⊥

InRuns-Agrees :
    (a b p : ℕ) (r : Result (List Hit)) (q : Result (List ℕ))
    → Agrees a b r q
    → InRuns p (from_positions (or_empty q [])) ↔ ((a ≤ p) × (p < b) × Emits r p)
InRuns-Agrees a b p (ok hits) (ok part) h = ground (arith, (from_positions-cover part).1 p, h p)
InRuns-Agrees a b p (ok hits) (err f) h = absurd h
InRuns-Agrees a b p (err e) (ok part) h = absurd h
InRuns-Agrees a b p (err e) (err f) h = ground (arith, (from_positions-cover []).1 p)

module _ (x : Crates) (corpus : Corpus x.Bitmap) where
  -- The step matches one token at the position: a hit of its node starts there. A node that fails
  -- has no hits.
  abbrev pub MatchesToken : PlanNode → ℕ → Type 0
  MatchesToken node p = Emits (execute_node x corpus node) p

  abbrev pub NodeSpan : PlanNode → ℕ → Option ℕ → ℕ → ℕ → Type 0
  NodeSpan node least most a b =
      (a ≤ b) × ((p : ℕ) → a ≤ p → p < b → MatchesToken node p) × Allowed least most (b - a)

  -- Spans one after another, one for each step.
  abbrev pub StepChain : Steps → ℕ → ℕ → Type 0
  StepChain no_steps s e = s ≡ e
  StepChain (and_step node least most label rest) s e =
      (m : ℕ) × NodeSpan node least most s m × StepChain rest m e

  pub StepChain-le : (steps : Steps) (s e : ℕ) → StepChain steps s e → s ≤ e
  StepChain-le no_steps s e c = omega arith
  StepChain-le (and_step node least most label rest) s e (m, k, c) =
      omega (arith, StepChain-le rest m e c, k.0)

  MatchesToken-all : (p : ℕ) → MatchesToken scan_all p ↔ (p < corpus.token_count)
  unfolding execute_node
  MatchesToken-all p =
      rw (starts-hits_at (half_open 0 corpus.token_count))
        (ground (arith, mem-count_up p 0 corpus.token_count))

  module _ (low high : ℕ) (inside : high ≤ corpus.token_count) where
    abbrev runs_of : PlanNode → List Run
    runs_of node =
        if is_scan_all node
        then range low high
        else from_positions (or_empty (positions_in_range x corpus node low high) [])

    runs_of-MatchesToken :
        (node : PlanNode) (p : ℕ)
        → InRuns p (runs_of node) ↔ ((low ≤ p) × (p < high) × MatchesToken node p)
    runs_of-MatchesToken node p = elim (Bool-cases (is_scan_all node)) [
      | inl t ↦
          rw (t, is_scan_all-eq node t)
            (ground (arith, (range-cover low high).1 p, MatchesToken-all p))
      | inr f ↦ rw f (
          InRuns-Agrees low high p (execute_node x corpus node)
            (positions_in_range x corpus node low high)
            (positions_in_range-execute_node x corpus node low high inside))
    ]

    runs_of-Separated : (node : PlanNode) → Separated 0 (runs_of node)
    runs_of-Separated node = elim (Bool-cases (is_scan_all node)) [
      | inl t ↦ rw t (range-cover low high).0
      | inr f ↦
          rw f (from_positions-cover (or_empty (positions_in_range x corpus node low high) [])).0
    ]

    pub build_stages-AllFit :
        (steps : Steps) → AllFit low high (build_stages x corpus steps low high)
    unfolding build_stages
    build_stages-AllFit no_steps = tt
    build_stages-AllFit (and_step node least most label rest) = (
      record {
        apart = runs_of-Separated node;
        inside = λ p m. let (l, u, k) = (runs_of-MatchesToken node p).0 m in (l, u);
        full = λ t p l u.
            (runs_of-MatchesToken node p).1
              (l, u, rw (is_scan_all-eq node t) ((MatchesToken-all p).1 (omega arith)));
      },
      build_stages-AllFit rest,
    )

    -- A chain over the runs is a chain of the steps that stays in the range.
    pub Chain-StepChain :
        (steps : Steps) (s e : ℕ)
        → low ≤ s
        → Chain (build_stages x corpus steps low high) s e
        → StepChain steps s e
    unfolding build_stages
    Chain-StepChain no_steps s e l c = c
    Chain-StepChain (and_step node least most label rest) s e l (m, (k, block, fine), c) = (
      m,
      (
        k,
        λ p pl pu. let (l', u', here) = (runs_of-MatchesToken node p).0 (block p pl pu) in here,
        fine,
      ),
      Chain-StepChain rest m e (omega arith) c,
    )

    pub StepChain-Chain :
        (steps : Steps) (s e : ℕ)
        → low ≤ s
        → e ≤ high
        → StepChain steps s e
        → Chain (build_stages x corpus steps low high) s e
    unfolding build_stages
    StepChain-Chain no_steps s e l u c = c
    StepChain-Chain (and_step node least most label rest) s e l u (m, (k, block, fine), c) =
        let le = StepChain-le rest m e c in
        (
          m,
          (
            k,
            λ p pl pu. (runs_of-MatchesToken node p).1 (omega arith, omega arith, block p pl pu),
            fine,
          ),
          StepChain-Chain rest m e (omega arith) u c,
        )
