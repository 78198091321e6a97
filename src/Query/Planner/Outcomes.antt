-- ===== src/Query/Planner/Outcomes.antt =====
-- The plan of a query, or the error that takes its place.
use montre.Prelude.{ℕ, ◌≡◌, refl, ◌⊎◌, inl, Option, some, none, Text}
use montre.Query.{Result, ok, err, unknown_label, ◌>>=◌}
use montre.Query.Ast.{
  Query, Queries, token, sequence, repetition, alternation, within, capture, within_component,
  within_document, project, constrained, no_queries, and_query,
}
use montre.Query.Plan.{
  PlanNode, Steps, union, filter_by_span, filter_by_component, filter_by_document,
  project_alignment, sequence_scan, global_constraint_filter, no_nodes, and_node, no_steps,
  and_step,
}
use montre.Query.Planner.{validate_constraint_labels, plan_token, plan_node, plan_steps, plan_all}
use montre.Query.Planner.Collected.{validate_constraint_labels-Outcome}
use montre.Query.Planner.Labels.{
  WellLabelled, AllWellLabelled, Undeclared, SomeUndeclared, Outcome, Outcome-map, Outcome-both,
  Outcome-check,
}

-- `extract_label`: the label of a capture, and the query behind it.
abbrev label_of : Query → Option Text
label_of (capture name inner) = some name
label_of (token p) = none
label_of (sequence parts) = none
label_of (alternation alts) = none
label_of (within q l) = none
label_of (within_component q cs) = none
label_of (within_document q ds) = none
label_of (project q a) = none
label_of (constrained q cs) = none
label_of (repetition q least most) = none

abbrev behind_label : Query → Query
behind_label (capture name inner) = inner
behind_label (token p) = token p
behind_label (sequence parts) = sequence parts
behind_label (alternation alts) = alternation alts
behind_label (within q l) = within q l
behind_label (within_component q cs) = within_component q cs
behind_label (within_document q ds) = within_document q ds
behind_label (project q a) = project q a
behind_label (constrained q cs) = constrained q cs
behind_label (repetition q least most) = repetition q least most

-- The query that a part of a sequence plans.
abbrev core : Query → Query
core (repetition inner least most) = behind_label inner
core (capture name inner) = inner
core (token p) = token p
core (sequence parts) = sequence parts
core (alternation alts) = alternation alts
core (within q l) = within q l
core (within_component q cs) = within_component q cs
core (within_document q ds) = within_document q ds
core (project q a) = project q a
core (constrained q cs) = constrained q cs

plan_repetition :
    (inner : Query) (least : ℕ) (most : Option ℕ)
    → plan_node (repetition inner least most) ≡ (
        plan_node (behind_label inner) >>= λ node.
        ok (sequence_scan (and_step node least most (label_of inner) no_steps)))
unfolding plan_node
plan_repetition (token p) least most = refl
plan_repetition (sequence parts) least most = refl
plan_repetition (alternation alts) least most = refl
plan_repetition (within q l) least most = refl
plan_repetition (within_component q cs) least most = refl
plan_repetition (within_document q ds) least most = refl
plan_repetition (project q a) least most = refl
plan_repetition (constrained q cs) least most = refl
plan_repetition (repetition q l m) least most = refl
plan_repetition (capture name q) least most = refl

-- The quantifier and the label of a part of a sequence.
abbrev step_of : Query → PlanNode → Steps → Steps
step_of (repetition inner least most) node rest = and_step node least most (label_of inner) rest
step_of (capture name inner) node rest = and_step node 1 (some 1) (some name) rest
step_of (token p) node rest = and_step node 1 (some 1) none rest
step_of (sequence parts) node rest = and_step node 1 (some 1) none rest
step_of (alternation alts) node rest = and_step node 1 (some 1) none rest
step_of (within q l) node rest = and_step node 1 (some 1) none rest
step_of (within_component q cs) node rest = and_step node 1 (some 1) none rest
step_of (within_document q ds) node rest = and_step node 1 (some 1) none rest
step_of (project q a) node rest = and_step node 1 (some 1) none rest
step_of (constrained q cs) node rest = and_step node 1 (some 1) none rest

plan_steps-and_query :
    (q : Query) (rest : Queries)
    → plan_steps (and_query q rest)
      ≡ (plan_node (core q) >>= λ node. plan_steps rest >>= λ steps. ok (step_of q node steps))
unfolding plan_node
plan_steps-and_query (token p) rest = refl
plan_steps-and_query (sequence parts) rest = refl
plan_steps-and_query (alternation alts) rest = refl
plan_steps-and_query (within q l) rest = refl
plan_steps-and_query (within_component q cs) rest = refl
plan_steps-and_query (within_document q ds) rest = refl
plan_steps-and_query (project q a) rest = refl
plan_steps-and_query (constrained q cs) rest = refl
plan_steps-and_query (capture name q) rest = refl
plan_steps-and_query (repetition (token p) least most) rest = refl
plan_steps-and_query (repetition (sequence parts) least most) rest = refl
plan_steps-and_query (repetition (alternation alts) least most) rest = refl
plan_steps-and_query (repetition (within q l) least most) rest = refl
plan_steps-and_query (repetition (within_component q cs) least most) rest = refl
plan_steps-and_query (repetition (within_document q ds) least most) rest = refl
plan_steps-and_query (repetition (project q a) least most) rest = refl
plan_steps-and_query (repetition (constrained q cs) least most) rest = refl
plan_steps-and_query (repetition (repetition q l m) least most) rest = refl
plan_steps-and_query (repetition (capture name q) least most) rest = refl

abbrev OutcomeOf {ℓ} : {A : Type ℓ} → Result A → Query → Type ℓ
OutcomeOf r q = Outcome r (WellLabelled q) (λ label. Undeclared label q)

mutual
  unfolding plan_node

  -- The outcome of a query, of the query behind its label, and of what it plans as a part.
  outcome :
      (q : Query)
      → OutcomeOf (plan_node q) q
        × OutcomeOf (plan_node (behind_label q)) q
        × OutcomeOf (plan_node (core q)) q
  outcome (token p) = let o = inl (plan_token p, refl, tt) in (o, o, o)
  outcome (sequence parts) =
      let o = Outcome-map (plan_steps parts) sequence_scan _ _ (step_outcomes parts) in (o, o, o)
  outcome (repetition inner least most) =
      let (a, b, c) = outcome inner in
      let o : OutcomeOf (plan_node (repetition inner least most)) (repetition inner least most) =
        rw (plan_repetition inner least most) (
          Outcome-map (plan_node (behind_label inner))
            (λ node. sequence_scan (and_step node least most (label_of inner) no_steps)) _ _ b) in
      (o, o, b)
  outcome (alternation alts) =
      let o = Outcome-map (plan_all alts) union _ _ (node_outcomes alts) in (o, o, o)
  outcome (within inner l) =
      let o = Outcome-map (plan_node inner) (λ node. filter_by_span node l) _ _ (outcome inner).0 in
      (o, o, o)
  outcome (capture name inner) =
      let (a, b, c) = outcome inner in
      let step =
        λ (node : PlanNode). sequence_scan (and_step node 1 (some 1) (some name) no_steps) in
      (Outcome-map (plan_node inner) step _ _ a, a, a)
  outcome (within_component inner cs) =
      let o =
        Outcome-map (plan_node inner) (λ node. filter_by_component node cs) _ _ (outcome inner).0 in
      (o, o, o)
  outcome (within_document inner ds) =
      let o =
        Outcome-map (plan_node inner) (λ node. filter_by_document node ds) _ _ (outcome inner).0 in
      (o, o, o)
  outcome (project inner name) =
      let o =
        Outcome-map (plan_node inner) (λ node. project_alignment node name) _ _ (outcome inner).0 in
      (o, o, o)
  outcome (constrained inner cs) =
      let filter = λ (node : PlanNode). global_constraint_filter node cs in
      let o =
        Outcome-check (validate_constraint_labels inner cs)
          (plan_node inner >>= λ node. ok (filter node)) _ _ _ _
          (validate_constraint_labels-Outcome inner cs)
          (Outcome-map (plan_node inner) filter _ _ (outcome inner).0) in
      (o, o, o)

  step_outcomes :
      (qs : Queries)
      → Outcome (plan_steps qs) (AllWellLabelled qs) (λ label. SomeUndeclared label qs)
  step_outcomes no_queries = inl (no_steps, refl, tt)
  step_outcomes (and_query q qs) = rw (plan_steps-and_query q qs) (
      Outcome-both (plan_node (core q)) (plan_steps qs) (step_of q) _ _ _ _ (outcome q).2
        (step_outcomes qs))

  node_outcomes :
      (qs : Queries) → Outcome (plan_all qs) (AllWellLabelled qs) (λ label. SomeUndeclared label qs)
  node_outcomes no_queries = inl (no_nodes, refl, tt)
  node_outcomes (and_query q qs) =
      Outcome-both (plan_node q) (plan_all qs) and_node _ _ _ _ (outcome q).0 (node_outcomes qs)

-- A query has a plan, and then every global constraint names only labels that a capture in the query
-- below it declares; or planning fails with `UnknownLabel`, with a label that a constraint names and the query
-- below it does not declare. There is no other error.
pub plan_node-WellLabelled :
    (q : Query)
    → ((node : PlanNode) × (plan_node q ≡ ok node) × WellLabelled q)
      ⊎ ((label : Text) × (plan_node q ≡ err (unknown_label label)) × Undeclared label q)
plan_node-WellLabelled q = (outcome q).0
