-- ===== src/Query/Planner.antt =====
-- crates/montre-query/src/planner.rs: from a query to its plan.
pub mod Labels
pub mod Collected
pub mod Outcomes
use montre.Prelude.{
  Text, List, [], ◌∷◌, ◌++◌, some, none, Bool, true, false, any, text_eq, if◌then◌else◌,
}
use montre.Query.{Result, ok, err, unknown_label, ◌>>=◌, ◌>>◌}
use montre.Query.Ast.{
  Constraint, ConstraintOp, ConstraintValue, TokenPattern, GlobalConstraint, Query, Queries, token,
  sequence, repetition, alternation, within, capture, within_component, within_document, project,
  constrained, no_queries, and_query,
}
use montre.Query.Plan.{
  PlanNode, Nodes, Steps, scan_literal, scan_regex, scan_all, intersect, union, difference,
  filter_by_span, filter_by_component, filter_by_document, project_alignment, sequence_scan,
  global_constraint_filter, no_nodes, and_node, no_steps, and_step,
}

-- The scan of one constraint.
unfoldable pub scan_node : Constraint → PlanNode
scan_node c = elim c.value [
  | ConstraintValue.literal v ↦ scan_literal c.layer v
  | ConstraintValue.regex r ↦ scan_regex c.layer r
]

abbrev pub is_eq : ConstraintOp → Bool
is_eq ConstraintOp.eq = true
is_eq ConstraintOp.ne = false

-- `positive_nodes` and `negative_nodes`, each in the order of the constraints.
unfoldable pub positive_nodes : List Constraint → Nodes
unfolding scan_node
positive_nodes [] = no_nodes
positive_nodes (c ∷ cs) =
    if is_eq c.op then and_node (scan_node c) (positive_nodes cs) else positive_nodes cs

unfoldable pub negative_nodes : List Constraint → Nodes
unfolding scan_node
negative_nodes [] = no_nodes
negative_nodes (c ∷ cs) =
    if is_eq c.op then negative_nodes cs else and_node (scan_node c) (negative_nodes cs)

unfoldable pub positive_plan : Nodes → PlanNode
positive_plan no_nodes = scan_all
positive_plan (and_node n no_nodes) = n
positive_plan nodes = intersect nodes

unfoldable pub negative_plan : PlanNode → Nodes → PlanNode
negative_plan positive no_nodes = positive
negative_plan positive (and_node n no_nodes) = difference positive n
negative_plan positive nodes = difference positive (union nodes)

unfoldable pub plan_token : TokenPattern → PlanNode
unfolding positive_nodes negative_nodes positive_plan negative_plan
plan_token pattern = elim pattern.constraints [
  | [] ↦ scan_all
  | c ∷ cs ↦ negative_plan (positive_plan (positive_nodes (c ∷ cs))) (negative_nodes (c ∷ cs))
]

-- The labels that a query declares, in the order of the text; the program keeps a set of them.
unfoldable mutual
  pub collect_declared_labels : Query → List Text
  collect_declared_labels (token p) = []
  collect_declared_labels (sequence parts) = collect_declared_labels_all parts
  collect_declared_labels (repetition inner min max) = collect_declared_labels inner
  collect_declared_labels (alternation alts) = collect_declared_labels_all alts
  collect_declared_labels (within inner l) = collect_declared_labels inner
  collect_declared_labels (capture name inner) = name ∷ collect_declared_labels inner
  collect_declared_labels (within_component inner cs) = collect_declared_labels inner
  collect_declared_labels (within_document inner ds) = collect_declared_labels inner
  collect_declared_labels (project inner a) = collect_declared_labels inner
  collect_declared_labels (constrained inner cs) = collect_declared_labels inner

  pub collect_declared_labels_all : Queries → List Text
  collect_declared_labels_all no_queries = []
  collect_declared_labels_all (and_query q qs) =
      collect_declared_labels q ++ collect_declared_labels_all qs

unfoldable pub referenced_labels : List GlobalConstraint → List Text
referenced_labels [] = []
referenced_labels (GlobalConstraint.eq l r ∷ cs) = l.label ∷ r.label ∷ referenced_labels cs
referenced_labels (GlobalConstraint.ne l r ∷ cs) = l.label ∷ r.label ∷ referenced_labels cs
referenced_labels (GlobalConstraint.distance l r op v ∷ cs) = l ∷ r ∷ referenced_labels cs

-- The first label that is not declared is reported. The program walks a hash set, so of several
-- unknown labels it may report another.
unfoldable pub check_labels : List Text → List Text → Result (Unit {0})
check_labels declared [] = ok tt
check_labels declared (label ∷ rest) =
    if any (text_eq label) declared then check_labels declared rest else err (unknown_label label)

unfoldable pub validate_constraint_labels : Query → List GlobalConstraint → Result (Unit {0})
unfolding collect_declared_labels referenced_labels check_labels
validate_constraint_labels inner constraints =
    check_labels (collect_declared_labels inner) (referenced_labels constraints)

-- `plan_node`. In a sequence, and under a repetition, `extract_label` takes the label of a capture
-- off and plans the query behind it: the clauses on `capture`.
unfoldable mutual
  pub plan_node : Query → Result PlanNode
  plan_node (token pattern) = ok (plan_token pattern)
  plan_node (sequence parts) = do steps ← plan_steps parts; ok (sequence_scan steps)
  plan_node (repetition (capture name inner) min max) = do
    node ← plan_node inner
    ok (sequence_scan (and_step node min max (some name) no_steps))
  plan_node (repetition inner min max) = do
    node ← plan_node inner
    ok (sequence_scan (and_step node min max none no_steps))
  plan_node (alternation alternatives) = do nodes ← plan_all alternatives; ok (union nodes)
  plan_node (within inner span_layer) = do
    node ← plan_node inner
    ok (filter_by_span node span_layer)
  plan_node (capture name inner) = do
    node ← plan_node inner
    ok (sequence_scan (and_step node 1 (some 1) (some name) no_steps))
  plan_node (within_component inner components) = do
    node ← plan_node inner
    ok (filter_by_component node components)
  plan_node (within_document inner documents) = do
    node ← plan_node inner
    ok (filter_by_document node documents)
  plan_node (project inner alignment) = do
    node ← plan_node inner
    ok (project_alignment node alignment)
  plan_node (constrained inner constraints) = do
    validate_constraint_labels inner constraints
    node ← plan_node inner
    ok (global_constraint_filter node constraints)

  pub plan_steps : Queries → Result Steps
  plan_steps no_queries = ok no_steps
  plan_steps (and_query (repetition (capture name inner) min max) rest) = do
    node ← plan_node inner
    steps ← plan_steps rest
    ok (and_step node min max (some name) steps)
  plan_steps (and_query (repetition inner min max) rest) = do
    node ← plan_node inner
    steps ← plan_steps rest
    ok (and_step node min max none steps)
  plan_steps (and_query (capture name inner) rest) = do
    node ← plan_node inner
    steps ← plan_steps rest
    ok (and_step node 1 (some 1) (some name) steps)
  plan_steps (and_query q rest) = do
    node ← plan_node q
    steps ← plan_steps rest
    ok (and_step node 1 (some 1) none steps)

  pub plan_all : Queries → Result Nodes
  plan_all no_queries = ok no_nodes
  plan_all (and_query q rest) = do
    node ← plan_node q
    nodes ← plan_all rest
    ok (and_node node nodes)
