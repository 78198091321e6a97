-- ===== src/Query/Plan.antt =====
-- crates/montre-query/src/planner.rs: the nodes of a plan.
use montre.Prelude.{ℕ, Text, List, Option, some, none}
use montre.Query.Ast.{GlobalConstraint}

mutual
  pub data PlanNode : Type 0 where
    scan_literal : Text → Text → PlanNode
    scan_regex : Text → Text → PlanNode
    scan_all : PlanNode
    intersect union : Nodes → PlanNode
    difference : PlanNode → PlanNode → PlanNode
    filter_by_span : PlanNode → Text → PlanNode
    filter_by_component filter_by_document : PlanNode → List Text → PlanNode
    project_alignment : PlanNode → Text → PlanNode
    sequence_scan : Steps → PlanNode
    global_constraint_filter : PlanNode → List GlobalConstraint → PlanNode

  pub data Nodes : Type 0 where
    no_nodes : Nodes
    and_node : PlanNode → Nodes → Nodes

  -- `SequenceStep { node, min, max, label }` in front of the others
  pub data Steps : Type 0 where
    no_steps : Steps
    and_step : PlanNode → ℕ → Option ℕ → Option Text → Steps → Steps

-- `SequenceStep::once` and `SequenceStep::repeated`, in front of the others.
abbrev pub once : PlanNode → Steps → Steps
once node rest = and_step node 1 (some 1) none rest

abbrev pub repeated : PlanNode → ℕ → Option ℕ → Steps → Steps
repeated node min max rest = and_step node min max none rest
