-- ===== src/Query/Ast.antt =====
-- crates/montre-query/src/ast.rs: the syntax of queries. A list of queries is a type of the block.
use montre.Prelude.{ℕ, Text, List, [], ◌∷◌, ◌++◌, Option}

pub data ConstraintOp : Type 0 where
  eq ne : ConstraintOp

pub data ConstraintValue : Type 0 where
  literal regex : Text → ConstraintValue

pub record Constraint : Type 0 where
  pub layer : Text
  pub op : ConstraintOp
  pub value : ConstraintValue

pub record TokenPattern : Type 0 where
  pub constraints : List Constraint

pub data CmpOp : Type 0 where
  ge gt le lt eq ne : CmpOp

pub record LabelAttr : Type 0 where
  pub label : Text
  pub attr : Text

pub data GlobalConstraint : Type 0 where
  eq ne : LabelAttr → LabelAttr → GlobalConstraint
  distance : Text → Text → CmpOp → ℕ → GlobalConstraint

mutual
  pub data Query : Type 0 where
    token : TokenPattern → Query
    sequence : Queries → Query
    -- `min` and `max` are `u32`
    repetition : Query → ℕ → Option ℕ → Query
    alternation : Queries → Query
    within : Query → Text → Query
    capture : Text → Query → Query
    within_component : Query → List Text → Query
    within_document : Query → List Text → Query
    project : Query → Text → Query
    constrained : Query → List GlobalConstraint → Query

  pub data Queries : Type 0 where
    no_queries : Queries
    and_query : Query → Queries → Queries

-- `TokenPattern::any` and `TokenPattern::with_constraint`.
abbrev pub any_token : TokenPattern
any_token = record { constraints = [] }

unfoldable pub with_constraint : TokenPattern → Constraint → TokenPattern
with_constraint p c = record { constraints = p.constraints ++ c ∷ [] }
