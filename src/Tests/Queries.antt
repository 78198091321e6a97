-- ===== src/Tests/Queries.antt =====
-- A pattern, a hit with captures and a span of the sample corpus.
use montre.Prelude.{
  true, ℕ, ◌+◌, ◌<◌, ◌≡◌, ◌↔◌, refl, arith, ◌∈◌, Text, text_eq, codes, List, [], ◌∷◌, Option, some,
  partition_point,
}
use montre.Core.{Span, span, span_containing}
use montre.Query.{ok}
use montre.Query.Ast.{ConstraintOp, ConstraintValue, TokenPattern, GlobalConstraint, CmpOp}
use montre.Query.Planner.{plan_token}
use montre.Query.Sequence.Hits.{Hit, hit}
use montre.Query.Sequence.Spans.{HasHit}
use montre.Query.Constraint.{collect_attr_keys, evaluate_constraints}
use montre.Query.Constraint.Holds.{Holds}
use montre.Query.Constraint.Meaning.{evaluate_constraints-Holds}
use montre.Query.Alignment.{find_doc_and_sent, resolve_target_span}
use montre.Query.Alignment.RoundTrip.{Covers, Nested, resolve-find}
use montre.Query.Context.{populate_context}
use montre.Query.Executor.{execute_node}
use montre.Query.Executor.Meets.{AllCompile, Meets}
use montre.Query.Executor.Token.{execute_node-plan_token}
use montre.Tests.Samples.{crates, corpus, documents, sentences, novel, corpus-IsIndexed}

-- [pos != "DET" & pos = /NOUN/]
abbrev pattern : TokenPattern
pattern = record {
  constraints =
      record {
        layer = codes "pos";
        op = ConstraintOp.ne;
        value = ConstraintValue.literal (codes "DET");
      }
      ∷ record {
        layer = codes "pos";
        op = ConstraintOp.eq;
        value = ConstraintValue.regex (codes "NOUN");
      }
      ∷ [];
}

pattern-AllCompile : AllCompile crates corpus pattern.constraints
unfolding text_eq
pattern-AllCompile = (tt, ((_, refl), tt))

execute_node-plan_token_example :
    (hits : List Hit) × (execute_node crates corpus (plan_token pattern) ≡ ok hits)
    × ((s e : ℕ)
        → HasHit hits s e ↔ ((e ≡ s + 1) × (s < 8) × Meets crates corpus pattern.constraints s))
execute_node-plan_token_example =
    execute_node-plan_token crates corpus pattern corpus-IsIndexed pattern-AllCompile

-- Two captures, with one form each.
abbrev captured_hit : Hit
captured_hit = hit 0 3 ((codes "a", span 0 1) ∷ (codes "b", span 2 3) ∷ [])

abbrev forms : ℕ → Text → Option Text
forms position layer = some (codes "cat")

-- a.word = b.word & distance(a, b) >= 1
abbrev constraints : List GlobalConstraint
constraints =
    GlobalConstraint.eq (record { label = codes "a"; attr = codes "word" })
      (record { label = codes "b"; attr = codes "word" })
    ∷ GlobalConstraint.distance (codes "a") (codes "b") CmpOp.ge 1
    ∷ []

evaluate_constraints-Holds_example :
    (evaluate_constraints forms captured_hit constraints (collect_attr_keys constraints) ≡ true)
    ↔ ((c : GlobalConstraint) → c ∈ constraints → Holds forms captured_hit c)
evaluate_constraints-Holds_example = evaluate_constraints-Holds forms captured_hit constraints

passes : evaluate_constraints forms captured_hit constraints (collect_attr_keys constraints) ≡ true
unfolding evaluate_constraints collect_attr_keys
passes = refl

documents-Nested : (d : Span) → d ∈ documents → Nested d sentences
documents-Nested d m s n h = ground arith

found_unit : find_doc_and_sent (span 4 6) documents sentences novel ≡ some (0, 1)
unfolding find_doc_and_sent span_containing partition_point
found_unit = refl

resolve-find_example :
    (t : Span) × (resolve_target_span 0 1 documents sentences novel ≡ some t)
    × Covers t (span 4 6)
    × (t ∈ sentences)
resolve-find_example =
    resolve-find (span 4 6) documents sentences novel 0 1 documents-Nested (omega arith) found_unit

has_context :
    populate_context corpus (hit 4 6 [] ∷ [])
    ≡ record (hit 4 6 []) { document_index = 0; sentence_index = 1 } ∷ []
unfolding populate_context text_eq
has_context = refl
