-- ===== src/Tests/Plans.antt =====
-- Plans, filters and whole sequences on the sample corpus.
use montre.Prelude.{
  length, ℕ, ◌≤◌, ◌≡◌, ◌↔◌, ◌⊎◌, refl, arith, ◌∈◌, Text, codes, text_eq, List, [], ◌∷◌, some, none,
}
use montre.Core.{Span}
use montre.Index.Corpus.{spans, lookup}
use montre.Query.{ok, ◌>>=◌, err, unknown_label}
use montre.Query.Ast.{
  Query, GlobalConstraint, CmpOp, any_token, token, sequence, capture, constrained, no_queries,
  and_query,
}
use montre.Query.Plan.{
  PlanNode, Steps, scan_literal, scan_all, difference, sequence_scan, no_steps, and_step,
}
use montre.Query.Planner.{plan_node}
use montre.Query.Planner.Labels.{WellLabelled, Undeclared}
use montre.Query.Planner.Outcomes.{plan_node-WellLabelled}
use montre.Query.Sequence.Hits.{Hit, hit, benefits_from_parallel}
use montre.Query.Sequence.Spans.{HasHit}
use montre.Query.Filter.{filter_by_span_hits, filter_by_document_hits, filter_by_component_hits}
use montre.Query.Filter.Names.{IsNamed, InComponent}
use montre.Query.Filter.Kept.{
  LiesIn, filter_by_span_hits-LiesIn, filter_by_document_hits-IsNamed,
  filter_by_component_hits-InComponent,
}
use montre.Query.Executor.{execute_node, positions_in_range}
use montre.Query.Executor.Agree.{Agrees}
use montre.Query.Executor.Ranges.{positions_in_range-execute_node}
use montre.Query.Executor.Searched.{ranges}
use montre.Query.Executor.Sequences.{
  IsMatch, execute_node-sequence_scan, execute_node-sequence_scan_sound,
}
use montre.Query.Executor.Count.{count_node}
use montre.Query.Executor.Count.Agreement.{count_node-length}
use montre.Tests.Samples.{crates, corpus, documents, sentences, corpus-IsIndexed}

abbrev noun : PlanNode
noun = scan_literal (codes "pos") (codes "NOUN")

abbrev verb : PlanNode
verb = scan_literal (codes "pos") (codes "VERB")

-- [pos="NOUN"]{1,2} [pos="VERB"]
abbrev noun_verb : Steps
noun_verb = and_step noun 1 (some 2) none (and_step verb 1 (some 1) none no_steps)

-- [pos="NOUN"]? [pos="VERB"]
abbrev maybe_noun_verb : Steps
maybe_noun_verb = and_step noun 0 (some 1) none (and_step verb 1 (some 1) none no_steps)

noun_verb-ranges : (r : Span) → r ∈ ranges crates corpus noun_verb → r.end ≤ 8
unfolding ranges spans lookup benefits_from_parallel
noun_verb-ranges r m = ground arith

maybe_noun_verb-ranges : (r : Span) → r ∈ ranges crates corpus maybe_noun_verb → r.end ≤ 8
unfolding ranges spans lookup benefits_from_parallel
maybe_noun_verb-ranges r m = ground arith

execute_node-sequence_scan_example :
    (hits : List Hit) × (execute_node crates corpus (sequence_scan noun_verb) ≡ ok hits)
    × ((s e : ℕ) → HasHit hits s e ↔ IsMatch crates corpus noun_verb s e)
execute_node-sequence_scan_example =
    execute_node-sequence_scan crates corpus noun_verb noun_verb-ranges (omega arith)

execute_node-sequence_scan_sound_example :
    (hits : List Hit) × (execute_node crates corpus (sequence_scan maybe_noun_verb) ≡ ok hits)
    × ((s e : ℕ) → HasHit hits s e → IsMatch crates corpus maybe_noun_verb s e)
execute_node-sequence_scan_sound_example =
    execute_node-sequence_scan_sound crates corpus maybe_noun_verb maybe_noun_verb-ranges

positions_in_range-execute_node_example :
    Agrees 3 6
      (execute_node crates corpus (difference scan_all noun))
      (positions_in_range crates corpus (difference scan_all noun) 3 6)
positions_in_range-execute_node_example =
    positions_in_range-execute_node crates corpus (difference scan_all noun) 3 6 (omega arith)

-- a:[] []  ::  distance(a, b) < 3, where nothing declares `b`
abbrev undeclared : Query
undeclared =
    constrained (sequence (and_query (capture (codes "a") (token any_token)) no_queries))
      (GlobalConstraint.distance (codes "a") (codes "b") CmpOp.lt 3 ∷ [])

plan_node-WellLabelled_example :
    ((node : PlanNode) × (plan_node undeclared ≡ ok node) × WellLabelled undeclared)
    ⊎ ((label : Text) × (plan_node undeclared ≡ err (unknown_label label))
        × Undeclared label undeclared)
plan_node-WellLabelled_example = plan_node-WellLabelled undeclared

abbrev crossing : Hit
crossing = hit 2 4 []

abbrev two_hits : List Hit
two_hits = crossing ∷ hit 6 8 [] ∷ []

corpus-sentences : spans corpus (codes "sentence") ≡ some sentences
unfolding spans lookup text_eq
corpus-sentences = refl

corpus-documents : spans corpus (codes "document") ≡ some documents
unfolding spans lookup text_eq
corpus-documents = refl

filter_by_span_hits-LiesIn_example :
    (crossing ∈ filter_by_span_hits corpus (codes "sentence") two_hits)
    ↔ ((crossing ∈ two_hits) × ((i : ℕ) × LiesIn sentences crossing i))
filter_by_span_hits-LiesIn_example =
    filter_by_span_hits-LiesIn corpus (codes "sentence") sentences 0 crossing two_hits
      corpus-sentences (ground arith)

filter_by_document_hits-IsNamed_example :
    (crossing ∈ filter_by_document_hits corpus (codes "one" ∷ []) two_hits) ↔ (
      (crossing ∈ two_hits)
      × ((i : ℕ) × LiesIn documents crossing i
          × IsNamed (codes "one" ∷ codes "two" ∷ []) (codes "one" ∷ []) i))
filter_by_document_hits-IsNamed_example =
    filter_by_document_hits-IsNamed corpus (codes "one" ∷ []) documents 0 crossing two_hits
      corpus-documents (ground arith)

filter_by_component_hits-InComponent_example :
    (crossing ∈ filter_by_component_hits corpus (codes "novel" ∷ []) two_hits) ↔ (
      (crossing ∈ two_hits)
      × ((i : ℕ) × LiesIn documents crossing i × InComponent corpus (codes "novel" ∷ []) i))
filter_by_component_hits-InComponent_example =
    filter_by_component_hits-InComponent corpus (codes "novel" ∷ []) documents 0 crossing two_hits
      corpus-documents (ground arith)

count_node-length_example :
    count_node crates corpus (difference scan_all noun)
    ≡ (execute_node crates corpus (difference scan_all noun) >>= λ hits. ok (length hits))
count_node-length_example =
    count_node-length crates corpus (difference scan_all noun) corpus-IsIndexed tt
