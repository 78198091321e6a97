-- ===== src/Query/Parser/Labels.antt =====
-- crates/montre-query/src/parser.rs: the check that no label stands twice in a query.
use montre.Prelude.{Text, codes, List, [], ◌∷◌, ◌++◌, any, text_eq, if◌then◌else◌}
use montre.Query.{QueryError, Result, ok, err, ◌>>=◌}
use montre.Query.Ast.{
  Query, Queries, no_queries, and_query, token, sequence, repetition, alternation, within, capture,
  within_component, within_document, project, constrained,
}

-- The labels seen so far, and then those of the query too.
unfoldable mutual
  pub collect_labels : Query → List Text → Result (List Text)
  collect_labels (capture name inner) seen =
      if any (text_eq name) seen
      then err (QueryError.parse 0 (codes "Duplicate label name '" ++ name ++ codes "'"))
      else collect_labels inner (seen ++ name ∷ [])
  collect_labels (sequence parts) seen = collect_labels_all parts seen
  collect_labels (repetition inner least most) seen = collect_labels inner seen
  collect_labels (alternation alts) seen = collect_labels_all alts seen
  collect_labels (within inner l) seen = collect_labels inner seen
  collect_labels (within_component inner cs) seen = collect_labels inner seen
  collect_labels (within_document inner ds) seen = collect_labels inner seen
  collect_labels (project inner a) seen = collect_labels inner seen
  collect_labels (constrained inner cs) seen = collect_labels inner seen
  collect_labels (token p) seen = ok seen

  pub collect_labels_all : Queries → List Text → Result (List Text)
  collect_labels_all no_queries seen = ok seen
  collect_labels_all (and_query q qs) seen = collect_labels q seen >>= collect_labels_all qs

unfoldable pub check_duplicate_labels : Query → Result (Unit {0})
unfolding collect_labels
check_duplicate_labels query = collect_labels query [] >>= λ _. ok tt
