-- ===== src/Query/Parser/Clauses.antt =====
-- crates/montre-query/src/parser.rs: the clauses behind a sequence, `within`, `=name=>` and `::`.
use montre.Prelude.{ℕ, zero, suc, Text, codes, ◌||◌, ◌&&◌, not, List, ◌∷◌, if◌then◌else◌, text_eq}
use montre.Query.Ast.{
  CmpOp, LabelAttr, GlobalConstraint, Query, within, within_component, within_document, project,
  constrained,
}
use montre.Query.Parser.{
  CharClasses, Parse, done, out_of_fuel, ◌>>=◌, ◌>>◌, pure, fail, starts_with, advance, at_char,
  skip, skip_whitespace, items_behind, then_run, consume, try_consume_str,
}
use montre.Query.Parser.Words.{
  parse_number, parse_cmp_op, expand_span_alias, resolve_layer_alias, parse_identifier,
  parse_bare_identifier, parse_name_list,
}

module _ (chars : CharClasses) where
  unfoldable pub parse_label_attr : Parse LabelAttr
  unfolding parse_bare_identifier consume parse_identifier
  parse_label_attr = do
    label ← parse_bare_identifier chars
    consume chars b'.'
    attr ← parse_identifier chars
    pure (record { label = label; attr = resolve_layer_alias attr })

  -- The constraint that an operator makes of two attributes.
  abbrev pub compare_constraint : CmpOp → LabelAttr → LabelAttr → Parse GlobalConstraint
  compare_constraint CmpOp.eq left right = pure (GlobalConstraint.eq left right)
  compare_constraint CmpOp.ne left right = pure (GlobalConstraint.ne left right)
  compare_constraint _ left right = fail (codes "Attribute comparisons only support '=' and '!='")

  unfoldable pub parse_compare_constraint : Parse GlobalConstraint
  unfolding parse_label_attr parse_cmp_op
  parse_compare_constraint = do
    left ← parse_label_attr
    skip chars
    op ← parse_cmp_op
    skip chars
    right ← parse_label_attr
    compare_constraint op left right

  unfoldable pub parse_distance_constraint : Parse GlobalConstraint
  unfolding consume parse_identifier parse_cmp_op parse_number
  parse_distance_constraint = do
    consume chars b'('
    skip chars
    left ← parse_identifier chars
    skip chars
    consume chars b','
    skip chars
    right ← parse_identifier chars
    skip chars
    consume chars b')'
    skip chars
    op ← parse_cmp_op
    skip chars
    value ← parse_number
    pure (GlobalConstraint.distance left right op value)

  unfoldable pub parse_global_constraint : Parse GlobalConstraint
  unfolding try_consume_str parse_distance_constraint parse_compare_constraint
  parse_global_constraint = do
    skip chars
    found ← try_consume_str chars (codes "distance")
    if found then parse_distance_constraint else parse_compare_constraint

  unfoldable pub parse_constraint_list : Parse (List GlobalConstraint)
  unfolding parse_global_constraint
  parse_constraint_list = do
    first ← parse_global_constraint
    rest ← items_behind chars b'&' parse_global_constraint
    pure (first ∷ rest)

  unfoldable pub maybe_wrap_constrained : Query → Parse Query
  unfolding parse_constraint_list
  maybe_wrap_constrained query p =
      let q = skip_whitespace chars p in
      if starts_with (codes "::") q.rest
      then then_run (parse_constraint_list (advance (codes "::") q))
          (λ constraints. pure (constrained query constraints))
      else done query q

  -- What the word behind `within` makes of the query.
  unfoldable pub within_clause : Query → Text → Parse Query
  unfolding parse_name_list
  within_clause query keyword p =
      if text_eq keyword (codes "component")
      then if at_char b':' p
        then then_run (parse_name_list chars (skip_whitespace chars (advance (codes ":") p)))
            (λ components. pure (within_component query components))
        else fail (codes "Expected ':' after 'component'") p
      else if (text_eq keyword (codes "doc") || text_eq keyword (codes "document"))
          && at_char b':' p
      then then_run (parse_name_list chars (skip_whitespace chars (advance (codes ":") p)))
          (λ documents. pure (within_document query documents))
      else done (within query (expand_span_alias keyword)) p

  unfoldable pub parse_within : Query → Parse Query
  unfolding parse_identifier within_clause
  parse_within query = do
    skip chars
    keyword ← parse_identifier chars
    skip chars
    within_clause query keyword

  -- The name of an alignment and the arrow, behind `=`.
  unfoldable pub parse_projection : Query → Parse Query
  unfolding parse_identifier
  parse_projection query = do
    alignment ← parse_identifier chars
    λ p.
        if starts_with (codes "=>") p.rest
        then done (project query alignment) (advance (codes "=>") p)
        else fail (codes "Expected '=>' after alignment name") p

  unfoldable pub maybe_wrap_within : ℕ → Query → Parse Query
  unfolding try_consume_str parse_within parse_projection
  maybe_wrap_within zero query p = out_of_fuel
  maybe_wrap_within (suc n) query p =
      then_run (try_consume_str chars (codes "within") (skip_whitespace chars p)) λ found q.
        if found
        then then_run (parse_within query q) (maybe_wrap_within n)
        else if starts_with (codes "=") q.rest && not (starts_with (codes "==") q.rest)
        then then_run (parse_projection query (advance (codes "=") q)) (maybe_wrap_within n)
        else done query q
