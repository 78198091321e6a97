-- ===== src/Query/Parser/Patterns.antt =====
-- crates/montre-query/src/parser.rs: token patterns, quoted words and quantifiers.
use montre.Prelude.{ℕ, codes, Option, none, some, List, [], ◌∷◌, if◌then◌else◌}
use montre.Query.Ast.{
  Constraint, ConstraintOp, ConstraintValue, TokenPattern, any_token, with_constraint, Query, token,
  repetition,
}
use montre.Query.Parser.{
  CharClasses, Parse, done, ◌>>=◌, ◌>>◌, pure, fail, starts_with, advance, at_char, quote, skip,
  skip_whitespace, items_behind, then_run, consume, try_consume,
}
use montre.Query.Parser.Words.{parse_number, read_up_to, resolve_layer_alias, parse_identifier}

unfoldable pub parse_constraint_value : Parse ConstraintValue
parse_constraint_value p =
    if at_char quote p
    then then_run (read_up_to quote (codes "Unterminated string") (advance (quote ∷ []) p))
        (λ text. pure (ConstraintValue.literal text))
    else if at_char b'/' p
    then then_run (read_up_to b'/' (codes "Unterminated regex") (advance (codes "/") p))
        (λ text. pure (ConstraintValue.regex text))
    else fail (codes "Expected quoted string or regex") p

-- `for c in constraints { pattern = pattern.with_constraint(c) }`.
unfoldable pub with_constraints : TokenPattern → List Constraint → TokenPattern
unfolding with_constraint
with_constraints pattern [] = pattern
with_constraints pattern (c ∷ cs) = with_constraints (with_constraint pattern c) cs

module _ (chars : CharClasses) where
  unfoldable pub parse_constraint_op : Parse ConstraintOp
  unfolding try_consume
  parse_constraint_op p =
      if starts_with (codes "!=") p.rest
      then done ConstraintOp.ne (advance (codes "!=") p)
      else then_run (try_consume chars b'=' p)
          λ found. if found then pure ConstraintOp.eq else fail (codes "Expected '=' or '!='")

  unfoldable pub parse_constraint : Parse Constraint
  unfolding parse_constraint_op parse_constraint_value
  parse_constraint = do
    skip chars
    name ← parse_identifier chars
    skip chars
    op ← parse_constraint_op
    skip chars
    value ← parse_constraint_value
    pure (record { layer = resolve_layer_alias name; op = op; value = value })

  unfoldable pub parse_token_pattern : Parse Query
  unfolding consume try_consume parse_constraint with_constraints
  parse_token_pattern = do
    consume chars b'['
    skip chars
    closed ← try_consume chars b']'
    if closed then pure (token any_token) else (do
      first ← parse_constraint
      rest ← items_behind chars b'&' parse_constraint
      consume chars b']'
      pure (token (with_constraints (record { constraints = [] }) (first ∷ rest))))

  unfoldable pub parse_quoted_word : Parse Query
  unfolding consume with_constraint
  parse_quoted_word = do
    consume chars quote
    word ← read_up_to quote (codes "Unterminated string")
    pure (
        token (
          with_constraint (record { constraints = [] })
            (record {
              layer = codes "word";
              op = ConstraintOp.eq;
              value = ConstraintValue.literal word;
            })))

  -- The upper bound, which may be left out before `}`.
  unfoldable pub parse_most : Parse (Option ℕ)
  unfolding parse_number
  parse_most p =
      if at_char b'}' p then done none p else then_run (parse_number p) (λ n. pure (some n))

  -- The bounds behind `{`.
  unfoldable pub parse_bounds : Query → Parse Query
  unfolding parse_number parse_most consume try_consume
  parse_bounds inner = do
    skip chars
    least ← parse_number
    skip chars
    closed ← try_consume chars b'}'
    if closed then pure (repetition inner least (some least)) else (do
      consume chars b','
      skip chars
      most ← parse_most
      consume chars b'}'
      pure (repetition inner least most))

  unfoldable pub parse_quantifier : Query → Parse Query
  unfolding parse_bounds
  parse_quantifier inner p =
      let q = skip_whitespace chars p in
      if at_char b'+' q
      then done (repetition inner 1 none) (advance (codes "+") q)
      else if at_char b'*' q
      then done (repetition inner 0 none) (advance (codes "*") q)
      else if at_char b'?' q
      then done (repetition inner 0 (some 1)) (advance (codes "?") q)
      else if at_char b'{' q
      then parse_bounds inner (advance (codes "{") q)
      else done inner q
