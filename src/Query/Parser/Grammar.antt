-- ===== src/Query/Parser/Grammar.antt =====
-- crates/montre-query/src/parser.rs: elements, sequences, alternations, and `parse`.
use montre.Prelude.{
  ℕ, zero, suc, Text, codes, Bool, true, false, ◌||◌, ◌&&◌, not, Option, none, some, List, [], ◌∷◌,
  ◌++◌, if◌then◌else◌, text_eq, length, any,
}
use montre.Query.{Result, ok, err}
use montre.Query.Ast.{Query, Queries, no_queries, and_query, sequence, alternation, capture}
use montre.Query.Parser.{
  CharClasses, Parsed, Parse, done, failed, out_of_fuel, ◌>>=◌, ◌>>◌, pure, fail, starts_with,
  starts_word, advance, at_char, peek_char, skip, skip_whitespace, then_run, consume, try_consume,
  quote,
}
use montre.Query.Parser.Words.{parse_identifier}
use montre.Query.Parser.Patterns.{parse_token_pattern, parse_quoted_word, parse_quantifier}
use montre.Query.Parser.Clauses.{maybe_wrap_within, maybe_wrap_constrained}
use montre.Query.Parser.Labels.{check_duplicate_labels}

-- `RESERVED`.
abbrev pub reserved : List Text
reserved =
    codes "doc"
    ∷ codes "document"
    ∷ codes "s"
    ∷ codes "sent"
    ∷ codes "sentence"
    ∷ codes "p"
    ∷ codes "para"
    ∷ codes "paragraph"
    ∷ codes "component"
    ∷ []

abbrev pub as_queries : List Query → Queries
as_queries [] = no_queries
as_queries (q ∷ qs) = and_query q (as_queries qs)

-- The elements of a sequence as one query.
unfoldable pub sequence_of : List Query → Parse Query
sequence_of [] p = fail (codes "Empty sequence") p
sequence_of (q ∷ []) p = done q p
sequence_of (q ∷ r ∷ qs) p = done (sequence (as_queries (q ∷ r ∷ qs))) p

module _ (chars : CharClasses) where
  unfoldable pub is_at_sequence_end : Text → Bool
  is_at_sequence_end [] = true
  is_at_sequence_end (c ∷ s) =
      starts_with (codes "|") (c ∷ s)
      || starts_with (codes ")") (c ∷ s)
      || starts_with (codes "::") (c ∷ s)
      || starts_word chars (codes "within") (c ∷ s)
      || (starts_with (codes "=") (c ∷ s) && not (starts_with (codes "==") (c ∷ s)))

  -- `maybe_wrap_within` and then `maybe_wrap_constrained`.
  unfoldable pub wrap_clauses : Query → Parse Query
  unfolding maybe_wrap_within maybe_wrap_constrained
  wrap_clauses query p =
      then_run (maybe_wrap_within chars (suc (length p.rest)) query p)
        (maybe_wrap_constrained chars)

  -- The parsers of a level call that of an atom, which calls them inside parentheses.
  module _ (parse_atom : Parse Query) where
    unfoldable pub parse_element : Parse Query
    unfolding parse_quantifier
    parse_element = parse_atom >>= parse_quantifier chars

    unfoldable pub parse_elements : ℕ → Parse (List Query)
    unfolding is_at_sequence_end parse_element
    parse_elements zero p = out_of_fuel
    parse_elements (suc n) p =
        let q = skip_whitespace chars p in
        if is_at_sequence_end q.rest
        then done [] q
        else then_run (parse_element q)
            λ element. parse_elements n >>= λ rest. pure (element ∷ rest)

    unfoldable pub parse_sequence : Parse Query
    unfolding parse_elements sequence_of
    parse_sequence p = then_run (parse_elements (suc (length p.rest)) p) sequence_of

    -- The loop over the alternatives, each with the bar behind it.
    unfoldable pub parse_alternatives : ℕ → Parse (List Query)
    unfolding parse_sequence try_consume
    parse_alternatives zero p = out_of_fuel
    parse_alternatives (suc n) p = then_run (parse_sequence p) λ first. do
      skip chars
      found ← try_consume chars b'|'
      if found then (parse_alternatives n >>= λ rest. pure (first ∷ rest)) else pure (first ∷ [])

    unfoldable pub parse_query : Parse Query
    unfolding parse_sequence try_consume parse_alternatives wrap_clauses
    parse_query = do
      first ← parse_sequence
      skip chars
      found ← try_consume chars b'|'
      if found
          then (do
            rest ← λ p. parse_alternatives (suc (length p.rest)) p
            wrap_clauses (alternation (and_query first (as_queries rest))))
          else wrap_clauses first

    unfoldable pub parse_labeled_atom : Parse Query
    unfolding parse_identifier
    parse_labeled_atom p = then_run (parse_identifier chars p) λ name q.
        if at_char b':' q
        then if any (text_eq name) reserved
          then fail (codes "'" ++ name ++ codes "' is reserved and cannot be used as a label name")
              p
          else then_run (parse_atom (advance (codes ":") q)) (λ inner. pure (capture name inner))
        else fail
            (codes "Unexpected identifier '"
              ++ name
              ++ codes "' (did you mean a label like '"
              ++ name
              ++ codes ":[...]'?)")
            p

    -- The last three arms of `parse_atom`, on the character that stands next.
    abbrev pub parse_other_atom : Option ℕ → Parse Query
    parse_other_atom (some c) q =
        if chars.is_alphabetic c
        then parse_labeled_atom q
        else fail (codes "Unexpected character: '" ++ c ∷ codes "'") q
    parse_other_atom none q = fail (codes "Unexpected end of input") q

    -- `parse_atom`, with itself as the parser of the atoms inside.
    unfoldable pub parse_atom_step : Parse Query
    unfolding consume parse_query parse_labeled_atom parse_token_pattern parse_quoted_word
    parse_atom_step p =
        let q = skip_whitespace chars p in
        if at_char b'[' q
        then parse_token_pattern chars q
        else if at_char quote q
        then parse_quoted_word chars q
        else if at_char b'(' q
        then (do consume chars b'('; inner ← parse_query; consume chars b')'; pure inner) q
        else parse_other_atom (peek_char q) q

  unfoldable pub parse_atom : ℕ → Parse Query
  unfolding parse_atom_step
  parse_atom zero p = out_of_fuel
  parse_atom (suc n) p = parse_atom_step (parse_atom n) p

  abbrev pub is_empty : Text → Bool
  is_empty [] = true
  is_empty (c ∷ s) = false

  abbrev pub accept : Query → Result (Unit {0}) → Parse Query
  accept query (ok _) p = done query p
  accept query (err e) p = failed e

  -- The input that no call consumed is refused, and so is a label that stands twice.
  unfoldable pub finish : Query → Parse Query
  unfolding check_duplicate_labels
  finish query p =
      let q = skip_whitespace chars p in
      if is_empty q.rest
      then accept query (check_duplicate_labels query) q
      else fail (codes "Unexpected trailing content: " ++ q.rest) q

  -- Every level of parentheses or labels takes a character of the input.
  unfoldable pub parse : Text → Parsed Query
  unfolding parse_query parse_atom finish
  parse input =
      then_run (parse_query (parse_atom (suc (length input))) (record { pos = 0; rest = input }))
        finish
