-- ===== src/Tests/Parsing.antt =====
-- crates/montre-query/src/parser.rs on concrete queries.
use montre.Prelude.{
  ℕ, Text, text_eq, codes, Bool, ◌||◌, ◌&&◌, leb, ◌==◌, ◌≡◌, ◌≢◌, refl, ◌⊎◌, none, [], ◌∷◌, ◌++◌,
  ◌∈◌,
}
use montre.Query.{QueryError, ok, err}
use montre.Query.Ast.{
  Query, ConstraintOp, ConstraintValue, token, within, alternation, repetition, capture, and_query,
  no_queries,
}
use montre.Query.Planner.{collect_declared_labels}
use montre.Query.Parser.{
  CharClasses, Parser, done, failed, panicked, out_of_fuel, bytes, backslash, quote, skip,
  more_items,
}
use montre.Query.Parser.Words.{read_escaped}
use montre.Query.Parser.Labels.{check_duplicate_labels}
use montre.Query.Parser.Distinct.{Distinct, Twice, check_duplicate_labels-cases}
use montre.Query.Parser.WellFormed.{WellFormed}
use montre.Query.Parser.Outcomes.{parse-ne-out_of_fuel, parse-accepts, parse-refuses, parse-panics}
use montre.Query.Parser.Escapes.{parse-panics_escape}
use montre.Query.Parser.Grammar.{parse}

abbrev between : ℕ → ℕ → ℕ → Bool
between low high c = leb low c && leb c high

-- The classes of the ASCII characters.
abbrev ascii : CharClasses
ascii = record {
  is_alphanumeric = λ c. between 48 57 c || between 65 90 c || between 97 122 c;
  is_alphabetic = λ c. between 65 90 c || between 97 122 c;
  is_whitespace = λ c. between 9 13 c || c == 32;
}

-- `(a:[pos="N"])+ | "b" within s`, and what it is parsed into.
abbrev alternatives : Text
alternatives = codes "(a:[pos=\"N\"])+ | \"b\" within s"

abbrev literal_of : Text → Text → Query
literal_of layer value = token (record {
  constraints =
      record { layer = layer; op = ConstraintOp.eq; value = ConstraintValue.literal value } ∷ [];
})

abbrev parsed : Query
parsed =
    within
      (alternation (
        and_query (repetition (capture (codes "a") (literal_of (codes "upos") (codes "N"))) 1 none)
          (and_query (literal_of (codes "word") (codes "b")) no_queries)))
      (codes "sentence")

abbrev at_end : Parser
at_end = record { pos = 29; rest = [] }

parse-alternatives : parse ascii alternatives ≡ done parsed at_end
unfolding parse skip text_eq read_escaped more_items
parse-alternatives = refl

-- A label that stands twice.
abbrev twice : Text
twice = codes "a:[] a:[]"

parse-twice : parse ascii twice ≡ failed (QueryError.parse 0 (codes "Duplicate label name 'a'"))
unfolding parse skip text_eq
parse-twice = refl

parse-ne-out_of_fuel_example : parse ascii (codes "((x:[]") ≢ out_of_fuel
parse-ne-out_of_fuel_example = parse-ne-out_of_fuel ascii (codes "((x:[]")

parse-accepts_example :
    WellFormed ascii parsed
    × Distinct (collect_declared_labels parsed)
    × (at_end.rest ≡ [])
    × (at_end.pos ≡ bytes alternatives)
parse-accepts_example = parse-accepts ascii alternatives parsed at_end parse-alternatives

parse-refuses_example :
    (message : Text) × (before : Text) × (behind : Text) × (QueryError.parse 0
        (codes "Duplicate label name 'a'")
      ≡ QueryError.parse (bytes before) message)
    × (twice ≡ before ++ behind)
parse-refuses_example =
    parse-refuses ascii twice (QueryError.parse 0 (codes "Duplicate label name 'a'")) parse-twice

abbrev escaped : Text
escaped = quote ∷ backslash ∷ 233 ∷ quote ∷ []

parse-panics_escape_example : parse ascii escaped ≡ panicked
parse-panics_escape_example = parse-panics_escape ascii 233 (quote ∷ []) refl refl

parse-panics_example : backslash ∈ escaped
parse-panics_example = parse-panics ascii escaped parse-panics_escape_example

check_duplicate_labels-cases_example :
    ((check_duplicate_labels parsed ≡ ok tt) × Distinct (collect_declared_labels parsed))
    ⊎ ((name : Text) × (check_duplicate_labels parsed
          ≡ err (QueryError.parse 0 (codes "Duplicate label name '" ++ name ++ codes "'")))
        × Twice name (collect_declared_labels parsed))
check_duplicate_labels-cases_example = check_duplicate_labels-cases parsed
