-- ===== src/Query/Parser/Outcomes.antt =====
-- What `parse` of crates/montre-query/src/parser.rs returns.
use montre.Prelude.{
  suc, ◌≡◌, ◌≢◌, refl, arith, Text, [], ◌∷◌, ◌++◌, ◌∈◌, length, subst, sym, inl, inr, ap, true,
}
use montre.Query.{QueryError}
use montre.Query.Ast.{Query}
use montre.Query.Planner.{collect_declared_labels}
use montre.Query.Parser.{
  CharClasses, Parser, done, failed, panicked, out_of_fuel, bytes, backslash, skip_whitespace,
}
use montre.Query.Parser.Grammar.{finish, parse, accept, is_empty}
use montre.Query.Parser.WellFormed.{WellFormed}
use montre.Query.Parser.Distinct.{Distinct, check_duplicate_labels-cases}
use montre.Query.Parser.Progress.{
  Reach, Parses, bytes-append, Reach-refl, Reach-trans, Reach-skip, ErrorAt, Parses-done,
  Parses-fail, Parses-if, Parses-through,
}
use montre.Query.Parser.Progress.Grammar.{parse_query-WellFormed}

abbrev start : Text → Parser
start input = record { pos = 0; rest = input }

module _ (chars : CharClasses) where
  -- What an accepted query is like.
  abbrev Accepted : Query → Parser → Type 0
  Accepted query q =
      WellFormed chars query × Distinct (collect_declared_labels query) × (q.rest ≡ [])

  finish-Parses :
      (input : Text) (query : Query) (q : Parser)
      → Reach (start input) q
      → WellFormed chars query
      → Parses Accepted (start input) (finish chars query q)
  unfolding finish
  finish-Parses input query q r w =
      let q' = skip_whitespace chars q in
      let r' = Reach-trans r (Reach-skip chars q) in
      Parses-if (is_empty chars q'.rest)
        (λ e. elim (check_duplicate_labels-cases query) [
          | inl (f, d) ↦
              subst (λ answer. Parses Accepted (start input) (accept chars query answer q')) (sym f)
                (Parses-done r' (w, d, is_empty-nil q'.rest e))
          | inr (name, f, t) ↦
              subst (λ answer. Parses Accepted (start input) (accept chars query answer q')) (sym f)
                (record { outcome = (input, Reach-refl (start input)) })
        ])
        (λ _. Parses-fail _ r')
    where
      is_empty-nil : (s : Text) → is_empty chars s ≡ true → s ≡ []
      is_empty-nil [] e = refl
      is_empty-nil (c ∷ s) e = cc

  parse-Parses : (input : Text) → Parses Accepted (start input) (parse chars input)
  unfolding parse
  parse-Parses input =
      Parses-through (parse_query-WellFormed chars (suc (length input)) (start input) (omega arith))
        λ query q r w. finish-Parses input query q r w

  -- No input runs out of fuel.
  pub parse-ne-out_of_fuel : (input : Text) → parse chars input ≢ out_of_fuel
  parse-ne-out_of_fuel input e =
      (subst (Parses Accepted (start input)) e (parse-Parses input)).outcome

  -- A query that is accepted is well formed, its labels are distinct, and all of the input was read.
  pub parse-accepts :
      (input : Text) (query : Query) (q : Parser)
      → parse chars input ≡ done query q
      → WellFormed chars query
        × Distinct (collect_declared_labels query)
        × (q.rest ≡ [])
        × (q.pos ≡ bytes input)
  parse-accepts input query q e =
      let (r, (w, d, f)) = (subst (Parses Accepted (start input)) e (parse-Parses input)).outcome in
      (
        w,
        d,
        f,
        omega (arith, r.pos_eq, ap bytes r.rest_eq, bytes-append r.between q.rest, ap bytes f),
      )

  -- An error is a parse error at the byte where a character of the input starts, or at its end.
  pub parse-refuses :
      (input : Text) (e : QueryError)
      → parse chars input ≡ failed e
      → (message : Text) × (before : Text) × (behind : Text) × (e
          ≡ QueryError.parse (bytes before) message)
        × (input ≡ before ++ behind)
  parse-refuses input e f =
      refused input e (subst (Parses Accepted (start input)) f (parse-Parses input)).outcome
    where
      refused :
          (input : Text) (e : QueryError)
          → ErrorAt (start input) e
          → (message : Text) × (before : Text) × (behind : Text) × (e
              ≡ QueryError.parse (bytes before) message)
            × (input ≡ before ++ behind)
      refused input (QueryError.parse n message) (behind, r) =
          let pos : n ≡ bytes r.between = omega (arith, r.pos_eq) in
          (message, r.between, behind, ap (λ m. QueryError.parse m message) pos, r.rest_eq)
      refused input (QueryError.regex _) h = absurd h
      refused input (QueryError.unknown_layer _) h = absurd h
      refused input (QueryError.unknown_label _) h = absurd h
      refused input (QueryError.execution _) h = absurd h

  -- The parser panics on no input without a backslash.
  pub parse-panics : (input : Text) → parse chars input ≡ panicked → backslash ∈ input
  parse-panics input e = (subst (Parses Accepted (start input)) e (parse-Parses input)).outcome
