-- ===== src/Query/Parser/Escapes.antt =====
-- A backslash before a character of several bytes, in crates/montre-query/src/parser.rs.
use montre.Prelude.{ℕ, suc, ◌==◌, ◌≡◌, refl, ap, false, Text, ◌∷◌, length}
use montre.Query.Ast.{Query}
use montre.Query.Parser.{CharClasses, Parser, Parse, panicked, then_run, len_utf8, quote, backslash}
use montre.Query.Parser.Words.{read_escaped}
use montre.Query.Parser.Patterns.{parse_quoted_word}
use montre.Query.Parser.Grammar.{
  parse_atom_step, parse_query, parse_atom, is_at_sequence_end, finish, parse,
}

module _ (chars : CharClasses) (c : ℕ) (s : Text) (h : chars.is_whitespace quote ≡ false)
    (k : (len_utf8 c == 1) ≡ false) where
  abbrev at_quote : Parser
  at_quote = record { pos = 0; rest = quote ∷ backslash ∷ c ∷ s }

  quoted : parse_quoted_word chars at_quote ≡ panicked
  unfolding parse_quoted_word read_escaped
  quoted = rw (h, k) refl

  atom : (inner : Parse Query) → parse_atom_step chars inner at_quote ≡ panicked
  unfolding parse_atom_step
  atom inner = rw h quoted

  query :
      (inner : Parse Query)
      → inner at_quote ≡ panicked
      → parse_query chars inner at_quote ≡ panicked
  unfolding parse_query is_at_sequence_end
  query inner e = rw (h, e) refl

  -- A quoted word at the start of the input panics the parser, whatever follows, where a backslash
  -- stands before a character of several bytes.
  pub parse-panics_escape : parse chars (quote ∷ backslash ∷ c ∷ s) ≡ panicked
  unfolding parse parse_atom
  parse-panics_escape =
      ap (λ r. then_run r (finish chars))
        (query (parse_atom chars (suc (length at_quote.rest)))
          (atom (parse_atom chars (length at_quote.rest))))
