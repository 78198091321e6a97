-- ===== src/Query/Parser/Progress/Grammar.antt =====
-- Elements, sequences, alternations and atoms, in crates/montre-query/src/parser.rs.
use montre.Prelude.{
  ℕ, zero, suc, ◌≤◌, ◌<◌, codes, List, [], ◌∷◌, length, refl, Option, none, some, arith, ◌≢◌,
  text_eq, text_eq_iff, mem-any, any,
}
use montre.Query.Ast.{Query, and_query, alternation}
use montre.Query.Parser.{
  CharClasses, Parser, Parse, skip_whitespace, pure, at_char, quote, consume, peek_char, ◌>>=◌,
  ◌>>◌,
}
use montre.Query.Parser.Grammar.{
  reserved, as_queries, sequence_of, is_at_sequence_end, parse_element, parse_elements,
  parse_sequence, parse_alternatives, wrap_clauses, parse_query, parse_labeled_atom,
  parse_atom_step, parse_atom, parse_other_atom,
}
use montre.Query.Parser.WellFormed.{EachOf, WellFormed, AllWellFormed}
use montre.Query.Parser.Progress.{
  Reach-refl, Reach-trans, Reach-length, Reach-advance, Reach-skip, Parses-done, Parses-fail,
  Parses-from, Parses-if, Parses-if-at, Parses-weaken, Parses-through, Parses-then, Parses-map,
  Parses-next, Shorter-from, Shorter-to,
}
use montre.Query.Parser.Progress.Words.{Reads, Takes}
use montre.Query.Parser.Progress.Names.{
  skip-Parses, consume-Takes, try_consume-Parses, parse_identifier-Takes,
}
use montre.Query.Parser.Progress.Patterns.{
  parse_token_pattern-Takes, parse_quoted_word-Takes, parse_quantifier-Reads,
}
use montre.Query.Parser.Progress.Clauses.{maybe_wrap_within-Reads, maybe_wrap_constrained-Reads}

module _ (chars : CharClasses) where
  as_queries-WellFormed :
      (qs : List Query) → EachOf (WellFormed chars) qs → AllWellFormed chars (as_queries qs)
  as_queries-WellFormed [] h = tt
  as_queries-WellFormed (q ∷ qs) h = (h.0, as_queries-WellFormed qs h.1)

  sequence_of-Reads :
      (qs : List Query) (p : Parser)
      → EachOf (WellFormed chars) qs
      → Reads (WellFormed chars) p (sequence_of qs p)
  unfolding sequence_of
  sequence_of-Reads [] p h = Parses-fail _ (Reach-refl p)
  sequence_of-Reads (q ∷ []) p h = Parses-done (Reach-refl p) h.0
  sequence_of-Reads (q ∷ r ∷ qs) p h =
      Parses-done (Reach-refl p) (tt, as_queries-WellFormed (q ∷ r ∷ qs) h)

  wrap_clauses-Reads :
      (query : Query) (p : Parser)
      → WellFormed chars query
      → Reads (WellFormed chars) p (wrap_clauses chars query p)
  unfolding wrap_clauses
  wrap_clauses-Reads query p h =
      Parses-then (maybe_wrap_within-Reads chars (suc (length p.rest)) query p (omega arith) h)
        λ query' q r w. maybe_wrap_constrained-Reads chars query' q w

  -- An atom takes a character, wherever less input is left than the fuel.
  abbrev AtomTakes : Parse Query → ℕ → Type 0
  AtomTakes atom n = (p : Parser) → length p.rest < n → Takes (WellFormed chars) p (atom p)

  module _ (atom : Parse Query) (n : ℕ) (atom_takes : AtomTakes atom n) where
    parse_element-Takes :
        (p : Parser) → length p.rest < n → Takes (WellFormed chars) p (parse_element chars atom p)
    unfolding parse_element
    parse_element-Takes p l = Parses-through (atom_takes p l) λ inner q r w. Parses-from r (
        Parses-weaken (λ query u s v. (v, Shorter-to p w.1 s))
          (parse_quantifier-Reads chars inner q w.0))

    parse_elements-Reads :
        (k : ℕ) (p : Parser)
        → length p.rest < k
        → length p.rest < n
        → Reads (EachOf (WellFormed chars)) p (parse_elements chars atom k p)
    unfolding parse_elements
    parse_elements-Reads zero p l m = omega (arith, l)
    parse_elements-Reads (suc k) p l m =
        let q = skip_whitespace chars p in
        let skipped = Reach-length (Reach-skip chars p) in
        Parses-from (Reach-skip chars p) (
          Parses-if (is_at_sequence_end chars q.rest) (λ _. Parses-done (Reach-refl q) tt)
            (λ _. Parses-then (parse_element-Takes q (omega (arith, m, skipped))) λ element u s w.
              Parses-map (λ rest. element ∷ rest) (λ rest x v. (w.0, v))
                (parse_elements-Reads k u (omega (arith, l, w.1, skipped))
                  (omega (arith, m, w.1, skipped)))))

    parse_sequence-Reads :
        (p : Parser) → length p.rest < n → Reads (WellFormed chars) p (parse_sequence chars atom p)
    unfolding parse_sequence
    parse_sequence-Reads p l =
        Parses-then (parse_elements-Reads (suc (length p.rest)) p (omega arith) l)
          λ elements q r w. sequence_of-Reads elements q w

    parse_alternatives-Reads :
        (k : ℕ) (p : Parser)
        → length p.rest < k
        → length p.rest < n
        → Reads
            (λ alts. (alts ≢ []) × EachOf (WellFormed chars) alts)
            p
            (parse_alternatives chars atom k p)
    unfolding parse_alternatives
    parse_alternatives-Reads zero p l m = omega (arith, l)
    parse_alternatives-Reads (suc k) p l m =
        Parses-through (parse_sequence-Reads p m) λ first p1 r1 w1.
          Parses-next r1 (skip-Parses chars p1) λ _ p2 r2 _.
            Parses-next r2 (try_consume-Parses chars b'|' p2) λ found p3 r3 w3.
              Parses-if-at found _ _ p3
                (λ t.
                  let shorter = Shorter-from p3 r2 (w3 t) in
                  Parses-from r3 (
                    Parses-map (λ rest. first ∷ rest) (λ rest u v. (λ e. cc, (w1, v.1)))
                      (parse_alternatives-Reads k p3 (omega (arith, l, shorter))
                        (omega (arith, m, shorter)))))
                (λ _. Parses-done r3 (λ e. cc, (w1, tt)))

    parse_query-Reads :
        (p : Parser) → length p.rest < n → Reads (WellFormed chars) p (parse_query chars atom p)
    unfolding parse_query
    parse_query-Reads p l = Parses-through (parse_sequence-Reads p l) λ first p1 r1 w1.
        Parses-next r1 (skip-Parses chars p1) λ _ p2 r2 _.
          Parses-next r2 (try_consume-Parses chars b'|' p2) λ found p3 r3 _.
            Parses-if-at found _ _ p3
              (λ t.
                Parses-next r3
                  (parse_alternatives-Reads (suc (length p3.rest)) p3 (omega arith)
                    (omega (arith, l, Reach-length r3)))
                  λ rest p4 r4 w4.
                    Parses-from r4
                      (wrap_clauses-Reads _ p4 (alternation-WellFormed first rest w1 w4.0 w4.1)))
              (λ _. Parses-from r3 (wrap_clauses-Reads first p3 w1))
      where
        alternation-WellFormed :
            (q : Query) (qs : List Query)
            → WellFormed chars q
            → qs ≢ []
            → EachOf (WellFormed chars) qs
            → WellFormed chars (alternation (and_query q (as_queries qs)))
        alternation-WellFormed q [] h k a = absurd (k refl)
        alternation-WellFormed q (r ∷ qs) h k a = (tt, (h, as_queries-WellFormed (r ∷ qs) a))

    parse_labeled_atom-Takes :
        (p : Parser)
        → length p.rest ≤ n
        → Takes (WellFormed chars) p (parse_labeled_atom chars atom p)
    unfolding parse_labeled_atom
    parse_labeled_atom-Takes p l = Parses-through (parse_identifier-Takes chars p) λ name q r w.
        Parses-if (at_char b':' q)
          (λ t.
            Parses-if (any (text_eq name) reserved) (λ _. Parses-fail _ (Reach-refl p))
              (λ f.
                let r' = Reach-trans r (Reach-advance (codes ":") q t) in
                let shorter = Shorter-to p w.1 (Reach-advance (codes ":") q t) in
                Parses-next r' (atom_takes _ (omega (arith, l, shorter))) λ inner u s v.
                  Parses-done s (
                    (
                      v.0,
                      w.0,
                      λ m. cc (
                        f,
                        mem-any (text_eq name) name reserved m ((text_eq_iff name name).1 refl),
                      ),
                    ),
                    Shorter-from u r' v.1,
                  )))
          (λ _. Parses-fail _ (Reach-refl p))

    parse_other_atom-Takes :
        (q : Parser) (o : Option ℕ)
        → length q.rest ≤ n
        → Takes (WellFormed chars) q (parse_other_atom chars atom o q)
    parse_other_atom-Takes q none l = Parses-fail _ (Reach-refl q)
    parse_other_atom-Takes q (some c) l =
        Parses-if (chars.is_alphabetic c) (λ _. parse_labeled_atom-Takes q l)
          (λ _. Parses-fail _ (Reach-refl q))

    parse_atom_step-Takes :
        (p : Parser) → length p.rest ≤ n → Takes (WellFormed chars) p (parse_atom_step chars atom p)
    unfolding parse_atom_step
    parse_atom_step-Takes p l =
        let q = skip_whitespace chars p in
        let r = Reach-skip chars p in
        Parses-weaken (λ query u s v. (v.0, Shorter-from u r v.1))
          (Parses-from r (
            Parses-if (at_char b'[' q) (λ _. parse_token_pattern-Takes chars q)
              λ _.
                Parses-if (at_char quote q) (λ _. parse_quoted_word-Takes chars q)
                  λ _.
                    Parses-if (at_char b'(' q) (λ _. parens q (omega (arith, l, Reach-length r)))
                      λ _.
                        parse_other_atom-Takes q (peek_char q) (omega (arith, l, Reach-length r))))
      where
        parens :
            (q : Parser)
            → length q.rest ≤ n
            → Takes (WellFormed chars) q (
                (consume chars b'('
                    >> (parse_query chars atom >>= λ inner. (consume chars b')' >> pure inner)))
                  q)
        parens q l = Parses-through (consume-Takes chars b'(' q refl) λ _ p1 r1 w1.
            Parses-next r1 (parse_query-Reads p1 (omega (arith, l, w1.1))) λ inner p2 r2 w2.
              Parses-next r2 (consume-Takes chars b')' p2 refl)
                λ _ p3 r3 w3. Parses-done r3 (w2, Shorter-from p3 r2 w3.1)

  parse_atom-Takes : (n : ℕ) → AtomTakes (parse_atom chars n) n
  unfolding parse_atom
  parse_atom-Takes zero p l = omega (arith, l)
  parse_atom-Takes (suc n) p l =
      parse_atom_step-Takes (parse_atom chars n) n (parse_atom-Takes n) p (omega (arith, l))

  pub parse_query-WellFormed :
      (n : ℕ) (p : Parser)
      → length p.rest < n
      → Reads (WellFormed chars) p (parse_query chars (parse_atom chars n) p)
  parse_query-WellFormed n p l = parse_query-Reads (parse_atom chars n) n (parse_atom-Takes n) p l
