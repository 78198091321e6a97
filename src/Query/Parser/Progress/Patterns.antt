-- ===== src/Query/Parser/Progress/Patterns.antt =====
-- Token patterns, quoted words and quantifiers, in crates/montre-query/src/parser.rs.
use montre.Prelude.{
  ℕ, ◌<◌, Text, codes, true, Bool-cases, List, [], ◌∷◌, ◌++◌, length, ◌≡◌, refl, some, inl, inr,
  arith, ◌≢◌, text_eq,
}
use montre.Query.Ast.{Constraint, ConstraintValue, TokenPattern, with_constraint, Query}
use montre.Query.Parser.{
  CharClasses, Parser, done, then_run, starts_with, advance, skip_whitespace, quote, len_utf8, pure,
  at_char, items_behind,
}
use montre.Query.Parser.Words.{read_up_to, resolve_layer_alias}
use montre.Query.Parser.Patterns.{
  parse_constraint_value, with_constraints, parse_constraint_op, parse_constraint,
  parse_token_pattern, parse_quoted_word, parse_most, parse_bounds, parse_quantifier,
}
use montre.Query.Parser.WellFormed.{EachOf, Bound, IsConstraint, WellFormed}
use montre.Query.Parser.Progress.{
  Reach-refl, Reach-advance, Reach-skip, Parses-done, Parses-fail, Parses-from, Parses-if,
  Parses-if-at, Parses-weaken, Parses-through, Parses-map, Parses-next, Shorter-from,
}
use montre.Query.Parser.Progress.Words.{
  Reads, Takes, Any, advance-Shorter, literal-Takes, parse_number-Takes, read_up_to-Takes,
  at_char-Behind,
}
use montre.Query.Parser.Progress.Names.{
  skip-Parses, consume-Takes, try_consume-Parses, more_items-Reads, parse_identifier-Takes,
}

delimited-Takes :
    (c : ℕ) (message : Text) (make : Text → ConstraintValue) (p : Parser)
    → len_utf8 c ≡ 1
    → at_char c p ≡ true
    → Takes Any p (then_run (read_up_to c message (advance (c ∷ []) p)) (λ text. pure (make text)))
delimited-Takes c message make p l h =
    let q = advance (c ∷ []) p in
    Parses-map make (λ a u w. w)
      (read_up_to-Takes c message p q l
        (c ∷ q.rest, at_char-Behind c {p = p} {q = p} l (Reach-refl p) h)
        (Reach-advance (c ∷ []) p h) (advance-Shorter (c ∷ []) p (omega arith) h))

parse_constraint_value-Takes : (p : Parser) → Takes Any p (parse_constraint_value p)
unfolding parse_constraint_value
parse_constraint_value-Takes p =
    Parses-if (at_char quote p) (delimited-Takes quote _ ConstraintValue.literal p refl) λ _.
      Parses-if (at_char b'/' p) (delimited-Takes b'/' _ ConstraintValue.regex p refl)
        λ _. Parses-fail _ (Reach-refl p)

EachOf-append :
    (cs ds : List Constraint)
    → EachOf IsConstraint cs
    → EachOf IsConstraint ds
    → EachOf IsConstraint (cs ++ ds)
EachOf-append [] ds h k = k
EachOf-append (c ∷ cs) ds h k = (h.0, EachOf-append cs ds h.1 k)

with_constraints-EachOf :
    (p : TokenPattern) (cs : List Constraint)
    → EachOf IsConstraint p.constraints
    → EachOf IsConstraint cs
    → EachOf IsConstraint (with_constraints p cs).constraints
unfolding with_constraints with_constraint
with_constraints-EachOf p [] h k = h
with_constraints-EachOf p (c ∷ cs) h k =
    with_constraints-EachOf (with_constraint p c) cs
      (EachOf-append p.constraints (c ∷ []) h (k.0, tt)) k.1

pub resolve_layer_alias-ne-nil : (s : Text) → s ≢ [] → resolve_layer_alias s ≢ []
resolve_layer_alias-ne-nil s h = elim (Bool-cases (text_eq s (codes "pos"))) [
  | inl e ↦ rw e (λ f. cc)
  | inr e ↦ rw e h
]

module _ (chars : CharClasses) where
  parse_constraint_op-Takes : (p : Parser) → Takes Any p (parse_constraint_op chars p)
  unfolding parse_constraint_op
  parse_constraint_op-Takes p =
      Parses-if (starts_with (codes "!=") p.rest) (literal-Takes (codes "!=") p (omega arith) tt)
        λ _. Parses-through (try_consume-Parses chars b'=' p) λ found q r w.
          Parses-if-at found _ _ q (λ t. Parses-done r (tt, w t)) (λ f. Parses-fail _ r)

  parse_constraint-Takes : (p : Parser) → Takes IsConstraint p (parse_constraint chars p)
  unfolding parse_constraint
  parse_constraint-Takes p = Parses-through (skip-Parses chars p) λ _ p1 r1 _.
      Parses-next r1 (parse_identifier-Takes chars p1) λ name p2 r2 w2.
        Parses-next r2 (skip-Parses chars p2) λ _ p3 r3 _.
          Parses-next r3 (parse_constraint_op-Takes p3) λ op p4 r4 _.
            Parses-next r4 (skip-Parses chars p4) λ _ p5 r5 _.
              Parses-next r5 (parse_constraint_value-Takes p5) λ value p6 r6 w6.
                Parses-done r6 (resolve_layer_alias-ne-nil name w2.0.0, Shorter-from p6 r5 w6.1)

  pub parse_token_pattern-Takes :
      (p : Parser) → Takes (WellFormed chars) p (parse_token_pattern chars p)
  unfolding parse_token_pattern
  parse_token_pattern-Takes p = Parses-through (consume-Takes chars b'[' p refl) λ _ p1 r1 w1.
      Parses-next r1 (skip-Parses chars p1) λ _ p2 r2 _.
        Parses-next r2 (try_consume-Parses chars b']' p2) λ closed p3 r3 w3.
          Parses-if-at closed _ _ p3 (λ t. Parses-done r3 (tt, Shorter-from p3 r2 (w3 t)))
            λ _. Parses-next r3 (parse_constraint-Takes p3) λ first p4 r4 w4.
              Parses-next r4 (more-Reads p4) λ rest p5 r5 w5.
                Parses-next r5 (consume-Takes chars b']' p5 refl) λ _ p6 r6 w6. Parses-done r6 (
                  with_constraints-EachOf (record { constraints = [] }) (first ∷ rest) tt
                      (w4.0, w5),
                  Shorter-from p6 r5 w6.1,
                )
    where
      more-Reads :
          (q : Parser)
          → Reads (EachOf IsConstraint) q (items_behind chars b'&' (parse_constraint chars) q)
      more-Reads q =
          more_items-Reads chars _ b'&' _ q (omega arith)
            λ u. Parses-weaken (λ a v r w. w.0) (parse_constraint-Takes u)

  pub parse_quoted_word-Takes :
      (p : Parser) → Takes (WellFormed chars) p (parse_quoted_word chars p)
  unfolding parse_quoted_word with_constraint
  parse_quoted_word-Takes p = Parses-through (consume-Takes chars quote p refl) λ _ q r w.
      Parses-map _ (λ word u v. ((λ e. cc, tt), v.1))
        (read_up_to-Takes quote _ p q refl (quote ∷ q.rest, w.0) r w.1)

  parse_most-Parses : (p : Parser) → Reads Bound p (parse_most chars p)
  unfolding parse_most
  parse_most-Parses p =
      Parses-if (at_char b'}' p) (λ _. Parses-done (Reach-refl p) tt)
        λ _. Parses-map (λ n. some n) (λ n q w. w.0) (parse_number-Takes p)

  parse_bounds-Reads :
      (inner : Query) (p : Parser)
      → WellFormed chars inner
      → Reads (WellFormed chars) p (parse_bounds chars inner p)
  unfolding parse_bounds
  parse_bounds-Reads inner p h = Parses-through (skip-Parses chars p) λ _ p1 r1 _.
      Parses-next r1 (parse_number-Takes p1) λ least p2 r2 w2.
        Parses-next r2 (skip-Parses chars p2) λ _ p3 r3 _.
          Parses-next r3 (try_consume-Parses chars b'}' p3) λ closed p4 r4 _.
            Parses-if-at closed _ _ p4 (λ _. Parses-done r4 (h, w2.0, w2.0))
              λ _. Parses-next r4 (consume-Takes chars b',' p4 refl) λ _ p5 r5 _.
                Parses-next r5 (skip-Parses chars p5) λ _ p6 r6 _.
                  Parses-next r6 (parse_most-Parses p6) λ most p7 r7 w7.
                    Parses-next r7 (consume-Takes chars b'}' p7 refl)
                      λ _ p8 r8 _. Parses-done r8 (h, w2.0, w7)

  pub parse_quantifier-Reads :
      (inner : Query) (p : Parser)
      → WellFormed chars inner
      → Reads (WellFormed chars) p (parse_quantifier chars inner p)
  unfolding parse_quantifier
  parse_quantifier-Reads inner p h =
      let q = skip_whitespace chars p in
      Parses-from (Reach-skip chars p) (
        Parses-if (at_char b'+' q) (bounds (codes "+") q (omega arith) (h, omega arith, tt)) λ _.
          Parses-if (at_char b'*' q) (bounds (codes "*") q (omega arith) (h, omega arith, tt)) λ _.
            Parses-if (at_char b'?' q)
              (bounds (codes "?") q (omega arith) (h, omega arith, omega arith))
              λ _.
                Parses-if (at_char b'{' q)
                  (λ t. Parses-from (Reach-advance (codes "{") q t) (parse_bounds-Reads inner _ h))
                  (λ _. Parses-done (Reach-refl q) h))
    where
      bounds :
          {r : Query} (s : Text) (q : Parser)
          → 0 < length s
          → WellFormed chars r
          → starts_with s q.rest ≡ true
          → Reads (WellFormed chars) q (done r (advance s q))
      bounds s q l w t = Parses-done (Reach-advance s q t) w
