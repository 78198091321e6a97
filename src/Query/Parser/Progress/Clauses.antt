-- ===== src/Query/Parser/Progress/Clauses.antt =====
-- The clauses behind a sequence, in crates/montre-query/src/parser.rs.
use montre.Prelude.{
  ℕ, zero, suc, ◌<◌, Text, codes, Bool, true, false, List, [], length, ◌≡◌, refl, arith,
  if◌then◌else◌, ◌≢◌, text_eq, ◌||◌, ◌&&◌, not,
}
use montre.Query.Ast.{CmpOp, LabelAttr, Query, within_component, within_document, constrained}
use montre.Query.Parser.{
  CharClasses, Parser, then_run, starts_with, advance, skip_whitespace, pure, at_char,
}
use montre.Query.Parser.Words.{expand_span_alias, parse_name_list}
use montre.Query.Parser.Clauses.{
  parse_label_attr, compare_constraint, parse_compare_constraint, parse_distance_constraint,
  parse_global_constraint, parse_constraint_list, maybe_wrap_constrained, within_clause,
  parse_within, parse_projection, maybe_wrap_within,
}
use montre.Query.Parser.WellFormed.{EachOf, IsLabelAttr, IsGlobal, WellFormed}
use montre.Query.Parser.Progress.{
  Reach-refl, Reach-trans, Reach-advance, Reach-skip, Parses-done, Parses-fail, Parses-from,
  Parses-if, Parses-if-at, Parses-through, Parses-then, Parses-map, Parses-next, Shorter-from,
  Shorter-to,
}
use montre.Query.Parser.Progress.Words.{
  Reads, Takes, advance-Shorter, parse_number-Takes, parse_cmp_op-Takes,
}
use montre.Query.Parser.Progress.Patterns.{resolve_layer_alias-ne-nil}
use montre.Query.Parser.Progress.Names.{
  skip-Parses, consume-Takes, try_consume_str-Parses, more_items-Reads, parse_identifier-Takes,
  parse_bare_identifier-Takes, parse_name_list-Takes,
}

expand_span_alias-ne-nil : (s : Text) → s ≢ [] → expand_span_alias s ≢ []
expand_span_alias-ne-nil s h =
    ifs (text_eq s (codes "s") || text_eq s (codes "sent")) (λ e. cc)
      (ifs (text_eq s (codes "doc")) (λ e. cc)
        (ifs (text_eq s (codes "p") || text_eq s (codes "para")) (λ e. cc) h))
  where
    ifs : (b : Bool) {s t : Text} → s ≢ [] → t ≢ [] → (if b then s else t) ≢ []
    ifs true h k = h
    ifs false h k = k

module _ (chars : CharClasses) where
  parse_label_attr-Takes : (p : Parser) → Takes (IsLabelAttr chars) p (parse_label_attr chars p)
  unfolding parse_label_attr
  parse_label_attr-Takes p = Parses-through (parse_bare_identifier-Takes chars p) λ label p1 r1 w1.
      Parses-next r1 (consume-Takes chars b'.' p1 refl) λ _ p2 r2 _.
        Parses-next r2 (parse_identifier-Takes chars p2) λ attr p3 r3 w3.
          Parses-done r3 ((w1.0, resolve_layer_alias-ne-nil attr w3.0.0), Shorter-from p3 r2 w3.1)

  compare_constraint-Reads :
      (op : CmpOp) (left right : LabelAttr) (p : Parser)
      → IsLabelAttr chars left
      → IsLabelAttr chars right
      → Reads (IsGlobal chars) p (compare_constraint chars op left right p)
  compare_constraint-Reads CmpOp.eq left right p h k = Parses-done (Reach-refl p) (h, k)
  compare_constraint-Reads CmpOp.ne left right p h k = Parses-done (Reach-refl p) (h, k)
  compare_constraint-Reads CmpOp.ge left right p h k = Parses-fail _ (Reach-refl p)
  compare_constraint-Reads CmpOp.gt left right p h k = Parses-fail _ (Reach-refl p)
  compare_constraint-Reads CmpOp.le left right p h k = Parses-fail _ (Reach-refl p)
  compare_constraint-Reads CmpOp.lt left right p h k = Parses-fail _ (Reach-refl p)

  parse_compare_constraint-Reads :
      (p : Parser) → Reads (IsGlobal chars) p (parse_compare_constraint chars p)
  unfolding parse_compare_constraint
  parse_compare_constraint-Reads p = Parses-through (parse_label_attr-Takes p) λ left p1 r1 w1.
      Parses-next r1 (skip-Parses chars p1) λ _ p2 r2 _.
        Parses-next r2 (parse_cmp_op-Takes p2) λ op p3 r3 _.
          Parses-next r3 (skip-Parses chars p3) λ _ p4 r4 _.
            Parses-next r4 (parse_label_attr-Takes p4)
              λ right p5 r5 w5. Parses-from r5 (compare_constraint-Reads op left right p5 w1.0 w5.0)

  parse_distance_constraint-Reads :
      (p : Parser) → Reads (IsGlobal chars) p (parse_distance_constraint chars p)
  unfolding parse_distance_constraint
  parse_distance_constraint-Reads p = Parses-through (consume-Takes chars b'(' p refl) λ _ p1 r1 _.
      Parses-next r1 (skip-Parses chars p1) λ _ p2 r2 _.
        Parses-next r2 (parse_identifier-Takes chars p2) λ left p3 r3 w3.
          Parses-next r3 (skip-Parses chars p3) λ _ p4 r4 _.
            Parses-next r4 (consume-Takes chars b',' p4 refl) λ _ p5 r5 _.
              Parses-next r5 (skip-Parses chars p5) λ _ p6 r6 _.
                Parses-next r6 (parse_identifier-Takes chars p6) λ right p7 r7 w7.
                  Parses-next r7 (skip-Parses chars p7) λ _ p8 r8 _.
                    Parses-next r8 (consume-Takes chars b')' p8 refl) λ _ p9 r9 _.
                      Parses-next r9 (skip-Parses chars p9) λ _ p10 r10 _.
                        Parses-next r10 (parse_cmp_op-Takes p10) λ op p11 r11 _.
                          Parses-next r11 (skip-Parses chars p11) λ _ p12 r12 _.
                            Parses-next r12 (parse_number-Takes p12)
                              λ value p13 r13 w13. Parses-done r13 (w3.0, w7.0, w13.0)

  parse_global_constraint-Reads :
      (p : Parser) → Reads (IsGlobal chars) p (parse_global_constraint chars p)
  unfolding parse_global_constraint
  parse_global_constraint-Reads p = Parses-through (skip-Parses chars p) λ _ p1 r1 _.
      Parses-next r1 (try_consume_str-Parses chars (codes "distance") p1 (omega arith))
        λ found p2 r2 _. Parses-from r2 (
          Parses-if-at found _ _ p2 (λ _. parse_distance_constraint-Reads p2)
            (λ _. parse_compare_constraint-Reads p2))

  parse_constraint_list-Reads :
      (p : Parser)
      → Reads (λ cs. (cs ≢ []) × EachOf (IsGlobal chars) cs) p (parse_constraint_list chars p)
  unfolding parse_constraint_list
  parse_constraint_list-Reads p = Parses-through (parse_global_constraint-Reads p) λ first q r w.
      Parses-next r (more_items-Reads chars _ b'&' _ q (omega arith) parse_global_constraint-Reads)
        λ rest u s v. Parses-done s (λ e. cc, (w, v))

  pub maybe_wrap_constrained-Reads :
      (query : Query) (p : Parser)
      → WellFormed chars query
      → Reads (WellFormed chars) p (maybe_wrap_constrained chars query p)
  unfolding maybe_wrap_constrained
  maybe_wrap_constrained-Reads query p h =
      let q = skip_whitespace chars p in
      Parses-from (Reach-skip chars p) (
        Parses-if (starts_with (codes "::") q.rest)
          (λ t. Parses-from (Reach-advance (codes "::") q t) (
            Parses-map (λ cs. constrained query cs) (λ cs u w. (h, w.0, w.1))
              (parse_constraint_list-Reads _)))
          (λ _. Parses-done (Reach-refl q) h))

  named_list-Reads :
      (make : List Text → Query) (p : Parser)
      → ((names : List Text) → names ≢ [] → WellFormed chars (make names))
      → at_char b':' p ≡ true
      → Reads (WellFormed chars) p (
          then_run
            (parse_name_list chars (skip_whitespace chars (advance (codes ":") p)))
            (λ names. pure (make names)))
  named_list-Reads make p h t =
      Parses-from (Reach-trans (Reach-advance (codes ":") p t) (Reach-skip chars _))
        (Parses-map make (λ names u w. h names w.0.0) (parse_name_list-Takes chars _))

  within_clause-Reads :
      (query : Query) (keyword : Text) (p : Parser)
      → WellFormed chars query
      → keyword ≢ []
      → Reads (WellFormed chars) p (within_clause chars query keyword p)
  unfolding within_clause
  within_clause-Reads query keyword p h k =
      Parses-if (text_eq keyword (codes "component"))
        (λ _.
          Parses-if (at_char b':' p)
            (named_list-Reads (λ names. within_component query names) p (λ names e. (h, e)))
            (λ _. Parses-fail _ (Reach-refl p)))
        (λ _.
          Parses-if
            ((text_eq keyword (codes "doc") || text_eq keyword (codes "document"))
              && at_char b':' p)
            (λ t.
              named_list-Reads (λ names. within_document query names) p (λ names e. (h, e))
                (ground arith))
            (λ _. Parses-done (Reach-refl p) (h, expand_span_alias-ne-nil keyword k)))

  parse_within-Reads :
      (query : Query) (p : Parser)
      → WellFormed chars query
      → Reads (WellFormed chars) p (parse_within chars query p)
  unfolding parse_within
  parse_within-Reads query p h = Parses-through (skip-Parses chars p) λ _ p1 r1 _.
      Parses-next r1 (parse_identifier-Takes chars p1) λ keyword p2 r2 w2.
        Parses-next r2 (skip-Parses chars p2)
          λ _ p3 r3 _. Parses-from r3 (within_clause-Reads query keyword p3 h w2.0.0)

  parse_projection-Reads :
      (query : Query) (p : Parser)
      → WellFormed chars query
      → Reads (WellFormed chars) p (parse_projection chars query p)
  unfolding parse_projection
  parse_projection-Reads query p h =
      Parses-through (parse_identifier-Takes chars p) λ alignment q r w. Parses-from r (
        Parses-if (starts_with (codes "=>") q.rest)
          (λ t. Parses-done (Reach-advance (codes "=>") q t) (h, w.0))
          (λ _. Parses-fail _ (Reach-refl q)))

  pub maybe_wrap_within-Reads :
      (n : ℕ) (query : Query) (p : Parser)
      → length p.rest < n
      → WellFormed chars query
      → Reads (WellFormed chars) p (maybe_wrap_within chars n query p)
  unfolding maybe_wrap_within
  maybe_wrap_within-Reads zero query p l h = omega (arith, l)
  maybe_wrap_within-Reads (suc n) query p l h =
      let start = skip_whitespace chars p in
      let more : (u : Parser)
          → length u.rest < length p.rest
          → (query' : Query) → WellFormed chars query'
          → Reads (WellFormed chars) u (maybe_wrap_within chars n query' u) =
        λ u k query' w. maybe_wrap_within-Reads n query' u (omega (arith, l, k)) w in
      Parses-from (Reach-skip chars p) (
        Parses-through (try_consume_str-Parses chars (codes "within") start (omega arith))
          λ found q r w. Parses-from r (
            Parses-if found
              (λ t. Parses-then (parse_within-Reads query q h) λ query' u s v.
                more u (Shorter-from u (Reach-skip chars p) (Shorter-to start (w t) s)) query' v)
              λ _.
                Parses-if (starts_with (codes "=") q.rest && not (starts_with (codes "==") q.rest))
                  (λ t.
                    let e : starts_with (codes "=") q.rest ≡ true = ground arith in
                    let arrow = Reach-advance (codes "=") q e in
                    Parses-from arrow (
                      Parses-then (parse_projection-Reads query _ h) λ query' u s v.
                        more u
                          (Shorter-from u (Reach-trans (Reach-skip chars p) r)
                            (Shorter-to q (advance-Shorter (codes "=") q (omega arith) e) s))
                          query' v))
                  (λ _. Parses-done (Reach-refl q) h)))
