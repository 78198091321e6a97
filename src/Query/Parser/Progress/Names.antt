-- ===== src/Query/Parser/Progress/Names.antt =====
-- Expected characters, names and lists of names, in crates/montre-query/src/parser.rs.
use montre.Prelude.{ℕ, zero, suc, ◌<◌, Text, true, [], ◌∷◌, length, ◌≡◌, refl, arith, ◌≢◌}
use montre.Query.Parser.{
  CharClasses, Parser, Parsed, Parse, len_utf8, then_run, starts_with, starts_word, advance, skip,
  skip_whitespace, quote, pure, at_char, consume, try_consume, try_consume_str, more_items,
  items_behind, ◌>>=◌,
}
use montre.Query.Parser.Words.{parse_identifier, parse_bare_identifier, parse_name, parse_name_list}
use montre.Query.Parser.Progress.{
  Shorter, Parses, Reach-refl, Reach-trans, Reach-length, Reach-advance, Reach-skip, Parses-done,
  Parses-fail, Parses-from, Parses-if, Parses-if-at, Parses-through, Parses-map, Parses-weaken,
  Parses-then,
}
use montre.Query.Parser.WellFormed.{EachOf, IsName, IsBareName}
use montre.Query.Parser.Progress.Words.{
  Reads, Takes, Any, advance-Shorter, parse_while-Takes, read_name-Parses, Behind, at_char-Behind,
}

module _ (chars : CharClasses) where
  pub skip-Shorter :
      (s : Text) (p : Parser)
      → 0 < length s
      → starts_with s (skip_whitespace chars p).rest ≡ true
      → Shorter p (advance s (skip_whitespace chars p))
  skip-Shorter s p l h =
      let q = skip_whitespace chars p in
      omega (arith, Reach-length (Reach-skip chars p), advance-Shorter s q l h)

  pub skip-Parses : (p : Parser) → Reads Any p (skip chars p)
  unfolding skip
  skip-Parses p = Parses-done (Reach-skip chars p) tt

  pub consume-Takes :
      (c : ℕ) (p : Parser)
      → len_utf8 c ≡ 1
      → Parses (λ a q. Behind c p q × Shorter p q) p (consume chars c p)
  unfolding consume
  consume-Takes c p l =
      let q = skip_whitespace chars p in
      Parses-if (at_char c q)
        (λ h.
          Parses-done (Reach-trans (Reach-skip chars p) (Reach-advance (c ∷ []) q h))
            (at_char-Behind c l (Reach-skip chars p) h, skip-Shorter (c ∷ []) p (omega arith) h))
        (λ h. Parses-fail _ (Reach-skip chars p))

  pub try_consume-Parses :
      (c : ℕ) (p : Parser)
      → Parses (λ found q. found ≡ true → Shorter p q) p (try_consume chars c p)
  unfolding try_consume
  try_consume-Parses c p =
      let q = skip_whitespace chars p in
      Parses-if (at_char c q)
        (λ h.
          Parses-done (Reach-trans (Reach-skip chars p) (Reach-advance (c ∷ []) q h))
            (λ _. skip-Shorter (c ∷ []) p (omega arith) h))
        (λ h. Parses-done (Reach-skip chars p) (λ f. cc))

  pub try_consume_str-Parses :
      (word : Text) (p : Parser)
      → 0 < length word
      → Parses (λ found q. found ≡ true → Shorter p q) p (try_consume_str chars word p)
  unfolding try_consume_str
  try_consume_str-Parses word p l =
      let q = skip_whitespace chars p in
      Parses-if (starts_word chars word q.rest)
        (λ h.
          Parses-done
            (Reach-trans (Reach-skip chars p)
              (Reach-advance word q (starts_word-starts_with word q.rest h)))
            (λ _. skip-Shorter word p l (starts_word-starts_with word q.rest h)))
        (λ h. Parses-done (Reach-skip chars p) (λ f. cc))
    where
      starts_word-starts_with : (w s : Text) → starts_word chars w s ≡ true → starts_with w s ≡ true
      starts_word-starts_with w s h = ground arith

  pub more_items-Reads :
      {A : Type 0} {W : A → Type 0} (n separator : ℕ) (item : Parse A) (p : Parser)
      → length p.rest < n
      → ((q : Parser) → Reads W q (item q))
      → Reads (EachOf W) p (more_items chars n separator item p)
  unfolding more_items
  more_items-Reads zero separator item p l h = omega (arith, l)
  more_items-Reads (suc n) separator item p l h = Parses-from (Reach-skip chars p) (
      Parses-through (try_consume-Parses separator (skip_whitespace chars p)) λ found q r w.
        Parses-from r (
          Parses-if-at found _ _ q
            (λ t. Parses-then (h q) λ a u s v.
              Parses-map (λ rest. a ∷ rest) (λ rest x k. (v, k))
                (more_items-Reads n separator item u
                  (omega (arith, l, Reach-length s, w t, Reach-length (Reach-skip chars p))) h))
            (λ f. Parses-done (Reach-refl q) tt)))

  -- A first item, and the items behind separators.
  pub items-Takes :
      {A : Type 0} {W : A → Type 0} {r : Parsed A} (separator : ℕ) (item : Parse A) (p : Parser)
      → Takes W p r
      → ((q : Parser) → Reads W q (item q))
      → Takes
          (λ list. (list ≢ []) × EachOf W list)
          p
          (then_run r λ a. items_behind chars separator item >>= λ rest. pure (a ∷ rest))
  items-Takes separator item p h k = Parses-through h λ a q s w. Parses-from s (
      Parses-through (more_items-Reads _ separator item q (omega arith) k)
        λ rest u t v. Parses-done t ((λ e. cc, (w.0, v)), omega (arith, w.1, Reach-length t)))

  pub parse_identifier-Takes : (p : Parser) → Takes (IsName chars) p (parse_identifier chars p)
  unfolding parse_identifier
  parse_identifier-Takes p = parse_while-Takes _ _ p

  pub parse_bare_identifier-Takes :
      (p : Parser) → Takes (IsBareName chars) p (parse_bare_identifier chars p)
  unfolding parse_bare_identifier
  parse_bare_identifier-Takes p = parse_while-Takes _ _ p

  pub parse_name-Takes : (p : Parser) → Takes Any p (parse_name chars p)
  unfolding parse_name
  parse_name-Takes p =
      Parses-if (at_char quote p)
        (λ h.
          let q = advance (quote ∷ []) p in
          let r = Reach-advance (quote ∷ []) p h in
          let opening = at_char-Behind quote {p = p} {q = p} refl (Reach-refl p) h in
          Parses-weaken
            (λ a u s w. (tt, omega (arith, w, advance-Shorter (quote ∷ []) p (omega arith) h)))
            (read_name-Parses _ q.pos q.rest p (quote ∷ q.rest, opening) r))
        (λ h. Parses-weaken (λ a q r w. (tt, w.1)) (parse_identifier-Takes p))

  pub parse_name_list-Takes :
      (p : Parser) → Takes (λ names. (names ≢ []) × EachOf Any names) p (parse_name_list chars p)
  unfolding parse_name_list
  parse_name_list-Takes p =
      items-Takes b',' (λ q. parse_name chars (skip_whitespace chars q)) p (parse_name-Takes p)
        λ q.
          Parses-from (Reach-skip chars q)
            (Parses-weaken (λ a u s w. w.0) (parse_name-Takes (skip_whitespace chars q)))
