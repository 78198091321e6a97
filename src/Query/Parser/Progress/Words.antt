-- ===== src/Query/Parser/Progress/Words.antt =====
-- The steps that read characters and words, in crates/montre-query/src/parser.rs.
use montre.Prelude.{
  ℕ, ◌+◌, ◌-◌, ◌≤◌, ◌<◌, Text, codes, Bool, true, false, Bool-cases, [], ◌∷◌, ◌++◌, length, drop,
  ◌≡◌, refl, ap, ◌∙◌, ◌∈◌, inl, inr, arith, length-append, ◌==◌, ==→≡, ◌≢◌, ltb, ltb→lt, subst,
  every,
}
use montre.Query.{QueryError}
use montre.Query.Parser.{
  Parser, Parsed, done, len_utf8, then_run, starts_with, take_while, advance, backslash, quote,
  pure, at_char, fail,
}
use montre.Query.Parser.Words.{
  is_ascii_digit, decimal, u32_bound, parse_while, parse_number, parse_cmp_op, read_escaped,
  read_up_to, read_name,
}
use montre.Query.Parser.Progress.{
  Reach, Shorter, Parses, Reach-refl, Reach-trans, Reach-mem, Reach-advance, Reach-take_while,
  Parses-done, Parses-fail, Parses-if, take_while-drop, starts_with-drop, Parses-through,
  Parses-map, ErrorAt, Parses-weaken,
}

-- A call that passes a value on, and one that also takes a character at least.
abbrev pub Reads : {A : Type 0} → (A → Type 0) → Parser → Parsed A → Type 0
Reads W p r = Parses (λ a q. W a) p r

abbrev pub Takes : {A : Type 0} → (A → Type 0) → Parser → Parsed A → Type 0
Takes W p r = Parses (λ a q. W a × Shorter p q) p r

abbrev pub Any : {A : Type 0} → A → Type 0
Any a = Unit {0}

starts_with-length :
    (s t : Text) → starts_with s t ≡ true → length s + length (drop (length s) t) ≡ length t
starts_with-length [] t h = omega arith
starts_with-length (a ∷ s) [] h = cc
starts_with-length (a ∷ s) (b ∷ t) h = elim (Bool-cases (a == b)) [
  | inl e ↦ omega (arith, starts_with-length s t (rw e at h))
  | inr e ↦ let absurd_case = rw e at h in cc
]

take_while-every : (test : ℕ → Bool) (s : Text) → every test (take_while test s) ≡ true
take_while-every test [] = refl
take_while-every test (c ∷ s) = elim (Bool-cases (test c)) [
  | inl e ↦ rw (e, e) (take_while-every test s)
  | inr e ↦ rw e refl
]

pub advance-Shorter :
    (s : Text) (p : Parser) → 0 < length s → starts_with s p.rest ≡ true → Shorter p (advance s p)
advance-Shorter s p l h = omega (arith, starts_with-length s p.rest h, l)

-- A value behind a text that stands in front.
pub literal-Takes :
    {A : Type 0} {W : A → Type 0} {a : A} (s : Text) (p : Parser)
    → 0 < length s
    → W a
    → starts_with s p.rest ≡ true
    → Takes W p (done a (advance s p))
literal-Takes s p l w h = Parses-done (Reach-advance s p h) (w, advance-Shorter s p l h)

pub parse_while-Takes :
    (test : ℕ → Bool) (message : Text) (p : Parser)
    → Takes (λ s. (s ≢ []) × (every test s ≡ true)) p (parse_while test message p)
parse_while-Takes test message p = go (take_while test p.rest) refl
  where
    go :
        (s : Text)
        → take_while test p.rest ≡ s
        → Takes
            (λ s. (s ≢ []) × (every test s ≡ true))
            p
            (elim s [ [] ↦ fail message p | c ∷ s ↦ done (c ∷ s) (advance (c ∷ s) p) ])
    go [] e = Parses-fail message (Reach-refl p)
    go (c ∷ s) e =
        let r = subst (λ t. Reach p (advance t p)) e (Reach-take_while test p) in
        let f = subst (λ t. p.rest ≡ t ++ drop (length t) p.rest) e (take_while-drop test p.rest) in
        let shorter : Shorter p (advance (c ∷ s) p) =
          omega (arith, ap length f, length-append (c ∷ s) (drop (length (c ∷ s)) p.rest)) in
        Parses-done r
          ((λ n. cc, subst (λ t. every test t ≡ true) e (take_while-every test p.rest)), shorter)

pub parse_cmp_op-Takes : (p : Parser) → Takes Any p (parse_cmp_op p)
unfolding parse_cmp_op
parse_cmp_op-Takes p = Parses-if _ (literal-Takes (codes ">=") p (omega arith) tt) λ _.
    Parses-if _ (literal-Takes (codes ">") p (omega arith) tt) λ _.
      Parses-if _ (literal-Takes (codes "<=") p (omega arith) tt) λ _.
        Parses-if _ (literal-Takes (codes "<") p (omega arith) tt) λ _.
          Parses-if _ (literal-Takes (codes "!=") p (omega arith) tt) λ _.
            Parses-if _ (literal-Takes (codes "=") p (omega arith) tt)
              λ _. Parses-fail _ (Reach-refl p)

pub parse_number-Takes : (p : Parser) → Takes (λ n. n < u32_bound) p (parse_number p)
unfolding parse_number
parse_number-Takes p = Parses-through (parse_while-Takes is_ascii_digit _ p) λ digits q r w.
    Parses-if (ltb (decimal 0 digits) u32_bound) (λ h. Parses-done r (ltb→lt _ _ h, w.1))
      (λ h. Parses-fail _ (Reach-refl p))

Reach-char :
    {p : Parser} {pos c : ℕ} {s : Text}
    → Reach p (record { pos = pos; rest = c ∷ s })
    → Reach p (record { pos = pos + len_utf8 c; rest = s })
Reach-char {c} r = Reach-trans r (record { between = c ∷ []; rest_eq = refl; pos_eq = omega arith })

-- No more is left than a text.
abbrev Within : Text → Text → Parser → Type 0
Within s a q = length q.rest ≤ length s

Reach-close :
    {p : Parser} {pos c : ℕ} {s : Text} (close : ℕ)
    → len_utf8 close ≡ 1
    → (c == close) ≡ true
    → Reach p (record { pos = pos; rest = c ∷ s })
    → Reach p (record { pos = pos + 1; rest = s })
Reach-close {p} {pos} {c} {s} close l h r =
    subst (λ n. Reach p (record { pos = pos + n; rest = s })) (ap len_utf8 (==→≡ c close h) ∙ l)
      (Reach-char r)

Reach-front :
    {p : Parser} {pos c : ℕ} {s : Text} → Reach p (record { pos = pos; rest = c ∷ s }) → c ∈ p.rest
Reach-front {c} r = Reach-mem c r (inl refl)

read_escaped-Parses :
    (close : ℕ) (u : QueryError) (escaped : Bool) (pos : ℕ) (s : Text) (p : Parser)
    → len_utf8 close ≡ 1
    → ErrorAt p u
    → Reach p (record { pos = pos; rest = s })
    → (escaped ≡ true → backslash ∈ p.rest)
    → Parses (Within s) p (read_escaped close u escaped pos s)
unfolding read_escaped
read_escaped-Parses close u escaped pos [] p l e r b = record { outcome = e }
read_escaped-Parses close u escaped pos (c ∷ s) p l e r b =
    let more : (k : Bool)
        → (k ≡ true → backslash ∈ p.rest)
        → Parses (Within (c ∷ s)) p
            (then_run (read_escaped close u k (pos + len_utf8 c) s) (λ text. pure (c ∷ text))) =
      λ k m.
        Parses-map (λ text. c ∷ text) (λ a q w. omega (arith, w))
          (read_escaped-Parses close u k (pos + len_utf8 c) s p l e (Reach-char r) m) in
    Parses-if escaped
      (λ t. Parses-if (len_utf8 c == 1) (λ h. more false (λ f. cc)) (λ h. record { outcome = b t }))
      λ t.
        Parses-if (c == close) (λ h. Parses-done (Reach-close close l h r) (omega arith))
          λ f.
            Parses-if (c == backslash)
              (λ h. more true (λ _. subst (λ x. x ∈ p.rest) (==→≡ c backslash h) (Reach-front r)))
              (λ h. more false (λ f. cc))

-- A text up to its closing character, behind the opening one.
pub read_up_to-Takes :
    (close : ℕ) (message : Text) (p q : Parser)
    → len_utf8 close ≡ 1
    → ErrorAt p (QueryError.parse (q.pos - 1) message)
    → Reach p q
    → Shorter p q
    → Takes Any p (read_up_to close message q)
read_up_to-Takes close message p q l e r h =
    Parses-weaken (λ a u s w. (tt, omega (arith, w, h)))
      (read_escaped-Parses close _ false q.pos q.rest p l e r (λ f. cc))

pub read_name-Parses :
    (u : QueryError) (pos : ℕ) (s : Text) (p : Parser)
    → ErrorAt p u
    → Reach p (record { pos = pos; rest = s })
    → Parses (Within s) p (read_name u pos s)
unfolding read_name
read_name-Parses u pos [] p e r = record { outcome = e }
read_name-Parses u pos (c ∷ s) p e r =
    Parses-if (c == quote) (λ h. Parses-done (Reach-close quote refl h r) (omega arith))
      (λ h.
        Parses-map (λ text. c ∷ text) (λ a q w. omega (arith, w))
          (read_name-Parses u (pos + len_utf8 c) s p e (Reach-char r)))

-- Behind an expected character, which stands a byte before.
abbrev pub Behind : ℕ → Parser → Parser → Type 0
Behind c p q = Reach p (record { pos = q.pos - 1; rest = c ∷ q.rest })

pub at_char-Behind :
    (c : ℕ) {p q : Parser}
    → len_utf8 c ≡ 1
    → Reach p q
    → at_char c q ≡ true
    → Behind c p (advance (c ∷ []) q)
at_char-Behind c {q} l r h = record {
  between = r.between;
  rest_eq = r.rest_eq ∙ ap (λ t. r.between ++ t) (starts_with-drop (c ∷ []) q.rest h);
  pos_eq = omega (arith, r.pos_eq, l);
}
