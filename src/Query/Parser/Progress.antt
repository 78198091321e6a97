-- ===== src/Query/Parser/Progress.antt =====
-- What a call of the parser leaves of its input, in crates/montre-query/src/parser.rs.
pub mod Words
pub mod Names
pub mod Patterns
pub mod Clauses
pub mod Grammar
use montre.Prelude.{
  ℕ, suc, ◌+◌, ◌≤◌, ◌<◌, Text, Bool, true, false, Bool-cases, List, [], ◌∷◌, ◌++◌, length, drop,
  ◌≡◌, refl, ap, ◌∙◌, sym, ◌∈◌, mem-append, inl, inr, arith, length-append, append_assoc,
  if◌then◌else◌, ◌==◌, ==→≡,
}
use montre.Query.{QueryError}
use montre.Query.Parser.{
  CharClasses, Parser, Parsed, Parse, done, failed, panicked, out_of_fuel, bytes, len_utf8,
  then_run, starts_with, take_while, advance, skip_whitespace, backslash, fail, pure,
}

pub bytes-append : (s t : Text) → bytes (s ++ t) ≡ bytes s + bytes t
bytes-append [] t = omega arith
bytes-append (c ∷ s) t = omega (arith, bytes-append s t)

-- The second parser stands behind a text that the first one has in front, at its byte position.
pub record Reach (p q : Parser) : Type 0 where
  pub between : Text
  pub rest_eq : p.rest ≡ between ++ q.rest
  pub pos_eq : q.pos ≡ p.pos + bytes between

-- Less of the input is left.
abbrev pub Shorter : Parser → Parser → Type 0
Shorter p q = length q.rest < length p.rest

-- The error is reported at a character boundary of the input that is left, or at its end.
abbrev pub ErrorAt : Parser → QueryError → Type 0
ErrorAt p (QueryError.parse n message) = (t : Text) × Reach p (record { pos = n; rest = t })
ErrorAt p _ = ⊥

abbrev pub Outcome : {A : Type 0} → (A → Parser → Type 0) → Parser → Parsed A → Type 0
Outcome P p (done a q) = Reach p q × P a q
Outcome P p (failed e) = ErrorAt p e
Outcome P p panicked = backslash ∈ p.rest
Outcome P p out_of_fuel = ⊥

-- A call that returns has a value and a place that pass, or an error at a character; it panics only
-- behind a backslash, and it has fuel enough.
pub record Parses {A : Type 0} (P : A → Parser → Type 0) (p : Parser) (r : Parsed A) : Type 0 where
  pub outcome : Outcome P p r

pub Reach-refl : (p : Parser) → Reach p p
Reach-refl p = record { between = []; rest_eq = refl; pos_eq = omega arith }

pub Reach-trans : {p q r : Parser} → Reach p q → Reach q r → Reach p r
Reach-trans a b = record {
  between = a.between ++ b.between;
  rest_eq = a.rest_eq ∙ ap (λ u. a.between ++ u) b.rest_eq ∙ append_assoc a.between b.between _;
  pos_eq = rw (bytes-append a.between b.between) (omega (arith, a.pos_eq, b.pos_eq));
}

pub Reach-length : {p q : Parser} → Reach p q → length q.rest ≤ length p.rest
Reach-length {q} a = rw (a.rest_eq, length-append a.between q.rest) (omega arith)

pub Shorter-from : {p q : Parser} (u : Parser) → Reach p q → Shorter q u → Shorter p u
Shorter-from u r h = omega (arith, Reach-length r, h)

pub Shorter-to : (p : Parser) {q u : Parser} → Shorter p q → Reach q u → Shorter p u
Shorter-to p h r = omega (arith, Reach-length r, h)

pub Reach-mem : {p q : Parser} (c : ℕ) → Reach p q → c ∈ q.rest → c ∈ p.rest
Reach-mem {q} c a m = rw a.rest_eq ((mem-append c a.between q.rest).1 (inr m))

pub starts_with-drop : (s t : Text) → starts_with s t ≡ true → t ≡ s ++ drop (length s) t
starts_with-drop [] t h = refl
starts_with-drop (a ∷ s) [] h = cc
starts_with-drop (a ∷ s) (b ∷ t) h = elim (Bool-cases (a == b)) [
  | inl e ↦ rw (==→≡ a b e) (ap (◌∷◌ b) (starts_with-drop s t (rw e at h)))
  | inr e ↦ let absurd_case = rw e at h in cc
]

pub take_while-drop :
    (test : ℕ → Bool) (t : Text) → t ≡ take_while test t ++ drop (length (take_while test t)) t
take_while-drop test [] = refl
take_while-drop test (c ∷ t) = elim (Bool-cases (test c)) [
  | inl e ↦ rw e (ap (◌∷◌ c) (take_while-drop test t))
  | inr e ↦ rw e refl
]

pub Reach-advance : (s : Text) (p : Parser) → starts_with s p.rest ≡ true → Reach p (advance s p)
Reach-advance s p h = record { between = s; rest_eq = starts_with-drop s p.rest h; pos_eq = refl }

pub Reach-take_while : (test : ℕ → Bool) (p : Parser) → Reach p (advance (take_while test p.rest) p)
Reach-take_while test p = record {
  between = take_while test p.rest;
  rest_eq = take_while-drop test p.rest;
  pos_eq = refl;
}

pub Reach-skip : (chars : CharClasses) (p : Parser) → Reach p (skip_whitespace chars p)
Reach-skip chars p = Reach-take_while chars.is_whitespace p

ErrorAt-from : (p q : Parser) (e : QueryError) → Reach p q → ErrorAt q e → ErrorAt p e
ErrorAt-from p q (QueryError.parse n message) r (t, s) = (t, Reach-trans r s)
ErrorAt-from p q (QueryError.regex _) r h = absurd h
ErrorAt-from p q (QueryError.unknown_layer _) r h = absurd h
ErrorAt-from p q (QueryError.unknown_label _) r h = absurd h
ErrorAt-from p q (QueryError.execution _) r h = absurd h

module _ {A : Type 0} {P : A → Parser → Type 0} {p : Parser} where
  pub Parses-done : {a : A} {q : Parser} → Reach p q → P a q → Parses P p (done a q)
  Parses-done s h = record { outcome = (s, h) }

  pub Parses-fail : (message : Text) {q : Parser} → Reach p q → Parses P p (fail message q)
  Parses-fail message {q} s = record { outcome = (q.rest, s) }

  pub Parses-from : {q : Parser} {r : Parsed A} → Reach p q → Parses P q r → Parses P p r
  Parses-from {r = done a u} s h = record { outcome = (Reach-trans s h.outcome.0, h.outcome.1) }
  Parses-from {q} {r = failed e} s h = record { outcome = ErrorAt-from p q e s h.outcome }
  Parses-from {r = panicked} s h = record { outcome = Reach-mem backslash s h.outcome }
  Parses-from {r = out_of_fuel} s h = absurd h.outcome

  pub Parses-if :
      (b : Bool) {x y : Parsed A}
      → (b ≡ true → Parses P p x)
      → (b ≡ false → Parses P p y)
      → Parses P p (if b then x else y)
  Parses-if true f g = f refl
  Parses-if false f g = g refl

  pub Parses-if-at :
      (b : Bool) (f g : Parse A) (q : Parser)
      → (b ≡ true → Parses P p (f q))
      → (b ≡ false → Parses P p (g q))
      → Parses P p ((if b then f else g) q)
  Parses-if-at true f g q x y = x refl
  Parses-if-at false f g q x y = y refl

module _ {A : Type 0} {P Q : A → Parser → Type 0} {p : Parser} where
  pub Parses-weaken :
      {r : Parsed A}
      → ((a : A) (q : Parser) → Reach p q → P a q → Q a q)
      → Parses P p r
      → Parses Q p r
  Parses-weaken {r = done a u} f h = Parses-done h.outcome.0 (f a u h.outcome.0 h.outcome.1)
  Parses-weaken {r = failed e} f h = record { outcome = h.outcome }
  Parses-weaken {r = panicked} f h = record { outcome = h.outcome }
  Parses-weaken {r = out_of_fuel} f h = absurd h.outcome

module _ {A B : Type 0} {P : A → Parser → Type 0} {Q : B → Parser → Type 0} {p : Parser} where
  -- A sequence of two calls, both seen from the start of the first one.
  pub Parses-through :
      {r : Parsed A} {f : A → Parse B}
      → Parses P p r
      → ((a : A) (q : Parser) → Reach p q → P a q → Parses Q p (f a q))
      → Parses Q p (then_run r f)
  Parses-through {r = done a q} h g = g a q h.outcome.0 h.outcome.1
  Parses-through {r = failed e} h g = record { outcome = h.outcome }
  Parses-through {r = panicked} h g = record { outcome = h.outcome }
  Parses-through {r = out_of_fuel} h g = absurd h.outcome

  -- A call from a place that is reached, and what follows it.
  pub Parses-next :
      {q : Parser} {r : Parsed A} {f : A → Parse B}
      → Reach p q
      → Parses P q r
      → ((a : A) (u : Parser) → Reach p u → P a u → Parses Q p (f a u))
      → Parses Q p (then_run r f)
  Parses-next s h g = Parses-through (Parses-from s h) g

  -- A sequence of two calls, the second one from where the first one ends.
  pub Parses-then :
      {r : Parsed A} {f : A → Parse B}
      → Parses P p r
      → ((a : A) (q : Parser) → Reach p q → P a q → Parses Q q (f a q))
      → Parses Q p (then_run r f)
  Parses-then h g = Parses-through h λ a q s w. Parses-from s (g a q s w)

  -- A call, and a value made of its value.
  pub Parses-map :
      {r : Parsed A} (f : A → B)
      → ((a : A) (q : Parser) → P a q → Q (f a) q)
      → Parses P p r
      → Parses Q p (then_run r (λ a. pure (f a)))
  Parses-map f g h = Parses-through h λ a q s w. Parses-done s (g a q w)
