-- ===== src/Query/Parser.antt =====
-- crates/montre-query/src/parser.rs: the parser's state, and the steps that read characters.
pub mod Words
pub mod Patterns
pub mod Clauses
pub mod Grammar
pub mod Labels
pub mod WellFormed
pub mod Progress
pub mod Distinct
pub mod Outcomes
pub mod Escapes
use montre.Prelude.{
  ℕ, zero, suc, ◌+◌, Text, codes, Bool, true, false, ◌||◌, not, Option, none, some, List, [], ◌∷◌,
  ◌++◌, length, drop, ◌==◌, ltb, if◌then◌else◌, ◌≡◌,
}
use montre.Query.{QueryError, Result, ok, err}

-- `char::len_utf8`, and the bytes of a text.
abbrev pub len_utf8 : ℕ → ℕ
len_utf8 c = if ltb c 128 then 1 else if ltb c 2048 then 2 else if ltb c 65536 then 3 else 4

abbrev pub bytes : Text → ℕ
bytes [] = 0
bytes (c ∷ s) = len_utf8 c + bytes s

abbrev pub quote : ℕ
quote = 34

abbrev pub backslash : ℕ
backslash = 92

abbrev pub underscore : ℕ
underscore = 95

-- The classes of characters that the standard library has tables for.
pub record CharClasses : Type 0 where
  pub is_alphanumeric : ℕ → Bool
  pub is_alphabetic : ℕ → Bool
  pub is_whitespace : ℕ → Bool

-- The parser, with the input that remains at its byte position.
pub record Parser : Type 0 where
  pub pos : ℕ
  pub rest : Text

-- What a call returns: a value with the parser after it, or an error. A call panics where it
-- slices the input inside a character, and a loop of the model can run out of fuel.
pub data Parsed (A : Type 0) : Type 0 where
  done : A → Parser → Parsed A
  failed : QueryError → Parsed A
  panicked out_of_fuel : Parsed A

abbrev pub Parse : Type 0 → Type 0
Parse A = Parser → Parsed A

-- `?`, as a method of what a call returned and as the sequence of two calls.
abbrev pub then_run : {A B : Type 0} → Parsed A → (A → Parse B) → Parsed B
then_run (done a p) f = f a p
then_run (failed e) f = failed e
then_run panicked f = panicked
then_run out_of_fuel f = out_of_fuel

abbrev pub pure : {A : Type 0} → A → Parse A
pure a p = done a p

infixl 5 ◌>>=◌ ◌>>◌
abbrev pub ◌>>=◌ : {A B : Type 0} → Parse A → (A → Parse B) → Parse B
(first >>= f) p = then_run (first p) f

abbrev pub ◌>>◌ : {B : Type 0} → Parse (Unit {0}) → Parse B → Parse B
(first >> next) p = then_run (first p) (λ _. next)

abbrev pub fail : {A : Type 0} → Text → Parse A
fail message p = failed (QueryError.parse p.pos message)

-- `starts_with`.
abbrev pub starts_with : Text → Text → Bool
starts_with [] s = true
starts_with (a ∷ t) [] = false
starts_with (a ∷ t) (b ∷ s) = if a == b then starts_with t s else false

abbrev pub take_while : (ℕ → Bool) → Text → Text
take_while test [] = []
take_while test (c ∷ s) = if test c then c ∷ take_while test s else []

-- The parser behind a text that its input starts with.
abbrev pub advance : Text → Parser → Parser
advance s p = record { pos = p.pos + bytes s; rest = drop (length s) p.rest }

abbrev pub first_char : Text → Option ℕ
first_char [] = none
first_char (c ∷ s) = some c

abbrev pub peek_char : Parser → Option ℕ
peek_char p = first_char p.rest

-- `Some(c) if c == expected`.
abbrev pub at_char : ℕ → Parser → Bool
at_char expected p = starts_with (expected ∷ []) p.rest

module _ (chars : CharClasses) where
  abbrev pub skip_whitespace : Parser → Parser
  skip_whitespace p = advance (take_while chars.is_whitespace p.rest) p

  unfoldable pub skip : Parse (Unit {0})
  skip p = done tt (skip_whitespace p)

  abbrev pub expected_but : ℕ → Option ℕ → Text
  expected_but expected (some c) =
      codes "Expected '" ++ expected ∷ codes "', found '" ++ c ∷ codes "'"
  expected_but expected none = codes "Expected '" ++ expected ∷ codes "', found end of input"

  unfoldable pub consume : ℕ → Parse (Unit {0})
  consume expected p =
      let q = skip_whitespace p in
      if at_char expected q
      then done tt (advance (expected ∷ []) q)
      else fail (expected_but expected (peek_char q)) q

  unfoldable pub try_consume : ℕ → Parse Bool
  try_consume expected p =
      let q = skip_whitespace p in
      if at_char expected q then done true (advance (expected ∷ []) q) else done false q

  -- A character that goes on with a word.
  abbrev pub is_word_char : ℕ → Bool
  is_word_char c = chars.is_alphanumeric c || c == underscore

  -- The text stands in front and ends a word.
  abbrev pub starts_word : Text → Text → Bool
  starts_word word s =
      if starts_with word s
      then elim (first_char (drop (length word) s)) [ none ↦ true | some c ↦ not (is_word_char c) ]
      else false

  unfoldable pub try_consume_str : Text → Parse Bool
  try_consume_str word p =
      let q = skip_whitespace p in
      if starts_word word q.rest then done true (advance word q) else done false q

  -- The loop that reads an item behind each separator.
  unfoldable pub more_items : {A : Type 0} → ℕ → ℕ → Parse A → Parse (List A)
  unfolding try_consume
  more_items zero separator item p = out_of_fuel
  more_items (suc n) separator item p =
      then_run (try_consume separator (skip_whitespace p)) λ found.
        if found
        then (item >>= λ a. more_items n separator item >>= λ rest. pure (a ∷ rest))
        else pure []

  abbrev pub items_behind : {A : Type 0} → ℕ → Parse A → Parse (List A)
  items_behind separator item p = more_items (suc (length p.rest)) separator item p
