-- ===== src/Query/Parser/Words.antt =====
-- crates/montre-query/src/parser.rs: names, numbers and comparison operators.
use montre.Prelude.{
  ℕ, ◌+◌, ◌*◌, ◌-◌, Text, codes, Bool, true, false, ◌||◌, ◌&&◌, List, [], ◌∷◌, ◌==◌, ltb, leb,
  if◌then◌else◌, text_eq,
}
use montre.Query.{QueryError}
use montre.Query.Ast.{CmpOp}
use montre.Query.Parser.{
  CharClasses, Parsed, Parse, done, failed, panicked, ◌>>=◌, pure, fail, starts_with, take_while,
  advance, at_char, is_word_char, quote, backslash, len_utf8, skip_whitespace, items_behind,
  then_run,
}

abbrev pub is_ascii_digit : ℕ → Bool
is_ascii_digit c = leb b'0' c && leb c b'9'

-- `str::parse` on decimal digits, and the bound of a `u32`.
abbrev pub decimal : ℕ → Text → ℕ
decimal value [] = value
decimal value (c ∷ s) = decimal (value * 10 + (c - 48)) s

abbrev pub u32_bound : ℕ
u32_bound = 4294967296

-- A word is the longest text of characters that pass; it is refused when it is empty.
abbrev pub parse_while : (ℕ → Bool) → Text → Parse Text
parse_while test message p = elim (take_while test p.rest) [
  | [] ↦ fail message p
  | c ∷ s ↦ done (c ∷ s) (advance (c ∷ s) p)
]

unfoldable pub parse_number : Parse ℕ
parse_number p = then_run (parse_while is_ascii_digit (codes "Expected number") p) λ digits q.
    let value = decimal 0 digits in
    if ltb value u32_bound then done value q else fail (codes "Invalid number") p

unfoldable pub parse_cmp_op : Parse CmpOp
parse_cmp_op p =
    if starts_with (codes ">=") p.rest
    then done CmpOp.ge (advance (codes ">=") p)
    else if starts_with (codes ">") p.rest
    then done CmpOp.gt (advance (codes ">") p)
    else if starts_with (codes "<=") p.rest
    then done CmpOp.le (advance (codes "<=") p)
    else if starts_with (codes "<") p.rest
    then done CmpOp.lt (advance (codes "<") p)
    else if starts_with (codes "!=") p.rest
    then done CmpOp.ne (advance (codes "!=") p)
    else if starts_with (codes "=") p.rest
    then done CmpOp.eq (advance (codes "=") p)
    else fail (codes "Expected comparison operator (=, !=, >=, >, <=, <)") p

-- The loops that read up to a closing character. Behind a backslash the program steps over one
-- byte, and the slice that follows panics when that is not the whole character.
unfoldable pub read_escaped : ℕ → QueryError → Bool → ℕ → Text → Parsed Text
read_escaped close unterminated escaped pos [] = failed unterminated
read_escaped close unterminated escaped pos (c ∷ s) =
    let more = λ (e : Bool).
      then_run (read_escaped close unterminated e (pos + len_utf8 c) s) λ text. pure (c ∷ text) in
    if escaped
    then (if len_utf8 c == 1 then more false else panicked)
    else if c == close
    then done [] (record { pos = pos + 1; rest = s })
    else if c == backslash
    then more true
    else more false

-- The text up to the closing character. An error is reported at the opening one, a byte before.
abbrev pub read_up_to : ℕ → Text → Parse Text
read_up_to close message p =
    read_escaped close (QueryError.parse (p.pos - 1) message) false p.pos p.rest

-- The loop of `parse_name`, where a backslash is a character like any other.
unfoldable pub read_name : QueryError → ℕ → Text → Parsed Text
read_name unterminated pos [] = failed unterminated
read_name unterminated pos (c ∷ s) =
    if c == quote
    then done [] (record { pos = pos + 1; rest = s })
    else then_run (read_name unterminated (pos + len_utf8 c) s) λ text. pure (c ∷ text)

abbrev pub expand_span_alias : Text → Text
expand_span_alias name =
    if text_eq name (codes "s") || text_eq name (codes "sent")
    then codes "sentence"
    else if text_eq name (codes "doc")
    then codes "document"
    else if text_eq name (codes "p") || text_eq name (codes "para")
    then codes "paragraph"
    else name

abbrev pub resolve_layer_alias : Text → Text
resolve_layer_alias name = if text_eq name (codes "pos") then codes "upos" else name

module _ (chars : CharClasses) where
  unfoldable pub parse_identifier : Parse Text
  parse_identifier =
      parse_while (λ c. is_word_char chars c || c == b'.') (codes "Expected identifier")

  unfoldable pub parse_bare_identifier : Parse Text
  parse_bare_identifier = parse_while (is_word_char chars) (codes "Expected identifier")

  unfoldable pub parse_name : Parse Text
  unfolding read_name parse_identifier
  parse_name p =
      if at_char (quote) p
      then (let q = advance (quote ∷ []) p in
          read_name (QueryError.parse (q.pos - 1) (codes "Unterminated string")) q.pos q.rest)
      else parse_identifier p

  unfoldable pub parse_name_list : Parse (List Text)
  unfolding parse_name
  parse_name_list = do
    first ← parse_name
    rest ← items_behind chars b',' (λ p. parse_name (skip_whitespace chars p))
    pure (first ∷ rest)
