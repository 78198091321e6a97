-- ===== src/Index/Lexicon.antt =====
-- crates/montre-index/src/lexicon.rs: `InMemoryLexicon`, the numbers of the terms of each layer.
pub mod Layers
pub mod RoundTrip
pub mod Growth
pub mod Merge
use montre.Prelude.{ℕ, Option, some, none, Text, List, [], ◌∷◌, ◌++◌, length, get_elem?}
use montre.Core.{as_u32}
use montre.Index.Corpus.{lookup}
use montre.Index.Maps.{or_default, remove_key, insert_key}

pub record Lexicon : Type 0 where
  pub to_id : List (Text × List (Text × ℕ))
  pub to_term : List (Text × List Text)

abbrev pub new : Lexicon
new = record { to_id = []; to_term = [] }

-- The identifier of the term, and the lexicon afterwards.
unfoldable pub add_term : Text → Text → Lexicon → ℕ × Lexicon
unfolding lookup remove_key
add_term layer term lex =
    let ids = or_default (lookup layer lex.to_id) in
    let terms = or_default (lookup layer lex.to_term) in
    elim (lookup term ids) [
      | some id ↦ (
        id,
        record {
          to_id = insert_key layer ids lex.to_id;
          to_term = insert_key layer terms lex.to_term;
        },
      )
      | none ↦
          let id = as_u32 (length terms) in
          (
            id,
            record {
              to_id = insert_key layer (insert_key term id ids) lex.to_id;
              to_term = insert_key layer (terms ++ term ∷ []) lex.to_term;
            },
          )
    ]

unfoldable pub add_terms : Text → List Text → Lexicon → Lexicon
unfolding add_term
add_terms layer [] lex = lex
add_terms layer (term ∷ terms) lex = add_terms layer terms (add_term layer term lex).1

unfoldable pub add_layers : List (Text × List Text) → Lexicon → Lexicon
unfolding add_terms
add_layers [] lex = lex
add_layers ((layer, terms) ∷ layers) lex = add_layers layers (add_terms layer terms lex)

-- `order` is the order in which the hash map iterates over the layers of the other lexicon.
unfoldable pub merge_from :
    (List (Text × List Text) → List (Text × List Text)) → Lexicon → Lexicon → Lexicon
unfolding add_layers
merge_from order other lex = add_layers (order other.to_term) lex

unfoldable pub term_to_id : Lexicon → Text → Text → Option ℕ
unfolding lookup
term_to_id lex layer term = elim (lookup layer lex.to_id) [
  | none ↦ none
  | some ids ↦ lookup term ids
]

unfoldable pub id_to_term : Lexicon → Text → ℕ → Option Text
unfolding lookup
id_to_term lex layer id = elim (lookup layer lex.to_term) [
  | none ↦ none
  | some terms ↦ get_elem? terms id
]

unfoldable pub term_count : Lexicon → Text → ℕ
unfolding lookup
term_count lex layer = elim (lookup layer lex.to_term) [ none ↦ 0 | some terms ↦ length terms ]
