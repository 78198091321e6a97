-- ===== src/Index/Lexicon/Layers.antt =====
-- crates/montre-index/src/lexicon.rs: the layers of a lexicon, and what replaces one.
use montre.Prelude.{
  ◌≡◌, ◌≢◌, ◌↔◌, ◌⊎◌, refl, sym, ap, ◌∙◌, inl, inr, arith, ℕ, zero, suc, some, none, Option-cases,
  Bool-cases, Text, text_eq, text_eq_iff, List, [], ◌∷◌, ◌++◌, length, get_elem?,
}
use montre.Index.Corpus.{lookup}
use montre.Index.Maps.{
  or_default, insert_key, lookup-insert_key, lookup-insert_key_other, lookup-insert_key_iff,
}
use montre.Index.Lexicon.{Lexicon, term_to_id, id_to_term, term_count}

-- The identifiers of a layer are the places of its terms.
abbrev pub Matches : List (Text × ℕ) → List Text → Type 0
Matches ids terms = (t : Text) (i : ℕ) → (lookup t ids ≡ some i) ↔ (get_elem? terms i ≡ some t)

pub get_elem?-append :
    {A : Type 0} (xs : List A) (x y : A) (i : ℕ)
    → (get_elem? (xs ++ x ∷ []) i ≡ some y)
      ↔ ((get_elem? xs i ≡ some y) ⊎ ((i ≡ length xs) × (x ≡ y)))
get_elem?-append [] x y zero = ground arith
get_elem?-append [] x y (suc i) = ground arith
get_elem?-append (z ∷ xs) x y zero = ground arith
get_elem?-append (z ∷ xs) x y (suc i) = ground (arith, get_elem?-append xs x y i)

pub Matches-insert :
    (ids : List (Text × ℕ)) (terms : List Text) (term : Text)
    → Matches ids terms
    → lookup term ids ≡ none
    → Matches (insert_key term (length terms) ids) (terms ++ term ∷ [])
Matches-insert ids terms term h free t i =
    let (a, b) = lookup-insert_key_iff t term (length terms) i ids in
    let (c, d) = get_elem?-append terms term t i in
    (
      λ e. elim (a e) [ inl (f, g) ↦ d (inr (sym g, sym f)) | inr (_, g) ↦ d (inl ((h t i).0 g)) ],
      λ e. elim (c e) [
        | inl f ↦ b (inr (λ g. cc (g, free, (h t i).1 f), (h t i).1 f))
        | inr (f, g) ↦ b (inl (sym g, sym f))
      ],
    )

abbrev pub ids : Lexicon → Text → List (Text × ℕ)
ids lex layer = or_default (lookup layer lex.to_id)

abbrev pub terms : Lexicon → Text → List Text
terms lex layer = or_default (lookup layer lex.to_term)

pub term_to_id-ids :
    (lex : Lexicon) (layer t : Text) → term_to_id lex layer t ≡ lookup t (ids lex layer)
unfolding term_to_id
term_to_id-ids lex layer t = elim (Option-cases (lookup layer lex.to_id)) [
  | inl e ↦ rw (term_to_id, e, lookup) refl
  | inr (m, e) ↦ rw (term_to_id, e) refl
]

pub id_to_term-terms :
    (lex : Lexicon) (layer : Text) (i : ℕ) → id_to_term lex layer i ≡ get_elem? (terms lex layer) i
unfolding id_to_term
id_to_term-terms lex layer i = elim (Option-cases (lookup layer lex.to_term)) [
  | inl e ↦ rw (id_to_term, e) refl
  | inr (m, e) ↦ rw (id_to_term, e) refl
]

pub term_count-terms :
    (lex : Lexicon) (layer : Text) → term_count lex layer ≡ length (terms lex layer)
unfolding term_count
term_count-terms lex layer = elim (Option-cases (lookup layer lex.to_term)) [
  | inl e ↦ rw (term_count, e) refl
  | inr (m, e) ↦ rw (term_count, e) refl
]

-- The identifiers and the terms of each layer determine each other.
abbrev pub IsLexicon : Lexicon → Type 0
IsLexicon lex =
    (layer t : Text) (i : ℕ) → (term_to_id lex layer t ≡ some i) ↔ (id_to_term lex layer i ≡ some t)

pub IsLexicon-Matches :
    (lex : Lexicon) → IsLexicon lex → (layer : Text) → Matches (ids lex layer) (terms lex layer)
IsLexicon-Matches lex h layer t i =
    let (a, b) = h layer t i in
    let e = term_to_id-ids lex layer t in
    let f = id_to_term-terms lex layer i in (λ g. sym f ∙ a (e ∙ g), λ g. sym e ∙ b (f ∙ g))

pub Matches-IsLexicon :
    (lex : Lexicon) → ((layer : Text) → Matches (ids lex layer) (terms lex layer)) → IsLexicon lex
Matches-IsLexicon lex h layer t i =
    let (a, b) = h layer t i in
    let e = term_to_id-ids lex layer t in
    let f = id_to_term-terms lex layer i in (λ g. f ∙ a (sym e ∙ g), λ g. e ∙ b (sym f ∙ g))

-- The lexicon with the identifiers and the terms of one layer replaced.
abbrev pub with_layer : Text → List (Text × ℕ) → List Text → Lexicon → Lexicon
with_layer layer new_ids new_terms lex = record {
  to_id = insert_key layer new_ids lex.to_id;
  to_term = insert_key layer new_terms lex.to_term;
}

-- A layer of it is the new one or an old one.
pub with_layer-cases :
    (layer : Text) (new_ids : List (Text × ℕ)) (new_terms : List Text) (lex : Lexicon)
    (other : Text)
    → let after = with_layer layer new_ids new_terms lex in
      ((other ≡ layer) × (ids after other ≡ new_ids) × (terms after other ≡ new_terms))
      ⊎ ((other ≢ layer)
          × (ids after other ≡ ids lex other)
          × (terms after other ≡ terms lex other))
with_layer-cases layer new_ids new_terms lex other = elim (Bool-cases (text_eq layer other)) [
  | inl e ↦
      let same = sym ((text_eq_iff layer other).0 e) in
      inl (
        same,
        rw (same, lookup-insert_key layer new_ids lex.to_id) refl,
        rw (same, lookup-insert_key layer new_terms lex.to_term) refl,
      )
  | inr e ↦
      let apart : other ≢ layer = λ f. cc (e, (text_eq_iff layer other).1 (sym f)) in
      inr (
        apart,
        ap or_default (lookup-insert_key_other other layer new_ids lex.to_id apart),
        ap or_default (lookup-insert_key_other other layer new_terms lex.to_term apart),
      )
]
