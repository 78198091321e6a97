-- ===== src/Index/Lexicon/RoundTrip.antt =====
-- crates/montre-index/src/lexicon.rs: the numbers of a lexicon and its terms determine each other.
use montre.Prelude.{
  ◌≡◌, ◌↔◌, ◌⊎◌, refl, sym, ap, ◌∙◌, inl, inr, arith, ℕ, suc, ◌≤◌, ◌<◌, some, none, Option-cases,
  Text, List, [], ◌∷◌, ◌++◌, length, get_elem?, length-append,
}
use montre.Core.{as_u32}
use montre.Index.Corpus.{lookup}
use montre.Index.Maps.{insert_key, lookup-insert_key_iff}
use montre.Index.Lexicon.{Lexicon, add_term, term_to_id, id_to_term, term_count}
use montre.Index.Lexicon.Layers.{
  Matches, get_elem?-append, Matches-insert, ids, terms, term_to_id-ids, id_to_term-terms,
  term_count-terms, IsLexicon, IsLexicon-Matches, Matches-IsLexicon, with_layer, with_layer-cases,
}

-- What an addition does to a lexicon: it gives the term its identifier, and changes no other.
abbrev pub Added : Lexicon → Text → Text → ℕ × Lexicon → Type 0
Added before layer term (id, after) =
    IsLexicon after
    × (id_to_term after layer id ≡ some term)
    × ((other t : Text) (i : ℕ)
        → (term_to_id after other t ≡ some i)
          ↔ ((term_to_id before other t ≡ some i) ⊎ ((other ≡ layer) × (t ≡ term) × (i ≡ id))))
    × ((other : Text) → term_count after other ≤ suc (term_count before other))

-- The terms of a layer that is replaced, where the new identifiers and terms match.
module _ (lex : Lexicon) (layer term : Text) (id : ℕ) (new_ids : List (Text × ℕ))
    (new_terms : List Text) where
  with_layer-Added :
      IsLexicon lex
      → Matches new_ids new_terms
      → (get_elem? new_terms id ≡ some term)
      → ((t : Text) (i : ℕ)
          → (lookup t new_ids ≡ some i)
            ↔ ((lookup t (ids lex layer) ≡ some i) ⊎ ((t ≡ term) × (i ≡ id))))
      → length new_terms ≤ suc (length (terms lex layer))
      → Added lex layer term (id, with_layer layer new_ids new_terms lex)
  with_layer-Added h m g k b =
      let after = with_layer layer new_ids new_terms lex in
      (
        Matches-IsLexicon after (λ other.
            elim (with_layer-cases layer new_ids new_terms lex other) [
              | inl (e, f, l) ↦ rw (f, l) m
              | inr (e, f, l) ↦ rw (f, l) (IsLexicon-Matches lex h other)
            ]),
        elim (with_layer-cases layer new_ids new_terms lex layer) [
          | inl (e, f, l) ↦ id_to_term-terms after layer id ∙ ap (λ ts. get_elem? ts id) l ∙ g
          | inr (e, f, l) ↦ absurd (e refl)
        ],
        λ other t i. elim (with_layer-cases layer new_ids new_terms lex other) [
          | inl (e, f, l) ↦
              rw (term_to_id-ids after other t, f, e, term_to_id-ids lex layer t)
                (let (a, b) = k t i in
                  (
                    λ x. elim (a x) [ inl y ↦ inl y | inr (y, z) ↦ inr (refl, y, z) ],
                    λ x. elim x [ inl y ↦ b (inl y) | inr (_, y, z) ↦ b (inr (y, z)) ],
                  ))
          | inr (e, f, l) ↦
              rw (term_to_id-ids after other t, f, term_to_id-ids lex other t)
                (inl, λ x. elim x [ inl y ↦ y | inr (y, _, _) ↦ absurd (e y) ])
        ],
        λ other. elim (with_layer-cases layer new_ids new_terms lex other) [
          | inl (e, f, l) ↦ rw (term_count-terms after other, l, e, term_count-terms lex layer) b
          | inr (e, f, l) ↦
              rw (term_count-terms after other, l, term_count-terms lex other) (omega arith)
        ],
      )

-- A new entry adds itself and nothing else.
entry-insert :
    (term : Text) (id : ℕ) (m : List (Text × ℕ))
    → lookup term m ≡ none
    → (t : Text) (i : ℕ)
    → (lookup t (insert_key term id m) ≡ some i) ↔ ((lookup t m ≡ some i) ⊎ ((t ≡ term) × (i ≡ id)))
entry-insert term id m free t i =
    let (a, b) = lookup-insert_key_iff t term id i m in
    (
      λ e. elim (a e) [ inl (f, g) ↦ inr (f, sym g) | inr (_, g) ↦ inl g ],
      λ e. elim e [ inl g ↦ b (inr (λ f. cc (f, free, g), g)) | inr (f, g) ↦ b (inl (f, sym g)) ],
    )

-- In a lexicon in which the identifiers and the terms of each layer determine each other, and whose
-- layer has less than 2^32 terms, add_term keeps that; the identifier that it returns leads back to
-- the term, the other identifiers are those of before, and no layer gains more than one term.
pub add_term-Added :
    (lex : Lexicon) (layer term : Text)
    → IsLexicon lex
    → term_count lex layer < 4294967296
    → Added lex layer term (add_term layer term lex)
unfolding add_term
add_term-Added lex layer term h b =
    let m = IsLexicon-Matches lex h layer in
    elim (Option-cases (lookup term (ids lex layer))) [
      | inl e ↦
          let n = terms lex layer in
          let fits : as_u32 (length n) ≡ length n = omega (arith, b, term_count-terms lex layer) in
          rw (add_term, e, fits)
            (with_layer-Added lex layer term (length n) (insert_key term (length n) (ids lex layer))
              (n ++ term ∷ []) h (Matches-insert (ids lex layer) n term m e)
              ((get_elem?-append n term term (length n)).1 (inr (refl, refl)))
              (entry-insert term (length n) (ids lex layer) e)
              (omega (arith, length-append n (term ∷ []))))
      | inr (id, e) ↦
          rw (add_term, e)
            (with_layer-Added lex layer term id (ids lex layer) (terms lex layer) h m
              ((m term id).0 e) (λ t i. (inl, λ x. elim x [ inl y ↦ y | inr (y, z) ↦ rw (y, z) e ]))
              (omega arith))
    ]
