-- ===== src/Index/Lexicon/Merge.antt =====
-- crates/montre-index/src/lexicon.rs: a merge of two lexicons holds the terms of both.
use mathlib.Core.List.{Permᴰ}
use mathlib.Core.List.Permᴰ.{symm}
use montre.Prelude.{
  ◌≡◌, ◌↔◌, ◌⊎◌, refl, ap, subst, ◌∙◌, inl, inr, arith, ℕ, suc, ◌+◌, ◌≤◌, some, Option-cases, Text,
  List, [], ◌∷◌, ◌∈◌, length, get_elem?-mem, mem-get_elem?, mem-perm,
}
use montre.Index.Corpus.{lookup}
use montre.Index.Maps.{lookup-mem}
use montre.Index.Lexicon.{
  Lexicon, add_term, add_terms, add_layers, merge_from, id_to_term, term_count,
}
use montre.Index.Lexicon.Layers.{IsLexicon}
use montre.Index.Lexicon.Growth.{
  Known, Extends, Grown, One, Listed, Among, add_term-Grown, Grown-trans, Grown-as, Grown-none,
}

add_terms-Grown :
    (layer : Text) (terms : List Text) (lex : Lexicon)
    → IsLexicon lex
    → term_count lex layer + length terms ≤ 4294967296
    → Grown lex (add_terms layer terms lex) (Listed layer terms) (length terms)
unfolding add_terms
add_terms-Grown layer [] lex h b = Grown-none lex (Listed layer []) h (λ other t x. x.1)
add_terms-Grown layer (term ∷ terms) lex h b =
    let next = (add_term layer term lex).1 in
    let first = add_term-Grown layer term lex h (omega (arith, b)) in
    let rest = add_terms-Grown layer terms next first.0 (omega (arith, b, first.3 layer)) in
    Grown-as lex (add_terms layer terms next) _ (Listed layer (term ∷ terms)) (1 + length terms)
      (suc (length terms)) (omega arith)
      (λ other t. (
        λ k. elim k [ inl (e, f) ↦ (e, inl f) | inr (e, f) ↦ (e, inr f) ],
        λ k. elim k.1 [ inl f ↦ inl (k.0, f) | inr f ↦ inr (k.0, f) ],
      ))
      (Grown-trans lex next (add_terms layer terms next) (One layer term) (Listed layer terms) 1
        (length terms) first rest)

-- The number of the terms of all layers.
abbrev pub total : List (Text × List Text) → ℕ
total [] = 0
total ((layer, terms) ∷ layers) = length terms + total layers

total-perm : {ms ns : List (Text × List Text)} → Permᴰ ms ns → total ms ≡ total ns
total-perm Permᴰ.nil = refl
total-perm (Permᴰ.cons e p) = omega (arith, ap (λ x. length x.1) e, total-perm p)
total-perm (Permᴰ.swap d e) = omega (arith, ap (λ x. length x.1) d, ap (λ x. length x.1) e)
total-perm (Permᴰ.trans p q) = total-perm p ∙ total-perm q

add_layers-Grown :
    (layers : List (Text × List Text)) (lex : Lexicon)
    → IsLexicon lex
    → ((layer : Text) → term_count lex layer + total layers ≤ 4294967296)
    → Grown lex (add_layers layers lex) (Among layers) (total layers)
unfolding add_layers
add_layers-Grown [] lex h b = Grown-none lex (Among []) h (λ other t x. x.1)
add_layers-Grown ((layer, terms) ∷ layers) lex h b =
    let next = add_terms layer terms lex in
    let first = add_terms-Grown layer terms lex h (omega (arith, b layer)) in
    let rest =
      add_layers-Grown layers next first.0 (λ other. omega (arith, b other, first.3 other)) in
    Grown-as lex (add_layers layers next) _ (Among ((layer, terms) ∷ layers))
      (length terms + total layers) (length terms + total layers) (omega arith)
      (λ other t. (
        λ k. elim k [ inl (e, f) ↦ (terms, inl (rw e refl), f) | inr (ts, f, g) ↦ (ts, inr f, g) ],
        λ k. elim k.1 [
          | inl f ↦ inl (ap (λ x. x.0) f, subst (λ ts. t ∈ ts) (ap (λ x. x.1) f) k.2)
          | inr f ↦ inr (k.0, f, k.2)
        ],
      ))
      (Grown-trans lex next (add_layers layers next) (Listed layer terms) (Among layers)
        (length terms) (total layers) first rest)

-- No layer stands twice.
abbrev pub HasKeysOnce : List (Text × List Text) → Type 0
HasKeysOnce layers =
    (layer : Text) (terms : List Text) → (layer, terms) ∈ layers → lookup layer layers ≡ some terms

Known-Among :
    (lex : Lexicon)
    → IsLexicon lex
    → HasKeysOnce lex.to_term
    → (layer t : Text) → Among lex.to_term layer t ↔ Known lex layer t
unfolding id_to_term
Known-Among lex h once layer t = (
  λ (terms, m, k).
      let (i, e) = mem-get_elem? terms t k in
      (i, (h layer t i).1 (rw (id_to_term, once layer terms m) e)),
  λ (i, e).
      let named = (h layer t i).0 e in
      elim (Option-cases (lookup layer lex.to_term)) [
        | inl f ↦ let none_named = rw (id_to_term, f) at named in cc
        | inr (terms, f) ↦ (
          terms,
          lookup-mem layer terms lex.to_term f,
          get_elem?-mem terms i (rw (id_to_term, f) at named),
        )
      ],
)

-- Where the identifiers and the terms of each of two lexicons determine each other, no layer of the
-- other stands twice, and each layer has room for all terms of the other under 2^32, merge_from, in
-- whatever order the hash map iterates, keeps the identifiers of the first lexicon, knows exactly
-- the terms of both, and its identifiers and terms determine each other.
pub merge_from-Known :
    (order : List (Text × List Text) → List (Text × List Text)) (other lex : Lexicon)
    → Permᴰ (order other.to_term) other.to_term
    → IsLexicon lex
    → IsLexicon other
    → HasKeysOnce other.to_term
    → ((layer : Text) → term_count lex layer + total other.to_term ≤ 4294967296)
    → let after = merge_from order other lex in
      IsLexicon after
      × Extends lex after
      × ((layer t : Text) → Known after layer t ↔ (Known lex layer t ⊎ Known other layer t))
unfolding merge_from
merge_from-Known order other lex perm h h' once room =
    let layers = order other.to_term in
    let grown =
      add_layers-Grown layers lex h (λ layer. omega (arith, room layer, total-perm perm)) in
    let (valid, kept, known, counts) =
      Grown-as lex (add_layers layers lex) (Among layers) (Known other) (total layers)
        (total layers) (omega arith)
        (λ layer t.
          let (to, from) = Known-Among other h' once layer t in
          (
            λ (terms, m, k). to (terms, mem-perm (layer, terms) perm m, k),
            λ k. let (terms, m, j) = from k in (terms, mem-perm (layer, terms) (symm perm) m, j),
          ))
        grown in
    (valid, kept, known)
