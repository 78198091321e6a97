-- ===== src/Index/Lexicon/Growth.antt =====
-- crates/montre-index/src/lexicon.rs: lexicons that grow by new terms.
use montre.Prelude.{◌≡◌, ◌↔◌, ◌⊎◌, refl, inl, inr, arith, ℕ, ◌+◌, ◌≤◌, ◌<◌, some, Text, List, ◌∈◌}
use montre.Index.Lexicon.{Lexicon, add_term, term_to_id, term_count}
use montre.Index.Lexicon.Layers.{IsLexicon}
use montre.Index.Lexicon.RoundTrip.{add_term-Added}

-- The term has an identifier in the layer.
abbrev pub Known : Lexicon → Text → Text → Type 0
Known lex layer t = (i : ℕ) × (term_to_id lex layer t ≡ some i)

-- What stands before keeps its identifiers.
abbrev pub Extends : Lexicon → Lexicon → Type 0
Extends before after =
    (layer t : Text) (i : ℕ)
    → term_to_id before layer t ≡ some i
    → term_to_id after layer t ≡ some i

-- The lexicon afterwards is one, extends the one before and knows the new terms besides.
abbrev pub Grown : Lexicon → Lexicon → (Text → Text → Type 0) → ℕ → Type 0
Grown before after New n =
    IsLexicon after
    × Extends before after
    × ((layer t : Text) → Known after layer t ↔ (Known before layer t ⊎ New layer t))
    × ((layer : Text) → term_count after layer ≤ term_count before layer + n)

abbrev pub One : Text → Text → Text → Text → Type 0
One layer term other t = (other ≡ layer) × (t ≡ term)

abbrev pub Listed : Text → List Text → Text → Text → Type 0
Listed layer terms other t = (other ≡ layer) × (t ∈ terms)

abbrev pub Among : List (Text × List Text) → Text → Text → Type 0
Among layers other t = (terms : List Text) × ((other, terms) ∈ layers) × (t ∈ terms)

pub add_term-Grown :
    (layer term : Text) (lex : Lexicon)
    → IsLexicon lex
    → term_count lex layer < 4294967296
    → Grown lex (add_term layer term lex).1 (One layer term) 1
add_term-Grown layer term lex h b =
    let (valid, named, entries, counts) = add_term-Added lex layer term h b in
    (
      valid,
      λ other t i e. (entries other t i).1 (inl e),
      λ other t. (
        λ k. elim ((entries other t k.0).0 k.1) [
          | inl e ↦ inl (k.0, e)
          | inr (e, f, g) ↦ inr (e, f)
        ],
        λ k. elim k [
          | inl (i, e) ↦ (i, (entries other t i).1 (inl e))
          | inr (e, f) ↦ (
            (add_term layer term lex).0,
            (entries other t (add_term layer term lex).0).1 (inr (e, f, refl)),
          )
        ],
      ),
      λ other. omega (arith, counts other),
    )

-- Two growths after each other.
pub Grown-trans :
    (a b c : Lexicon) (New Newer : Text → Text → Type 0) (m n : ℕ)
    → Grown a b New m
    → Grown b c Newer n
    → Grown a c (λ layer t. New layer t ⊎ Newer layer t) (m + n)
Grown-trans a b c New Newer m n (valid, kept, known, counts) (valid', kept', known', counts') = (
  valid',
  λ layer t i e. kept' layer t i (kept layer t i e),
  λ layer t.
      let (f, g) = known layer t in
      let (f', g') = known' layer t in
      (
        λ k. elim (f' k) [
          | inl x ↦ elim (f x) [ inl y ↦ inl y | inr y ↦ inr (inl y) ]
          | inr x ↦ inr (inr x)
        ],
        λ k. elim k [
          | inl x ↦ g' (inl (g (inl x)))
          | inr (inl x) ↦ g' (inl (g (inr x)))
          | inr (inr x) ↦ g' (inr x)
        ],
      ),
  λ layer. omega (arith, counts layer, counts' layer),
)

-- The same growth, its new terms described in another way.
pub Grown-as :
    (a b : Lexicon) (New Newer : Text → Text → Type 0) (m n : ℕ)
    → m ≤ n
    → ((layer t : Text) → New layer t ↔ Newer layer t)
    → Grown a b New m
    → Grown a b Newer n
Grown-as a b New Newer m n le h (valid, kept, known, counts) = (
  valid,
  kept,
  λ layer t.
      let (f, g) = known layer t in
      let (to, from) = h layer t in
      (
        λ k. elim (f k) [ inl x ↦ inl x | inr x ↦ inr (to x) ],
        λ k. elim k [ inl x ↦ g (inl x) | inr x ↦ g (inr (from x)) ],
      ),
  λ layer. omega (arith, le, counts layer),
)

pub Grown-none :
    (a : Lexicon) (New : Text → Text → Type 0)
    → IsLexicon a
    → ((layer t : Text) → ¬ New layer t)
    → Grown a a New 0
Grown-none a New h none_new = (
  h,
  λ layer t i e. e,
  λ layer t. (inl, λ k. elim k [ inl x ↦ x | inr x ↦ absurd (none_new layer t x) ]),
  λ layer. omega arith,
)
