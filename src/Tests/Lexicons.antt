-- ===== src/Tests/Lexicons.antt =====
-- Small lexicons, and the theorems about them.
use mathlib.Core.List.Permᴰ
use montre.Prelude.{
  ◌≡◌, ◌↔◌, ◌⊎◌, refl, ap, subst, arith, inl, inr, ◌+◌, ◌≤◌, Text, codes, text_eq, [], ◌∷◌,
}
use montre.Index.Corpus.{lookup}
use montre.Index.Lexicon.{Lexicon, new, add_term, merge_from, term_to_id, id_to_term, term_count}
use montre.Index.Lexicon.Layers.{IsLexicon}
use montre.Index.Lexicon.RoundTrip.{Added, add_term-Added}
use montre.Index.Lexicon.Growth.{Known, Extends}
use montre.Index.Lexicon.Merge.{HasKeysOnce, total, merge_from-Known}

abbrev with_cat : Lexicon
with_cat = record {
  to_id = (codes "word", (codes "cat", 0) ∷ []) ∷ [];
  to_term = (codes "word", codes "cat" ∷ []) ∷ [];
}

abbrev with_dog : Lexicon
with_dog = record {
  to_id = (codes "word", (codes "dog", 0) ∷ []) ∷ [];
  to_term = (codes "word", codes "dog" ∷ []) ∷ [];
}

abbrev with_both : Lexicon
with_both = record {
  to_id = (codes "word", (codes "dog", 1) ∷ (codes "cat", 0) ∷ []) ∷ [];
  to_term = (codes "word", codes "cat" ∷ codes "dog" ∷ []) ∷ [];
}

new-IsLexicon : IsLexicon new
unfolding term_to_id id_to_term lookup
new-IsLexicon layer t i = (λ e. cc, λ e. cc)

new_count : (layer : Text) → term_count new layer ≡ 0
unfolding term_count lookup
new_count layer = refl

adds_cat : add_term (codes "word") (codes "cat") new ≡ (0, with_cat)
unfolding add_term text_eq
adds_cat = refl

adds_dog : add_term (codes "word") (codes "dog") new ≡ (0, with_dog)
unfolding add_term text_eq
adds_dog = refl

adds_again : add_term (codes "word") (codes "cat") with_cat ≡ (0, with_cat)
unfolding add_term text_eq
adds_again = refl

adds_both : add_term (codes "word") (codes "dog") with_cat ≡ (1, with_both)
unfolding add_term text_eq
adds_both = refl

merges : merge_from (λ layers. layers) with_dog with_cat ≡ with_both
unfolding merge_from text_eq
merges = refl

cat-Added : Added new (codes "word") (codes "cat") (0, with_cat)
cat-Added = subst (Added new (codes "word") (codes "cat")) adds_cat (
    add_term-Added new (codes "word") (codes "cat") new-IsLexicon
      (omega (arith, new_count (codes "word"))))

dog-Added : Added new (codes "word") (codes "dog") (0, with_dog)
dog-Added = subst (Added new (codes "word") (codes "dog")) adds_dog (
    add_term-Added new (codes "word") (codes "dog") new-IsLexicon
      (omega (arith, new_count (codes "word"))))

room : (layer : Text) → term_count with_cat layer + total with_dog.to_term ≤ 4294967296
room layer = omega (arith, cat-Added.3 layer, new_count layer)

dog_once : HasKeysOnce with_dog.to_term
unfolding lookup text_eq
dog_once layer terms (inl e) = rw (ap (λ x. x.0) e, ap (λ x. x.1) e) refl
dog_once layer terms (inr m) = absurd m

add_term-Added_example :
    Added with_cat (codes "word") (codes "dog") (add_term (codes "word") (codes "dog") with_cat)
add_term-Added_example =
    add_term-Added with_cat (codes "word") (codes "dog") cat-Added.0
      (omega (arith, room (codes "word")))

merge_from-Known_example :
    let after = merge_from (λ layers. layers) with_dog with_cat in
    IsLexicon after
    × Extends with_cat after
    × ((layer t : Text) → Known after layer t ↔ (Known with_cat layer t ⊎ Known with_dog layer t))
merge_from-Known_example =
    merge_from-Known (λ layers. layers) with_dog with_cat (Permᴰ.refl with_dog.to_term) cat-Added.0
      dog-Added.0 dog_once room
