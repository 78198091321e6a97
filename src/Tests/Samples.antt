-- ===== src/Tests/Samples.antt =====
-- Crates that are concrete functions, and a corpus of three sentences in two documents.
use mathlib.Core.List.Permᴰ
use montre.Prelude.{
  ℕ, ◌≡◌, ◌⊎◌, ◌↔◌, refl, arith, ◌∈◌, ◌++◌, length, codes, text_eq, List, [], ◌∷◌, some, none,
  if◌then◌else◌, sort_dedup, sort_dedup-IsAscending, mem-sort_dedup, mem-append,
}
use montre.Core.{Span, span}
use montre.Index.{Crates}
use montre.Index.Corpus.{Corpus, ComponentMeta, inverted_get, lookup}
use montre.Query.Executor.{posting}
use montre.Query.Executor.Meets.{IsIndexed}

pub no_positions : sort_dedup [] ≡ []
unfolding sort_dedup
no_positions = refl

pub mem-both :
    (a b : List ℕ) (p : ℕ) → (p ∈ sort_dedup (a ++ b)) ↔ ((p ∈ sort_dedup a) ⊎ (p ∈ sort_dedup b))
mem-both a b p =
    ground
      (arith, mem-sort_dedup p (a ++ b), mem-sort_dedup p a, mem-sort_dedup p b, mem-append p a b)

pub mem-one_more :
    (q : ℕ) (b : List ℕ) (p : ℕ) → (p ∈ sort_dedup (q ∷ b)) ↔ ((p ≡ q) ⊎ (p ∈ sort_dedup b))
mem-one_more q b p = ground (arith, mem-sort_dedup p (q ∷ b), mem-sort_dedup p b)

abbrev pub crates : Crates
crates = record {
  Bitmap = List ℕ;
  empty = [];
  union = λ a b. a ++ b;
  insert = λ p b. p ∷ b;
  iter = sort_dedup;
  len = λ b. length (sort_dedup b);
  -- An expression is a word that matches itself; `(` does not compile.
  regex_new = λ pattern. if text_eq pattern (codes "(") then none else some (text_eq pattern);
  hash_order = λ A m. m;
  iter-IsAscending = sort_dedup-IsAscending;
  len-iter = λ b. refl;
  iter-empty = no_positions;
  iter-union = mem-both;
  iter-insert = mem-one_more;
  hash_order-perm = λ A m. Permᴰ.refl m;
}

-- the cat sees / a dog runs // the end
abbrev pub documents : List Span
documents = span 0 6 ∷ span 6 8 ∷ []

abbrev pub sentences : List Span
sentences = span 0 3 ∷ span 3 6 ∷ span 6 8 ∷ []

abbrev pub novel : ComponentMeta
novel = record {
  id = 0;
  name = codes "novel";
  language = codes "en";
  first_document = 0;
  past_document = 2;
}

abbrev pub corpus : Corpus (List ℕ)
corpus = record {
  token_count = 8;
  document_names = codes "one" ∷ codes "two" ∷ [];
  components = novel ∷ [];
  alignments = [];
  inverted =
      (
        codes "pos",
        (codes "DET", 0 ∷ 3 ∷ 6 ∷ [])
            ∷ (codes "NOUN", 1 ∷ 4 ∷ 7 ∷ [])
            ∷ (codes "VERB", 2 ∷ 5 ∷ [])
            ∷ [],
      )
      ∷ [];
  forward = λ position layer. none;
  span_index = (codes "document", documents) ∷ (codes "sentence", sentences) ∷ [];
  alignment_index = [];
}

pub corpus-IsIndexed : IsIndexed crates corpus
unfolding posting inverted_get lookup sort_dedup
corpus-IsIndexed layer value p m = ground arith
