-- ===== src/Query/Executor/Count/Combine.antt =====
-- The bitmap that collects the positions of the values that match an expression.
use montre.Prelude.{
  ℕ, ◌≡◌, ap, ◌∙◌, ◌↔◌, ◌⊎◌, inl, inr, arith, Bool, Bool-cases, Option-cases, some, none, Text,
  List, [], ◌∷◌, ◌∈◌, length, mem-append, sort_dedup, sort_dedup-IsAscending, mem-sort_dedup,
}
use montre.Index.{Crates}
use montre.Index.Corpus.{Corpus, inverted_get}
use montre.Query.Plan.{}
use montre.Query.Sequence.Hits.{}
use montre.Query.Executor.{posting, regex_positions}
use montre.Query.Executor.Count.{posting_count, add_posting, combine}
use montre.Query.Executor.Count.Lengths.{Above-ext}

module _ (x : Crates) (corpus : Corpus x.Bitmap) where
  pub posting_count-length :
      (layer value : Text)
      → posting_count x corpus layer value ≡ length (posting x corpus layer value)
  unfolding posting_count posting
  posting_count-length layer value = elim (Option-cases (inverted_get corpus layer value)) [
    | inl e ↦ ground arith
    | inr (b, e) ↦ ground (arith, x.len-iter b)
  ]

  posting-none :
      (layer value : Text)
      → inverted_get corpus layer value ≡ none
      → posting x corpus layer value ≡ []
  unfolding posting
  posting-none layer value e = ground arith

  posting-some :
      (layer value : Text) (b : x.Bitmap)
      → inverted_get corpus layer value ≡ some b
      → posting x corpus layer value ≡ x.iter b
  unfolding posting
  posting-some layer value b e = ground arith

  add_posting-none :
      (layer value : Text) (combined : x.Bitmap)
      → inverted_get corpus layer value ≡ none
      → add_posting x corpus layer value combined ≡ combined
  unfolding add_posting
  add_posting-none layer value combined e = ground arith

  add_posting-some :
      (layer value : Text) (combined b : x.Bitmap)
      → inverted_get corpus layer value ≡ some b
      → add_posting x corpus layer value combined ≡ x.union combined b
  unfolding add_posting
  add_posting-some layer value combined b e = ground arith

  mem-add_posting :
      (layer value : Text) (combined : x.Bitmap) (p : ℕ)
      → (p ∈ x.iter (add_posting x corpus layer value combined))
        ↔ ((p ∈ x.iter combined) ⊎ (p ∈ posting x corpus layer value))
  mem-add_posting layer value combined p = elim (Option-cases (inverted_get corpus layer value)) [
    | inl e ↦
        rw (add_posting-none layer value combined e, posting-none layer value e)
          (λ m. inl m, λ m. elim m [ inl k ↦ k | inr k ↦ absurd k ])
    | inr (b, e) ↦
        rw (add_posting-some layer value combined b e, posting-some layer value b e)
          (x.iter-union combined b p)
  ]

  -- The positions of a bitmap after those of the values that match are added.
  mem-combine :
      (matches : Text → Bool) (layer : Text) (vs : List Text) (combined : x.Bitmap) (p : ℕ)
      → (p ∈ x.iter (combine x corpus matches layer vs combined))
        ↔ ((p ∈ x.iter combined) ⊎ (p ∈ regex_positions x corpus (λ ps. ps) matches layer vs))
  unfolding combine regex_positions
  mem-combine matches layer [] combined p = ground arith
  mem-combine matches layer (v ∷ vs) combined p = elim (Bool-cases (matches v)) [
    | inr f ↦ rw f (mem-combine matches layer vs combined p)
    | inl t ↦ rw t (
        ground (
          arith,
          mem-combine matches layer vs (add_posting x corpus layer v combined) p,
          mem-add_posting layer v combined p,
          mem-append p (posting x corpus layer v)
              (regex_positions x corpus (λ ps. ps) matches layer vs),
        ))
  ]

  pub regex-length :
      (matches : Text → Bool) (layer : Text) (vs : List Text)
      → x.len (combine x corpus matches layer vs x.empty)
        ≡ length (sort_dedup (regex_positions x corpus (λ ps. ps) matches layer vs))
  regex-length matches layer vs =
      let combined = combine x corpus matches layer vs x.empty in
      let found = regex_positions x corpus (λ ps. ps) matches layer vs in
      let same : x.iter combined ≡ sort_dedup found =
        Above-ext 0 0 (x.iter combined) (sort_dedup found) (x.iter-IsAscending combined)
          (sort_dedup-IsAscending found)
          (λ p. ground (
            arith,
            mem-combine matches layer vs x.empty p,
            mem-sort_dedup p found,
            x.iter-empty,
          )) in
      x.len-iter combined ∙ ap (λ (ps : List ℕ). length ps) same
