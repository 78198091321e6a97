-- ===== src/Query/Executor/Clip.antt =====
-- The part of a posting list in a range, and of the postings that match an expression.
use montre.Prelude.{
  ℕ, ◌+◌, ◌≤◌, ◌<◌, ◌↔◌, inl, inr, arith, Bool-cases, Option-cases, Bool, Text, List, [], ◌∷◌, ◌∈◌,
  mem-append, IsAscending, Above, Above-mem, Above-mono,
}
use montre.Index.{Crates}
use montre.Index.Corpus.{Corpus, inverted_get}
use montre.Query.Plan.{scan_literal}
use montre.Query.Filter.{skip_below, take_below}
use montre.Query.Executor.{posting, regex_positions, clip, execute_node, positions_in_range}
use montre.Query.Executor.Sets.{starts-hits_at}
use montre.Query.Executor.Agree.{Restricts, Agrees}

mem-take_below :
    (n b p : ℕ) (ps : List ℕ) → Above n ps → (p ∈ take_below b ps) ↔ ((p < b) × (p ∈ ps))
unfolding take_below
mem-take_below n b p [] a = ground arith
mem-take_below n b p (q ∷ ps) a =
    ground (arith, mem-take_below (q + 1) b p ps, Above-mem (q + 1) p ps)

mem-skip_below :
    (n a p : ℕ) (ps : List ℕ) → Above n ps → (p ∈ skip_below a ps) ↔ ((a ≤ p) × (p ∈ ps))
unfolding skip_below
mem-skip_below n a p [] s = ground arith
mem-skip_below n a p (q ∷ ps) s =
    ground (arith, mem-skip_below (q + 1) a p ps, Above-mem (q + 1) p ps)

skip_below-Above : (n a : ℕ) (ps : List ℕ) → Above n ps → Above n (skip_below a ps)
unfolding skip_below
skip_below-Above n a [] s = tt
skip_below-Above n a (q ∷ ps) s = ground (arith, skip_below-Above n a ps, Above-mono n (q + 1) ps)

pub mem-clip :
    (a b p : ℕ) (ps : List ℕ) → IsAscending ps → (p ∈ clip a b ps) ↔ ((a ≤ p) × (p < b) × (p ∈ ps))
mem-clip a b p ps s = ground (
  arith,
  mem-take_below 0 b p (skip_below a ps) (skip_below-Above 0 a ps s),
  mem-skip_below 0 a p ps s,
)

module _ (x : Crates) (corpus : Corpus x.Bitmap) (a b : ℕ) where
  pub posting-IsAscending : (layer value : Text) → IsAscending (posting x corpus layer value)
  unfolding posting
  posting-IsAscending layer value = elim (Option-cases (inverted_get corpus layer value)) [
    | inl e ↦ rw (e, posting) tt
    | inr (bitmap, e) ↦ rw (e, posting) (x.iter-IsAscending bitmap)
  ]

  pub regex_positions-clip :
      (matches : Text → Bool) (layer : Text) (vs : List Text)
      → Restricts a b
          (regex_positions x corpus (λ ps. ps) matches layer vs)
          (regex_positions x corpus (clip a b) matches layer vs)
  unfolding regex_positions
  regex_positions-clip matches layer [] p = ground arith
  regex_positions-clip matches layer (v ∷ vs) p =
      let here = posting x corpus layer v in
      let rest = regex_positions-clip matches layer vs p in
      elim (Bool-cases (matches v)) [
        | inl e ↦ rw e (
            ground (
              arith,
              mem-append p here (regex_positions x corpus (λ ps. ps) matches layer vs),
              mem-append p (clip a b here) (regex_positions x corpus (clip a b) matches layer vs),
              mem-clip a b p here (posting-IsAscending layer v),
              rest,
            ))
        | inr e ↦ rw e rest
      ]

  pub Agrees-literal :
      (layer value : Text)
      → Agrees a b
          (execute_node x corpus (scan_literal layer value))
          (positions_in_range x corpus (scan_literal layer value) a b)
  unfolding execute_node
  Agrees-literal layer value p =
      let ps = posting x corpus layer value in
      rw (starts-hits_at ps) (mem-clip a b p ps (posting-IsAscending layer value))
