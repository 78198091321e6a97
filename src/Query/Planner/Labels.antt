-- ===== src/Query/Planner/Labels.antt =====
-- Which queries are planned: those whose constraints name only labels that are declared.
use montre.Prelude.{
  ◌≡◌, refl, sym, ◌⊎◌, inl, inr, Bool-cases, Text, text_eq, text_eq_iff, List, [], ◌∷◌, ◌∈◌, any,
  any-mem, mem-any, subst,
}
use montre.Query.{Result, ok, err, unknown_label, ◌>>=◌, ◌>>◌}
use montre.Query.Ast.{
  GlobalConstraint, Query, Queries, token, sequence, repetition, alternation, within, capture,
  within_component, within_document, project, constrained, no_queries, and_query,
}
use montre.Query.Planner.{check_labels}

-- The constraint names the label.
abbrev pub Names : Text → GlobalConstraint → Type 0
Names label (GlobalConstraint.eq l r) = (label ≡ l.label) ⊎ (label ≡ r.label)
Names label (GlobalConstraint.ne l r) = (label ≡ l.label) ⊎ (label ≡ r.label)
Names label (GlobalConstraint.distance l r op v) = (label ≡ l) ⊎ (label ≡ r)

-- Some of the constraints names the label.
abbrev pub SomeNames : Text → List GlobalConstraint → Type 0
SomeNames label cs = (c : GlobalConstraint) × (c ∈ cs) × Names label c

-- A capture in the query, at whatever depth, has the label.
abbrev mutual
  pub Declares : Text → Query → Type 0
  Declares label (token p) = ⊥
  Declares label (sequence parts) = SomeDeclares label parts
  Declares label (repetition inner min max) = Declares label inner
  Declares label (alternation alts) = SomeDeclares label alts
  Declares label (within inner l) = Declares label inner
  Declares label (capture name inner) = (label ≡ name) ⊎ Declares label inner
  Declares label (within_component inner cs) = Declares label inner
  Declares label (within_document inner ds) = Declares label inner
  Declares label (project inner a) = Declares label inner
  Declares label (constrained inner cs) = Declares label inner

  pub SomeDeclares : Text → Queries → Type 0
  SomeDeclares label no_queries = ⊥
  SomeDeclares label (and_query q qs) = Declares label q ⊎ SomeDeclares label qs

-- Every constraint names labels that the query below it declares.
abbrev mutual
  pub WellLabelled : Query → Type 0
  WellLabelled (token p) = Unit {0}
  WellLabelled (sequence parts) = AllWellLabelled parts
  WellLabelled (repetition inner min max) = WellLabelled inner
  WellLabelled (alternation alts) = AllWellLabelled alts
  WellLabelled (within inner l) = WellLabelled inner
  WellLabelled (capture name inner) = WellLabelled inner
  WellLabelled (within_component inner cs) = WellLabelled inner
  WellLabelled (within_document inner ds) = WellLabelled inner
  WellLabelled (project inner a) = WellLabelled inner
  WellLabelled (constrained inner cs) =
      ((label : Text) → SomeNames label cs → Declares label inner) × WellLabelled inner

  pub AllWellLabelled : Queries → Type 0
  AllWellLabelled no_queries = Unit {0}
  AllWellLabelled (and_query q qs) = WellLabelled q × AllWellLabelled qs

-- Some constraint names the label, and the query below it does not declare it.
abbrev mutual
  pub Undeclared : Text → Query → Type 0
  Undeclared label (token p) = ⊥
  Undeclared label (sequence parts) = SomeUndeclared label parts
  Undeclared label (repetition inner min max) = Undeclared label inner
  Undeclared label (alternation alts) = SomeUndeclared label alts
  Undeclared label (within inner l) = Undeclared label inner
  Undeclared label (capture name inner) = Undeclared label inner
  Undeclared label (within_component inner cs) = Undeclared label inner
  Undeclared label (within_document inner ds) = Undeclared label inner
  Undeclared label (project inner a) = Undeclared label inner
  Undeclared label (constrained inner cs) =
      SomeNames label cs × ¬ Declares label inner ⊎ Undeclared label inner

  pub SomeUndeclared : Text → Queries → Type 0
  SomeUndeclared label no_queries = ⊥
  SomeUndeclared label (and_query q qs) = Undeclared label q ⊎ SomeUndeclared label qs

-- A plan where the labels are declared, and the error on a label that is not.
abbrev pub Outcome {ℓ} : {A : Type ℓ} → Result A → Type 0 → (Text → Type 0) → Type ℓ
Outcome {A = A} r W U =
    ((a : A) × (r ≡ ok a) × W) ⊎ ((label : Text) × (r ≡ err (unknown_label label)) × U label)

module _ {A B : Type 0} where
  pub Outcome-map :
      (r : Result A) (f : A → B) (W : Type 0) (U : Text → Type 0)
      → Outcome r W U
      → Outcome (r >>= λ a. ok (f a)) W U
  Outcome-map r f W U (inl (a, e, w)) = inl (f a, rw e refl, w)
  Outcome-map r f W U (inr (label, e, u)) = inr (label, rw e refl, u)

  pub Outcome-both :
      (r : Result A) (q : Result B) {C : Type 0} (f : A → B → C) (V W : Type 0)
      (T U : Text → Type 0)
      → Outcome r V T
      → Outcome q W U
      → Outcome (r >>= λ a. q >>= λ b. ok (f a b)) (V × W) (λ label. T label ⊎ U label)
  Outcome-both r q f V W T U (inl (a, e, v)) (inl (b, d, w)) = inl (f a b, rw (e, d) refl, (v, w))
  Outcome-both r q f V W T U (inl (a, e, v)) (inr (label, d, u)) =
      inr (label, rw (e, d) refl, inr u)
  Outcome-both r q f V W T U (inr (label, e, t)) o = inr (label, rw e refl, inl t)

pub Outcome-check :
    {A : Type 0} (r : Result (Unit {0})) (q : Result A) (V W : Type 0) (T U : Text → Type 0)
    → Outcome r V T
    → Outcome q W U
    → Outcome (r >> q) (V × W) (λ label. T label ⊎ U label)
Outcome-check r q V W T U (inl (a, e, v)) (inl (b, d, w)) = inl (b, rw (e, d) refl, (v, w))
Outcome-check r q V W T U (inl (a, e, v)) (inr (label, d, u)) = inr (label, rw (e, d) refl, inr u)
Outcome-check r q V W T U (inr (label, e, t)) o = inr (label, rw e refl, inl t)

pub check_labels-Outcome :
    (declared labels : List Text)
    → Outcome
        (check_labels declared labels)
        ((label : Text) → label ∈ labels → label ∈ declared)
        (λ label. (label ∈ labels) × ¬ (label ∈ declared))
unfolding check_labels
check_labels-Outcome declared [] = inl (tt, refl, λ label m. absurd m)
check_labels-Outcome declared (l ∷ rest) = elim (Bool-cases (any (text_eq l) declared)) [
  | inl t ↦
      let (k, m, same) = any-mem (text_eq l) declared t in
      let here = subst (λ i. i ∈ declared) (sym ((text_eq_iff l k).0 same)) m in
      elim (check_labels-Outcome declared rest) [
        | inl (u, e, w) ↦ inl (
          u,
          rw t e,
          λ label n. elim n [ inl d ↦ subst (λ i. i ∈ declared) (sym d) here | inr r ↦ w label r ],
        )
        | inr (label, e, (m, n)) ↦ inr (label, rw t e, (inr m, n))
      ]
  | inr f ↦ inr (
    l,
    rw f refl,
    (inl refl, λ m. cc (f, mem-any (text_eq l) l declared m ((text_eq_iff l l).1 refl))),
  )
]
