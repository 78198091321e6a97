-- ===== src/Query/Planner/Collected.antt =====
-- The labels that the planner collects are those that constraints name and queries declare.
use montre.Prelude.{refl, ◌↔◌, inl, inr, Text, List, [], ◌∷◌, ◌∈◌, mem-append, subst}
use montre.Query.Ast.{
  GlobalConstraint, Query, Queries, token, sequence, repetition, alternation, within, capture,
  within_component, within_document, project, constrained, no_queries, and_query,
}
use montre.Query.Planner.{
  collect_declared_labels, collect_declared_labels_all, referenced_labels,
  validate_constraint_labels,
}
use montre.Query.Planner.Labels.{
  Names, SomeNames, Declares, SomeDeclares, Outcome, check_labels-Outcome,
}

-- The labels that the code collects from the constraints are those that they name.
sound-referenced_labels :
    (label : Text) (cs : List GlobalConstraint) → label ∈ referenced_labels cs → SomeNames label cs
unfolding referenced_labels
sound-referenced_labels label [] m = absurd m
sound-referenced_labels label (GlobalConstraint.eq l r ∷ cs) (inl e) =
    (GlobalConstraint.eq l r, inl refl, inl e)
sound-referenced_labels label (GlobalConstraint.eq l r ∷ cs) (inr (inl e)) =
    (GlobalConstraint.eq l r, inl refl, inr e)
sound-referenced_labels label (GlobalConstraint.eq l r ∷ cs) (inr (inr m)) =
    let (c, k, n) = sound-referenced_labels label cs m in (c, inr k, n)
sound-referenced_labels label (GlobalConstraint.ne l r ∷ cs) (inl e) =
    (GlobalConstraint.ne l r, inl refl, inl e)
sound-referenced_labels label (GlobalConstraint.ne l r ∷ cs) (inr (inl e)) =
    (GlobalConstraint.ne l r, inl refl, inr e)
sound-referenced_labels label (GlobalConstraint.ne l r ∷ cs) (inr (inr m)) =
    let (c, k, n) = sound-referenced_labels label cs m in (c, inr k, n)
sound-referenced_labels label (GlobalConstraint.distance l r op v ∷ cs) (inl e) =
    (GlobalConstraint.distance l r op v, inl refl, inl e)
sound-referenced_labels label (GlobalConstraint.distance l r op v ∷ cs) (inr (inl e)) =
    (GlobalConstraint.distance l r op v, inl refl, inr e)
sound-referenced_labels label (GlobalConstraint.distance l r op v ∷ cs) (inr (inr m)) =
    let (c, k, n) = sound-referenced_labels label cs m in (c, inr k, n)

mem-referenced_labels :
    (label : Text) (c : GlobalConstraint) (cs : List GlobalConstraint)
    → c ∈ cs
    → Names label c
    → label ∈ referenced_labels cs
unfolding referenced_labels
mem-referenced_labels label c [] m n = absurd m
mem-referenced_labels label c (GlobalConstraint.eq l r ∷ cs) (inl e) n =
    (elim (subst (Names label) e n) [ inl d ↦ inl d | inr d ↦ inr (inl d) ])
mem-referenced_labels label c (GlobalConstraint.ne l r ∷ cs) (inl e) n =
    (elim (subst (Names label) e n) [ inl d ↦ inl d | inr d ↦ inr (inl d) ])
mem-referenced_labels label c (GlobalConstraint.distance l r op v ∷ cs) (inl e) n =
    (elim (subst (Names label) e n) [ inl d ↦ inl d | inr d ↦ inr (inl d) ])
mem-referenced_labels label c (GlobalConstraint.eq l r ∷ cs) (inr m) n =
    inr (inr (mem-referenced_labels label c cs m n))
mem-referenced_labels label c (GlobalConstraint.ne l r ∷ cs) (inr m) n =
    inr (inr (mem-referenced_labels label c cs m n))
mem-referenced_labels label c (GlobalConstraint.distance l r op v ∷ cs) (inr m) n =
    inr (inr (mem-referenced_labels label c cs m n))

referenced_labels_iff :
    (label : Text) (cs : List GlobalConstraint)
    → (label ∈ referenced_labels cs) ↔ SomeNames label cs
referenced_labels_iff label cs =
    (sound-referenced_labels label cs, λ (c, m, n). mem-referenced_labels label c cs m n)

-- The labels that the code collects from a query are those that it declares.
mutual
  unfolding collect_declared_labels

  mem-collect_declared_labels :
      (label : Text) (q : Query) → (label ∈ collect_declared_labels q) ↔ Declares label q
  mem-collect_declared_labels label (token p) = (λ m. m, λ d. d)
  mem-collect_declared_labels label (sequence parts) = mem-collect_declared_labels_all label parts
  mem-collect_declared_labels label (repetition inner min max) =
      mem-collect_declared_labels label inner
  mem-collect_declared_labels label (alternation alts) = mem-collect_declared_labels_all label alts
  mem-collect_declared_labels label (within inner l) = mem-collect_declared_labels label inner
  mem-collect_declared_labels label (capture name inner) =
      let (f, g) = mem-collect_declared_labels label inner in
      (
        λ m. elim m [ inl e ↦ inl e | inr k ↦ inr (f k) ],
        λ d. elim d [ inl e ↦ inl e | inr k ↦ inr (g k) ],
      )
  mem-collect_declared_labels label (within_component inner cs) =
      mem-collect_declared_labels label inner
  mem-collect_declared_labels label (within_document inner ds) =
      mem-collect_declared_labels label inner
  mem-collect_declared_labels label (project inner a) = mem-collect_declared_labels label inner
  mem-collect_declared_labels label (constrained inner cs) = mem-collect_declared_labels label inner

  mem-collect_declared_labels_all :
      (label : Text) (qs : Queries)
      → (label ∈ collect_declared_labels_all qs) ↔ SomeDeclares label qs
  mem-collect_declared_labels_all label no_queries = (λ m. m, λ d. d)
  mem-collect_declared_labels_all label (and_query q qs) =
      let (f, g) = mem-collect_declared_labels label q in
      let (f', g') = mem-collect_declared_labels_all label qs in
      let (h, i) = mem-append label (collect_declared_labels q) (collect_declared_labels_all qs) in
      (
        λ m. elim (h m) [ inl k ↦ inl (f k) | inr k ↦ inr (f' k) ],
        λ d. elim d [ inl k ↦ i (inl (g k)) | inr k ↦ i (inr (g' k)) ],
      )

-- The check of the labels passes, or reports a label that is named and not declared.
pub validate_constraint_labels-Outcome :
    (inner : Query) (cs : List GlobalConstraint)
    → Outcome
        (validate_constraint_labels inner cs)
        ((label : Text) → SomeNames label cs → Declares label inner)
        (λ label. SomeNames label cs × ¬ Declares label inner)
unfolding validate_constraint_labels
validate_constraint_labels-Outcome inner cs =
    elim (check_labels-Outcome (collect_declared_labels inner) (referenced_labels cs)) [
      | inl (u, e, w) ↦ inl (
        u,
        e,
        λ label n.
            (mem-collect_declared_labels label inner).0
              (w label ((referenced_labels_iff label cs).1 n)),
      )
      | inr (label, e, (m, n)) ↦ inr (
        label,
        e,
        (
          (referenced_labels_iff label cs).0 m,
          λ d. n ((mem-collect_declared_labels label inner).1 d),
        ),
      )
    ]
