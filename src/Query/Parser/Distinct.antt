-- ===== src/Query/Parser/Distinct.antt =====
-- The check for labels that stand twice, in crates/montre-query/src/parser.rs, against a list of
-- labels in which none does.
use montre.Prelude.{
  ◌≡◌, refl, sym, ◌∙◌, ◌↔◌, ◌⊎◌, inl, inr, Text, codes, true, false, Bool-cases, List, [], ◌∷◌,
  ◌++◌, ◌∈◌, mem-append, any, any-mem, mem-any, append_assoc, subst, text_eq, text_eq_iff,
  if◌then◌else◌,
}
use montre.Query.{QueryError, Result, ok, err, ◌>>=◌}
use montre.Query.Ast.{
  Query, Queries, no_queries, and_query, token, sequence, repetition, alternation, within, capture,
  within_component, within_document, project, constrained,
}
use montre.Query.Planner.{collect_declared_labels, collect_declared_labels_all}
use montre.Query.Parser.Labels.{collect_labels, collect_labels_all, check_duplicate_labels}

abbrev pub Distinct : List Text → Type 0
Distinct [] = Unit {0}
Distinct (s ∷ rest) = ¬ (s ∈ rest) × Distinct rest

-- The labels one by one.
abbrev add_labels : List Text → List Text → Result (List Text)
add_labels [] seen = ok seen
add_labels (s ∷ rest) seen =
    if any (text_eq s) seen
    then err (QueryError.parse 0 (codes "Duplicate label name '" ++ s ++ codes "'"))
    else add_labels rest (seen ++ s ∷ [])

add_labels-append :
    (xs ys seen : List Text) → add_labels (xs ++ ys) seen ≡ (add_labels xs seen >>= add_labels ys)
add_labels-append [] ys seen = refl
add_labels-append (s ∷ xs) ys seen = elim (Bool-cases (any (text_eq s) seen)) [
  | inl e ↦ rw e refl
  | inr e ↦ rw e (add_labels-append xs ys (seen ++ s ∷ []))
]

bind-ext :
    {A B : Type 0} (r : Result A) (f g : A → Result B)
    → ((a : A) → f a ≡ g a)
    → (r >>= f) ≡ (r >>= g)
bind-ext (ok a) f g h = h a
bind-ext (err e) f g h = refl

mutual
  unfolding collect_labels collect_declared_labels

  collect_labels-add_labels :
      (q : Query) (seen : List Text)
      → collect_labels q seen ≡ add_labels (collect_declared_labels q) seen
  collect_labels-add_labels (token p) seen = refl
  collect_labels-add_labels (sequence parts) seen = collect_labels_all-add_labels parts seen
  collect_labels-add_labels (repetition inner least most) seen =
      collect_labels-add_labels inner seen
  collect_labels-add_labels (alternation alts) seen = collect_labels_all-add_labels alts seen
  collect_labels-add_labels (within inner l) seen = collect_labels-add_labels inner seen
  collect_labels-add_labels (capture name inner) seen =
      rw (collect_labels-add_labels inner (seen ++ name ∷ [])) refl
  collect_labels-add_labels (within_component inner cs) seen = collect_labels-add_labels inner seen
  collect_labels-add_labels (within_document inner ds) seen = collect_labels-add_labels inner seen
  collect_labels-add_labels (project inner a) seen = collect_labels-add_labels inner seen
  collect_labels-add_labels (constrained inner cs) seen = collect_labels-add_labels inner seen

  collect_labels_all-add_labels :
      (qs : Queries) (seen : List Text)
      → collect_labels_all qs seen ≡ add_labels (collect_declared_labels_all qs) seen
  collect_labels_all-add_labels no_queries seen = refl
  collect_labels_all-add_labels (and_query q qs) seen = rw (collect_labels-add_labels q seen) (
      bind-ext (add_labels (collect_declared_labels q) seen) _ _ (collect_labels_all-add_labels qs)
      ∙ sym (add_labels-append (collect_declared_labels q) (collect_declared_labels_all qs) seen))

-- The label stands in the list, and before that too.
abbrev pub Twice : Text → List Text → Type 0
Twice name labels =
    (before : List Text) × (behind : List Text) × (labels ≡ before ++ name ∷ behind)
    × (name ∈ before)

abbrev duplicate : Text → QueryError
duplicate name = QueryError.parse 0 (codes "Duplicate label name '" ++ name ++ codes "'")

abbrev Apart : List Text → List Text → Type 0
Apart seen labels = (s : Text) → s ∈ labels → ¬ (s ∈ seen)

any-text_eq_iff : (s : Text) (seen : List Text) → (any (text_eq s) seen ≡ true) ↔ (s ∈ seen)
any-text_eq_iff s seen = (
  (λ h.
      let (t, m, e) = any-mem (text_eq s) seen h in
      subst (λ u. u ∈ seen) (sym ((text_eq_iff s t).0 e)) m),
  (λ m. mem-any (text_eq s) s seen m ((text_eq_iff s s).1 refl)),
)

Apart-cons :
    (s : Text) (rest seen : List Text)
    → Apart (seen ++ s ∷ []) rest
    → any (text_eq s) seen ≡ false
    → Apart seen (s ∷ rest)
Apart-cons s rest seen apart e t (inl f) k =
    cc (e, (any-text_eq_iff s seen).1 (subst (λ u. u ∈ seen) f k))
Apart-cons s rest seen apart e t (inr m) k = apart t m ((mem-append t seen (s ∷ [])).1 (inl k))

add_labels-cases :
    (labels seen : List Text)
    → ((out : List Text) × (add_labels labels seen ≡ ok out) × Apart seen labels × Distinct labels)
      ⊎ ((name : Text) × (add_labels labels seen ≡ err (duplicate name))
          × Twice name (seen ++ labels))
add_labels-cases [] seen = inl (seen, refl, (λ s m. absurd m), tt)
add_labels-cases (s ∷ rest) seen = elim (Bool-cases (any (text_eq s) seen)) [
  | inl e ↦ inr (s, rw e refl, (seen, rest, refl, (any-text_eq_iff s seen).0 e))
  | inr e ↦ elim (add_labels-cases rest (seen ++ s ∷ [])) [
    | inl (out, f, apart, distinct) ↦ inl (
      out,
      rw e f,
      Apart-cons s rest seen apart e,
      (λ m. apart s m ((mem-append s seen (s ∷ [])).1 (inr (inl refl))), distinct),
    )
    | inr (name, f, twice) ↦
        inr (name, rw e f, subst (Twice name) (sym (append_assoc seen (s ∷ []) rest)) twice)
  ]
]

-- The check passes a query whose labels are distinct, and otherwise names a label that stands
-- twice, at position 0.
pub check_duplicate_labels-cases :
    (q : Query)
    → ((check_duplicate_labels q ≡ ok tt) × Distinct (collect_declared_labels q))
      ⊎ ((name : Text) × (check_duplicate_labels q
            ≡ err (QueryError.parse 0 (codes "Duplicate label name '" ++ name ++ codes "'")))
          × Twice name (collect_declared_labels q))
unfolding check_duplicate_labels
check_duplicate_labels-cases q = elim (add_labels-cases (collect_declared_labels q) []) [
  | inl (out, e, _, d) ↦ inl (rw (collect_labels-add_labels q [], e) refl, d)
  | inr (name, e, t) ↦ inr (name, rw (collect_labels-add_labels q [], e) refl, t)
]
