-- ===== src/Query/Filter/Names.antt =====
-- The documents that the filters select by name: their own, or that of their component.
use montre.Prelude.{
  ℕ, zero, suc, ◌+◌, ◌≤◌, ◌<◌, ◌≡◌, refl, sym, ap, ◌∙◌, ◌↔◌, ◌⊎◌, inl, inr, arith, Bool-cases,
  Option-cases, true, some, none, Text, text_eq, text_eq_iff, List, [], ◌∷◌, ◌∈◌, any, any-mem,
  mem-any, get_elem?, subst, some-eq-some,
}
use montre.Index.Corpus.{Corpus, ComponentMeta, component}
use montre.Query.Filter.{matching_documents, named_components, has_document}

-- The document with the index has one of the names.
abbrev pub IsNamed : List Text → List Text → ℕ → Type 0
IsNamed names wanted i = (name : Text) × (get_elem? names i ≡ some name) × (name ∈ wanted)

wanted_iff :
    (name : Text) (wanted : List Text) → (any (λ d. text_eq d name) wanted ≡ true) ↔ (name ∈ wanted)
wanted_iff name wanted = (
  λ t.
      let (d, m, e) = any-mem (λ d. text_eq d name) wanted t in
      subst (λ k. k ∈ wanted) ((text_eq_iff d name).0 e) m,
  λ m. mem-any (λ d. text_eq d name) name wanted m ((text_eq_iff name name).1 refl),
)

matching_documents-ge :
    (i p : ℕ) (wanted names : List Text) → p ∈ matching_documents i wanted names → i ≤ p
unfolding matching_documents
matching_documents-ge i p wanted [] m = absurd m
matching_documents-ge i p wanted (name ∷ names) m =
    let rest = matching_documents-ge (i + 1) p wanted names in
    elim (Bool-cases (any (λ d. text_eq d name) wanted)) [
      | inl t ↦ elim (rw t at m) [ inl e ↦ omega arith | inr k ↦ omega (arith, rest k) ]
      | inr f ↦ omega (arith, rest (rw f at m))
    ]

pub mem-matching_documents :
    (i k : ℕ) (wanted names : List Text)
    → (i + k ∈ matching_documents i wanted names) ↔ IsNamed names wanted k
unfolding matching_documents
mem-matching_documents i k wanted [] = (λ m. absurd m, λ (name, e, m). ground arith)
mem-matching_documents i zero wanted (name ∷ names) =
    let named = wanted_iff name wanted in
    let above = matching_documents-ge (i + 1) (i + 0) wanted names in
    elim (Bool-cases (any (λ d. text_eq d name) wanted)) [
      | inl t ↦ rw t (λ m. (name, refl, named.0 t), λ k. inl (omega arith))
      | inr f ↦ rw f (
        λ m. absurd (omega (arith, above m)),
        λ (other, e, m).
            let same : name ≡ other = some-eq-some e in
            cc (f, named.1 (subst (λ d. d ∈ wanted) (sym same) m)),
      )
    ]
mem-matching_documents i (suc k) wanted (name ∷ names) =
    let shift : i + suc k ≡ i + 1 + k = omega arith in
    let rest : (i + suc k ∈ matching_documents (i + 1) wanted names) ↔ IsNamed names wanted k =
      rw shift (mem-matching_documents (i + 1) k wanted names) in
    elim (Bool-cases (any (λ d. text_eq d name) wanted)) [
      | inl t ↦ rw t (
        λ m. elim m [ inl e ↦ absurd (omega arith) | inr r ↦ rest.0 r ],
        λ named. inr (rest.1 named),
      )
      | inr f ↦ rw f rest
    ]

module _ {B : Type 0} (corpus : Corpus B) where
  -- The document with the index belongs to one of the named components.
  abbrev pub InComponent : List Text → ℕ → Type 0
  InComponent names i =
      (name : Text) × (name ∈ names)
      × ((m : ComponentMeta) × (component corpus name ≡ some m)
          × (m.first_document ≤ i)
          × (i < m.past_document))

  named_components-nil : (i : ℕ) → ¬ (has_document corpus (named_components corpus []) i ≡ true)
  unfolding named_components
  named_components-nil i m = cc

  named_components-none :
      (name : Text) (names : List Text)
      → component corpus name ≡ none
      → named_components corpus (name ∷ names) ≡ named_components corpus names
  unfolding named_components
  named_components-none name names e = ground arith

  named_components-some :
      (name : Text) (names : List Text) (m : ComponentMeta)
      → component corpus name ≡ some m
      → named_components corpus (name ∷ names) ≡ m ∷ named_components corpus names
  unfolding named_components
  named_components-some name names m e = ground arith

  has_document-cons :
      (m : ComponentMeta) (ms : List ComponentMeta) (i : ℕ)
      → (has_document corpus (m ∷ ms) i ≡ true)
        ↔ ((m.first_document ≤ i) × (i < m.past_document) ⊎ (has_document corpus ms i ≡ true))
  has_document-cons m ms i = ground arith

  pub has_document-InComponent :
      (names : List Text) (i : ℕ)
      → (has_document corpus (named_components corpus names) i ≡ true) ↔ InComponent names i
  has_document-InComponent [] i = (λ m. absurd (named_components-nil i m), λ (name, m, k). absurd m)
  has_document-InComponent (name ∷ names) i =
      let rest = has_document-InComponent names i in
      elim (Option-cases (component corpus name)) [
        | inl e ↦ rw (named_components-none name names e) (
          λ m. let (k, n, c) = rest.0 m in (k, inr n, c),
          λ (k, n, c). rest.1 (elim n [
            | inl same ↦ let (m, f, l, u) = c in cc (e, f, ap (component corpus) same)
            | inr r ↦ (k, r, c)
          ]),
        )
        | inr (m, e) ↦
            let both = has_document-cons m (named_components corpus names) i in
            rw (named_components-some name names m e) (
              λ h. elim (both.0 h) [
                | inl w ↦ (name, inl refl, (m, e, w.0, w.1))
                | inr r ↦ let (k, n, c) = rest.0 r in (k, inr n, c)
              ],
              λ (k, n, (m', f, l, u)). both.1 (elim n [
                | inl same ↦
                    let eq : m' ≡ m = some-eq-some (sym f ∙ ap (component corpus) same ∙ e) in
                    inl (rw (← eq) (l, u))
                | inr r ↦ inr (rest.1 (k, r, (m', f, l, u)))
              ]),
            )
      ]
