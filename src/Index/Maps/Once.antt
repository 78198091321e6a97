-- ===== src/Index/Maps/Once.antt =====
-- Maps in which no key stands twice: the order of their entries does not matter.
use mathlib.Core.List.{Permᴰ}
use montre.Prelude.{
  ◌≡◌, refl, sym, ap, subst, if◌then◌else◌, ◌∙◌, inl, inr, false, Bool-cases, none, some, Text,
  text_eq, text_eq_iff, List, [], ◌∷◌, ◌∈◌,
}
use montre.Index.Corpus.{lookup}

text_eq_sym : (s t : Text) → text_eq s t ≡ text_eq t s
text_eq_sym s t = elim (Bool-cases (text_eq s t)) [
  | inl e ↦ rw (e, (text_eq_iff t s).1 (sym ((text_eq_iff s t).0 e))) refl
  | inr e ↦ elim (Bool-cases (text_eq t s)) [
    | inl f ↦ (text_eq_iff s t).1 (sym ((text_eq_iff t s).0 f)) ∙ sym f
    | inr f ↦ rw (e, f) refl
  ]
]

module _ {V : Type 0} where
  abbrev pub Once : List (Text × V) → Type 0
  Once [] = Unit {0}
  Once ((k, v) ∷ m) = (lookup k m ≡ none) × Once m

  -- The first entry is not in the rest.
  Once-apart :
      (k j : Text) (v w : V) (m : List (Text × V))
      → Once ((k, v) ∷ (j, w) ∷ m)
      → (text_eq j k ≡ false) × (lookup k m ≡ none)
  unfolding lookup
  Once-apart k j v w m (e, _) = elim (Bool-cases (text_eq j k)) [
    | inl f ↦ absurd (let g = rw f at e in cc)
    | inr f ↦ (f, rw f at e)
  ]

  Once-swap :
      (k j : Text) (v w : V) (m : List (Text × V))
      → Once ((k, v) ∷ (j, w) ∷ m)
      → Once ((j, w) ∷ (k, v) ∷ m)
        × ((x : Text) → lookup x ((k, v) ∷ (j, w) ∷ m) ≡ lookup x ((j, w) ∷ (k, v) ∷ m))
  unfolding lookup
  Once-swap k j v w m o =
      let (apart, free) = Once-apart k j v w m o in
      let apart' : text_eq k j ≡ false = text_eq_sym k j ∙ apart in
      (
        (rw apart' o.1.0, (free, o.1.1)),
        λ x. elim (Bool-cases (text_eq k x)) [
          | inl e ↦ let same = (text_eq_iff k x).0 e in rw (e, ← same, apart) refl
          | inr e ↦ rw e refl
        ],
      )

  -- A permutation keeps what a map holds.
  pub lookup-perm :
      {m n : List (Text × V)} → Permᴰ m n → Once m → Once n × ((k : Text) → lookup k m ≡ lookup k n)
  unfolding lookup
  lookup-perm Permᴰ.nil o = (o, λ k. refl)
  lookup-perm (Permᴰ.cons {a} {b} {l₁} {l₂} e p) (free, o) =
      let (o', same) = lookup-perm p o in
      subst (λ x. Once (x ∷ l₂) × ((k : Text) → lookup k (a ∷ l₁) ≡ lookup k (x ∷ l₂))) e
        (
          (sym (same a.0) ∙ free, o'),
          λ k. ap (λ found. if text_eq a.0 k then some a.1 else found) (same k),
        )
  lookup-perm (Permᴰ.swap {a} {b} {a'} {b'} {l} d e) o =
      subst (λ x. Once (x ∷ b' ∷ l) × ((k : Text) → lookup k (a ∷ b ∷ l) ≡ lookup k (x ∷ b' ∷ l))) e
        (subst (λ y. Once (b ∷ y ∷ l) × ((k : Text) → lookup k (a ∷ b ∷ l) ≡ lookup k (b ∷ y ∷ l)))
          d (Once-swap a.0 b.0 a.1 b.1 l o))
  lookup-perm (Permᴰ.trans p q) o =
      let (o', same) = lookup-perm p o in
      let (o'', same') = lookup-perm q o' in (o'', λ k. same k ∙ same' k)

  -- What stands in the map is found.
  pub mem-lookup :
      (k : Text) (v : V) (m : List (Text × V)) → Once m → (k, v) ∈ m → lookup k m ≡ some v
  unfolding lookup
  mem-lookup k v [] o e = absurd e
  mem-lookup k v ((j, w) ∷ m) (free, o) (inl e) =
      let key : k ≡ j = ap (λ x. x.0) e in rw ((text_eq_iff j k).1 (sym key), ap (λ x. x.1) e) refl
  mem-lookup k v ((j, w) ∷ m) (free, o) (inr e) = elim (Bool-cases (text_eq j k)) [
    | inl f ↦ absurd (let g : j ≡ k = (text_eq_iff j k).0 f in cc (g, free, mem-lookup k v m o e))
    | inr f ↦ rw f (mem-lookup k v m o e)
  ]
