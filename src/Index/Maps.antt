-- ===== src/Index/Maps.antt =====
-- `HashMap` with text keys, as the crates montre-index and montre-daemon write to it.
pub mod Once
use montre.Prelude.{
  ◌≡◌, ◌≢◌, ◌↔◌, ◌⊎◌, refl, sym, ap, ◌∙◌, inl, inr, if◌then◌else◌, Bool, Option, true, false,
  Bool-cases, some, none, some-eq-some, Text, text_eq, text_eq_iff, Option-cases, List, [], ◌∷◌,
  ◌∈◌,
}
use montre.Index.Corpus.{lookup}

-- `HashMap::insert` and `remove`.
unfoldable pub remove_key : {V : Type 0} → Text → List (Text × V) → List (Text × V)
remove_key k [] = []
remove_key k ((j, v) ∷ m) = if text_eq j k then remove_key k m else (j, v) ∷ remove_key k m

abbrev pub insert_key : {V : Type 0} → Text → V → List (Text × V) → List (Text × V)
insert_key k v m = (k, v) ∷ remove_key k m

-- `HashMap::entry` with `or_default`, for a value that is a vector or a map.
abbrev pub or_default : {A : Type 0} → Option (List A) → List A
or_default none = []
or_default (some xs) = xs

abbrev pub contains_key : {V : Type 0} → Text → List (Text × V) → Bool
contains_key k m = elim (lookup k m) [ none ↦ false | some _ ↦ true ]

pub text_eq_refl : (s : Text) → text_eq s s ≡ true
text_eq_refl s = (text_eq_iff s s).1 refl

module _ {V : Type 0} where
  pub lookup-insert_key :
      (k : Text) (v : V) (m : List (Text × V)) → lookup k (insert_key k v m) ≡ some v
  unfolding lookup
  lookup-insert_key k v m = rw (text_eq_refl k) refl

  pub lookup-remove_key : (k : Text) (m : List (Text × V)) → lookup k (remove_key k m) ≡ none
  unfolding lookup remove_key
  lookup-remove_key k [] = refl
  lookup-remove_key k ((j, v) ∷ m) = elim (Bool-cases (text_eq j k)) [
    | inl e ↦ rw e (lookup-remove_key k m)
    | inr e ↦ rw (e, e) (lookup-remove_key k m)
  ]

  pub lookup-remove_key_other :
      (k other : Text) (m : List (Text × V))
      → k ≢ other
      → lookup k (remove_key other m) ≡ lookup k m
  unfolding lookup remove_key
  lookup-remove_key_other k other [] apart = refl
  lookup-remove_key_other k other ((j, v) ∷ m) apart = elim (Bool-cases (text_eq j other)) [
    | inl e ↦ elim (Bool-cases (text_eq j k)) [
      | inl f ↦ absurd (apart (sym ((text_eq_iff j k).0 f) ∙ (text_eq_iff j other).0 e))
      | inr f ↦ rw (e, f) (lookup-remove_key_other k other m apart)
    ]
    | inr e ↦ elim (Bool-cases (text_eq j k)) [
      | inl f ↦ rw (e, f) refl
      | inr f ↦ rw (e, f) (lookup-remove_key_other k other m apart)
    ]
  ]

  pub lookup-insert_key_other :
      (k other : Text) (v : V) (m : List (Text × V))
      → k ≢ other
      → lookup k (insert_key other v m) ≡ lookup k m
  unfolding lookup
  lookup-insert_key_other k other v m apart = elim (Bool-cases (text_eq other k)) [
    | inl e ↦ absurd (apart (sym ((text_eq_iff other k).0 e)))
    | inr e ↦ rw e (lookup-remove_key_other k other m apart)
  ]

pub contains_key-none :
    {V : Type 0} (k : Text) (m : List (Text × V)) → contains_key k m ≡ false → lookup k m ≡ none
contains_key-none k m h = elim (Option-cases (lookup k m)) [
  | inl e ↦ e
  | inr (v, e) ↦ let found = rw (e, contains_key) at h in cc
]

pub lookup-mem :
    {V : Type 0} (k : Text) (v : V) (m : List (Text × V)) → lookup k m ≡ some v → (k, v) ∈ m
unfolding lookup
lookup-mem k v [] e = cc
lookup-mem k v ((j, w) ∷ m) e = elim (Bool-cases (text_eq j k)) [
  | inl f ↦ let g = rw f at e in inl (rw ((text_eq_iff j k).0 f, some-eq-some g) refl)
  | inr f ↦ inr (lookup-mem k v m (rw f at e))
]

-- What a map holds after an insertion: the new value at its key, and the old ones elsewhere.
pub lookup-insert_key_iff :
    {V : Type 0} (k other : Text) (v w : V) (m : List (Text × V))
    → (lookup k (insert_key other v m) ≡ some w)
      ↔ (((k ≡ other) × (v ≡ w)) ⊎ ((k ≢ other) × (lookup k m ≡ some w)))
lookup-insert_key_iff k other v w m = elim (Bool-cases (text_eq other k)) [
  | inl e ↦
      let same = sym ((text_eq_iff other k).0 e) in
      let found : lookup k (insert_key other v m) ≡ some v =
        rw same (lookup-insert_key other v m) in
      (
        λ h. inl (same, some-eq-some (sym found ∙ h)),
        λ h. elim h [ inl (_, f) ↦ found ∙ ap some f | inr (g, _) ↦ absurd (g same) ],
      )
  | inr e ↦
      let apart : k ≢ other = λ f. cc (e, (text_eq_iff other k).1 (sym f)) in
      let kept = lookup-insert_key_other k other v m apart in
      (
        λ h. inr (apart, sym kept ∙ h),
        λ h. elim h [ inl (f, _) ↦ absurd (apart f) | inr (_, g) ↦ kept ∙ g ],
      )
]
