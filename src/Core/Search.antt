-- ===== src/Core/Search.antt =====
-- `span_containing` on the ordered, disjoint spans of a layer: it finds the span around a position
-- exactly when there is one.
use montre.Prelude.{
  ◌≡◌, refl, ◌+◌, ◌-◌, ◌/◌, ◌≤◌, ◌<◌, ◌↔◌, inl, inr, arith, List, [], ◌∷◌, ℕ, zero, suc, none, some,
  get_elem?, length, Option-cases,
}
use montre.Core.{Span, span, search, span_containing}

-- The spans stand in order from `n` on, and do not overlap.
abbrev pub Ordered : ℕ → List Span → Type 0
Ordered n [] = Unit {0}
Ordered n (s ∷ spans) = (n ≤ s.start) × (s.start ≤ s.end) × Ordered s.end spans

abbrev pub Around : Span → ℕ → Type 0
Around s position = (s.start ≤ position) × (position < s.end)

pub get_elem?-lt-length {ℓ} :
    {A : Type ℓ} (xs : List A) (i : ℕ) {x : A} → get_elem? xs i ≡ some x → i < length xs
get_elem?-lt-length [] i e = ground arith
get_elem?-lt-length (x ∷ xs) zero e = omega arith
get_elem?-lt-length (x ∷ xs) (suc i) e = omega (arith, get_elem?-lt-length xs i e)

pub get_elem?_total {ℓ} :
    {A : Type ℓ} (xs : List A) (i : ℕ) → i < length xs → (x : A) × (get_elem? xs i ≡ some x)
get_elem?_total [] i h = absurd (omega arith)
get_elem?_total (x ∷ xs) zero h = (x, refl)
get_elem?_total (x ∷ xs) (suc i) h = get_elem?_total xs i (omega arith)

pub Ordered-bounds :
    (n : ℕ) (spans : List Span) (i : ℕ) (s : Span)
    → Ordered n spans
    → get_elem? spans i ≡ some s
    → (n ≤ s.start) × (s.start ≤ s.end)
Ordered-bounds n [] i s o e = ground arith
Ordered-bounds n (t ∷ spans) zero s o e = ground arith
Ordered-bounds n (t ∷ spans) (suc i) s o e = omega (arith, Ordered-bounds t.end spans i s o.2 e)

-- An earlier span ends before a later one starts.
pub Ordered-apart :
    (n : ℕ) (spans : List Span) (i j : ℕ) (s t : Span)
    → Ordered n spans
    → get_elem? spans i ≡ some s
    → get_elem? spans j ≡ some t
    → i < j
    → s.end ≤ t.start
Ordered-apart n [] i j s t o e f h = ground arith
Ordered-apart n (u ∷ spans) zero zero s t o e f h = absurd (omega arith)
Ordered-apart n (u ∷ spans) zero (suc j) s t o e f h =
    ground (arith, Ordered-bounds u.end spans j t o.2 f)
Ordered-apart n (u ∷ spans) (suc i) zero s t o e f h = absurd (omega arith)
Ordered-apart n (u ∷ spans) (suc i) (suc j) s t o e f h =
    Ordered-apart u.end spans i j s t o.2 e f (omega arith)

search_sound :
    (fuel : ℕ) (spans : List Span) (position lo hi i : ℕ) (s : Span)
    → search fuel spans position lo hi ≡ some i
    → (i < hi) × (get_elem? spans i ≡ some s → Around s position)
unfolding search
search_sound zero spans position lo hi i s e = ground arith
search_sound (suc fuel) spans position lo hi i s e =
    let mid = lo + (hi - lo) / 2 in
    ground (
      arith,
      search_sound fuel spans position (mid + 1) hi i s,
      search_sound fuel spans position lo mid i s,
    )

search_complete :
    (fuel n : ℕ) (spans : List Span) (position lo hi i : ℕ) (s : Span)
    → Ordered n spans
    → get_elem? spans i ≡ some s
    → Around s position
    → lo ≤ i
    → i < hi
    → hi ≤ length spans
    → hi - lo < fuel
    → search fuel spans position lo hi ≡ some i
unfolding search
search_complete zero n spans position lo hi i s o e a l h b f = absurd (omega arith)
search_complete (suc fuel) n spans position lo hi i s o e a l h b f =
    let mid = lo + (hi - lo) / 2 in
    let (t, et) = get_elem?_total spans mid (omega arith) in
    ground (
      arith,
      et,
      Ordered-apart n spans i mid s t o e et,
      Ordered-apart n spans mid i t s o et e,
      Ordered-bounds n spans mid t o et,
      search_complete fuel n spans position (mid + 1) hi i s o e a,
      search_complete fuel n spans position lo mid i s o e a,
    )

module _ (n : ℕ) (spans : List Span) (position : ℕ) (ordered : Ordered n spans) where
  found_iff :
      (i : ℕ) (s : Span)
      → get_elem? spans i ≡ some s
      → (span_containing spans position ≡ some i) ↔ Around s position
  unfolding span_containing
  found_iff i s e =
      let size = length spans in
      (
        λ h. (search_sound (suc size) spans position 0 size i s h).1 e,
        λ a.
            search_complete (suc size) n spans position 0 size i s ordered e a (omega arith)
              (get_elem?-lt-length spans i e) (omega arith) (omega arith),
      )

  pub span_containing-some :
      (i : ℕ)
      → span_containing spans position ≡ some i
      → (s : Span) × (get_elem? spans i ≡ some s) × Around s position
  unfolding span_containing
  span_containing-some i e =
      let sound = search_sound (suc (length spans)) spans position 0 (length spans) i in
      let (s, g) = get_elem?_total spans i (sound (span 0 0) e).0 in (s, g, (sound s e).1 g)

  absent_iff :
      (span_containing spans position ≡ none)
      ↔ ((i : ℕ) (s : Span) → get_elem? spans i ≡ some s → ¬ Around s position)
  absent_iff = (
    λ h i s e a. cc ((found_iff i s e).1 a),
    λ h. elim (Option-cases (span_containing spans position)) [
      | inl e ↦ e
      | inr (i, e) ↦ let (s, g, a) = span_containing-some i e in absurd (h i s g a)
    ],
  )

-- On ordered, disjoint spans `span_containing` returns the index `i` of a span exactly when that
-- span is around the position, and it returns nothing exactly when no span is.
pub span_containing-Around :
    (n : ℕ) (spans : List Span) (position : ℕ)
    → Ordered n spans
    → ((i : ℕ) (s : Span)
        → get_elem? spans i ≡ some s
        → (span_containing spans position ≡ some i) ↔ Around s position)
      × ((span_containing spans position ≡ none)
          ↔ ((i : ℕ) (s : Span) → get_elem? spans i ≡ some s → ¬ Around s position))
span_containing-Around n spans position o =
    (found_iff n spans position o, absent_iff n spans position o)
