-- ===== src/Prelude/Lists.antt =====
-- Lists over the native numbers: membership as a computing predicate, and the loops that the
-- program writes with iterators.
use Prim.Native.Nat.{ℕ, zero, suc, ◌+◌}
use mathlib.Core.Path.{◌≡◌, refl, ap, ◌∙◌}
use mathlib.Core.Logic.{◌↔◌, ◌⊎◌, inl, inr}
use mathlib.Core.List.{List, [], ◌∷◌, ◌++◌, map, Permᴰ}
use mathlib.Core.Option.{Option, none, some}
use mathlib.Core.Bool.{Bool, true, false, ◌||◌, ◌&&◌}
use native.Mathlib.Omega.{arith}
use montre.Prelude.Tests.{if◌then◌else◌, Bool-cases}

module _ {ℓ} {A : Type ℓ} where
  abbrev pub length : List A → ℕ
  length [] = 0
  length (x ∷ xs) = suc (length xs)

  abbrev pub get_elem? : List A → ℕ → Option A
  get_elem? [] i = none
  get_elem? (x ∷ xs) zero = some x
  get_elem? (x ∷ xs) (suc i) = get_elem? xs i

  abbrev pub drop : ℕ → List A → List A
  drop zero xs = xs
  drop (suc n) [] = []
  drop (suc n) (x ∷ xs) = drop n xs

  -- `xs.iter().filter(p)`, `any` and `find` with a Boolean test.
  abbrev pub keep : (A → Bool) → List A → List A
  keep p [] = []
  keep p (x ∷ xs) = if p x then x ∷ keep p xs else keep p xs

  abbrev pub any : (A → Bool) → List A → Bool
  any p [] = false
  any p (x ∷ xs) = p x || any p xs

  abbrev pub every : (A → Bool) → List A → Bool
  every p [] = true
  every p (x ∷ xs) = p x && every p xs

  abbrev pub find : (A → Bool) → List A → Option A
  find p [] = none
  find p (x ∷ xs) = if p x then some x else find p xs

  pub append_assoc : (xs ys zs : List A) → xs ++ (ys ++ zs) ≡ (xs ++ ys) ++ zs
  append_assoc [] ys zs = refl
  append_assoc (x ∷ xs) ys zs = ap (◌∷◌ x) (append_assoc xs ys zs)

  pub length-append : (xs ys : List A) → length (xs ++ ys) ≡ length xs + length ys
  length-append [] ys = omega arith
  length-append (x ∷ xs) ys = omega (arith, length-append xs ys)

-- The number of leading entries that pass: `partition_point` on a partitioned slice.
unfoldable pub partition_point {ℓ} : {A : Type ℓ} → (A → Bool) → List A → ℕ
partition_point p [] = 0
partition_point p (x ∷ xs) = if p x then suc (partition_point p xs) else 0

module _ {A : Type 0} where
  infix 40 ◌∈◌
  abbrev pub ◌∈◌ : A → List A → Type 0
  a ∈ [] = ⊥
  a ∈ x ∷ xs = (a ≡ x) ⊎ (a ∈ xs)

  pub mem-append : (a : A) (xs ys : List A) → (a ∈ xs ++ ys) ↔ ((a ∈ xs) ⊎ (a ∈ ys))
  mem-append a [] ys = ground arith
  mem-append a (x ∷ xs) ys = ground (arith, mem-append a xs ys)

  pub mem-keep : (p : A → Bool) (a : A) (xs : List A) → (a ∈ keep p xs) ↔ ((a ∈ xs) × (p a ≡ true))
  mem-keep p a [] = ground arith
  mem-keep p a (x ∷ xs) = elim (Bool-cases (p x)) [
    | inl e ↦ rw e (ground (arith, mem-keep p a xs, ap p {x = a} {y = x}))
    | inr e ↦ rw e (ground (arith, mem-keep p a xs, ap p {x = a} {y = x}))
  ]

  pub any-mem : (p : A → Bool) (xs : List A) → any p xs ≡ true → (a : A) × (a ∈ xs) × (p a ≡ true)
  any-mem p [] h = cc
  any-mem p (x ∷ xs) h = elim (Bool-cases (p x)) [
    | inl e ↦ (x, inl refl, e)
    | inr e ↦ let (a, m, t) = any-mem p xs (rw e at h) in (a, inr m, t)
  ]

  pub mem-any : (p : A → Bool) (a : A) (xs : List A) → a ∈ xs → p a ≡ true → any p xs ≡ true
  mem-any p a [] m h = absurd m
  mem-any p a (x ∷ xs) (inl e) h = rw (← e, h)
  mem-any p a (x ∷ xs) (inr m) h = ground (arith, mem-any p a xs m h)

  pub every-mem : (p : A → Bool) (a : A) (xs : List A) → every p xs ≡ true → a ∈ xs → p a ≡ true
  every-mem p a [] h m = absurd m
  every-mem p a (x ∷ xs) h (inl e) = rw e (ground arith)
  every-mem p a (x ∷ xs) h (inr m) = every-mem p a xs (ground arith) m

  pub every-intro :
      (p : A → Bool) (xs : List A) → ((a : A) → a ∈ xs → p a ≡ true) → every p xs ≡ true
  every-intro p [] h = refl
  every-intro p (x ∷ xs) h = rw (h x (inl refl)) (every-intro p xs (λ a m. h a (inr m)))

  pub find-mem : (p : A → Bool) (xs : List A) {a : A} → find p xs ≡ some a → (a ∈ xs) × (p a ≡ true)
  find-mem p [] h = cc
  find-mem p (x ∷ xs) h = elim (Bool-cases (p x)) [
    | inl e ↦ ground arith
    | inr e ↦ let r = find-mem p xs (rw e at h) in (inr r.0, r.1)
  ]

  pub get_elem?-mem : (xs : List A) (i : ℕ) {a : A} → get_elem? xs i ≡ some a → a ∈ xs
  get_elem?-mem [] i h = cc
  get_elem?-mem (x ∷ xs) zero h = ground arith
  get_elem?-mem (x ∷ xs) (suc i) h = inr (get_elem?-mem xs i h)

  pub mem-get_elem? : (xs : List A) (a : A) → a ∈ xs → (i : ℕ) × (get_elem? xs i ≡ some a)
  mem-get_elem? [] a m = absurd m
  mem-get_elem? (x ∷ xs) a (inl e) = (0, rw e refl)
  mem-get_elem? (x ∷ xs) a (inr m) = let (i, e) = mem-get_elem? xs a m in (suc i, e)

  -- A permutation keeps the entries.
  pub mem-perm : {xs ys : List A} (a : A) → Permᴰ xs ys → a ∈ xs → a ∈ ys
  mem-perm a Permᴰ.nil m = m
  mem-perm a (Permᴰ.cons e p) (inl m) = inl (m ∙ e)
  mem-perm a (Permᴰ.cons e p) (inr m) = inr (mem-perm a p m)
  mem-perm a (Permᴰ.swap d e) m = ground arith
  mem-perm a (Permᴰ.trans p q) m = mem-perm a q (mem-perm a p m)

module _ {A B : Type 0} where
  pub mem-map : (f : A → B) (b : B) (xs : List A) → b ∈ map f xs → (a : A) × (a ∈ xs) × (b ≡ f a)
  mem-map f b [] m = absurd m
  mem-map f b (x ∷ xs) (inl e) = (x, inl refl, e)
  mem-map f b (x ∷ xs) (inr m) = let (a, k, e) = mem-map f b xs m in (a, inr k, e)

  pub map-mem : (f : A → B) (a : A) (xs : List A) → a ∈ xs → f a ∈ map f xs
  map-mem f a [] m = absurd m
  map-mem f a (x ∷ xs) (inl e) = inl (ap f e)
  map-mem f a (x ∷ xs) (inr m) = inr (map-mem f a xs m)

  -- `flat_map` of the iterators.
  abbrev pub flat_map : (A → List B) → List A → List B
  flat_map f [] = []
  flat_map f (x ∷ xs) = f x ++ flat_map f xs

  pub mem-flat_map :
      (f : A → List B) (b : B) (xs : List A) → b ∈ flat_map f xs → (a : A) × (a ∈ xs) × (b ∈ f a)
  mem-flat_map f b [] m = absurd m
  mem-flat_map f b (x ∷ xs) m = elim ((mem-append b (f x) (flat_map f xs)).0 m) [
    | inl k ↦ (x, inl refl, k)
    | inr k ↦ let (a, ka, kb) = mem-flat_map f b xs k in (a, inr ka, kb)
  ]

  pub flat_map-mem :
      (f : A → List B) (b : B) (a : A) (xs : List A) → a ∈ xs → b ∈ f a → b ∈ flat_map f xs
  flat_map-mem f b a [] m k = absurd m
  flat_map-mem f b a (x ∷ xs) (inl e) k = (mem-append b (f x) (flat_map f xs)).1 (inl (rw e at k))
  flat_map-mem f b a (x ∷ xs) (inr m) k =
      (mem-append b (f x) (flat_map f xs)).1 (inr (flat_map-mem f b a xs m k))
