-- ===== src/Index/Spans/Merge.antt =====
-- crates/montre-index/src/spans.rs: the spans of an index that another is merged into.
use mathlib.Core.List.{Permᴰ}
use mathlib.Core.List.Permᴰ.{symm}
use montre.Prelude.{
  ◌≡◌, ◌≢◌, refl, sym, ap, ◌∙◌, inl, inr, arith, ℕ, zero, suc, ◌+◌, ◌≤◌, Bool-cases, some,
  some-eq-some, Text, text_eq, text_eq_iff, List, [], ◌∷◌, ◌++◌, map, get_elem?, length,
}
use montre.Core.{Span}
use montre.Core.Search.{Ordered}
use montre.Index.Maps.{or_default, insert_key, text_eq_refl, lookup-remove_key_other}
use montre.Index.Maps.Once.{Once, lookup-perm}
use montre.Index.Spans.{InMemorySpans, shift, merge_layers, merge_from, containing_with_index}
use montre.Index.Spans.Layers.{layer_spans, containing_iff}

append_nil : {A : Type 0} (xs : List A) → xs ++ [] ≡ xs
append_nil [] = refl
append_nil (x ∷ xs) = ap (◌∷◌ x) (append_nil xs)

merge_layers-layer_spans :
    (offset : ℕ) (layers m : InMemorySpans) (k : Text)
    → Once layers
    → layer_spans (merge_layers offset layers m) k
      ≡ layer_spans m k ++ map (shift offset) (layer_spans layers k)
unfolding merge_layers
merge_layers-layer_spans offset [] m k o = sym (append_nil (layer_spans m k))
merge_layers-layer_spans offset ((layer, spans) ∷ layers) m k (free, o) =
    let added = layer_spans m layer ++ map (shift offset) spans in
    let rest = merge_layers-layer_spans offset layers (insert_key layer added m) k o in
    elim (Bool-cases (text_eq layer k)) [
      | inl e ↦
          let same = (text_eq_iff layer k).0 e in
          rest ∙ rw (← same, text_eq_refl layer, free) (append_nil added)
      | inr e ↦
          let apart : k ≢ layer = λ f. cc (e, (text_eq_iff layer k).1 (sym f)) in
          rest ∙ rw (e, lookup-remove_key_other k layer m apart) refl
    ]

-- The spans of a layer after a merge: those of before, then the other's, shifted.
merge_from-layer_spans :
    (order : InMemorySpans → InMemorySpans) (other m : InMemorySpans) (offset : ℕ) (k : Text)
    → Permᴰ (order other) other
    → Once other
    → layer_spans (merge_from order other offset m) k
      ≡ layer_spans m k ++ map (shift offset) (layer_spans other k)
unfolding merge_from
merge_from-layer_spans order other m offset k perm o =
    let (o', same) = lookup-perm (symm perm) o in
    merge_layers-layer_spans offset (order other) m k o'
    ∙ ap (λ found. layer_spans m k ++ map (shift offset) (or_default found)) (sym (same k))

Ordered-shift :
    (n offset : ℕ) (spans : List Span)
    → Ordered n spans
    → Ordered (n + offset) (map (shift offset) spans)
Ordered-shift n offset [] o = o
Ordered-shift n offset (s ∷ spans) (a, b, o) =
    (omega (arith, a), omega (arith, b), Ordered-shift s.end offset spans o)

Ordered-from : (n m : ℕ) (spans : List Span) → n ≤ m → Ordered m spans → Ordered n spans
Ordered-from n m [] h o = o
Ordered-from n m (s ∷ spans) h (a, b, o) = (omega (arith, h, a), b, o)

-- The spans end at or before a position.
abbrev pub EndBy : ℕ → List Span → Type 0
EndBy n [] = Unit {0}
EndBy n (s ∷ spans) = (s.end ≤ n) × EndBy n spans

Ordered-append :
    (n m : ℕ) (spans more : List Span)
    → n ≤ m
    → Ordered n spans
    → EndBy m spans
    → Ordered m more
    → Ordered n (spans ++ more)
Ordered-append n m [] more h o b p = Ordered-from n m more h p
Ordered-append n m (s ∷ spans) more h (x, y, o) (c, b) p =
    (x, y, Ordered-append s.end m spans more c o b p)

get_elem?-append_left :
    {A : Type 0} (xs ys : List A) (i : ℕ) {x : A}
    → get_elem? xs i ≡ some x
    → get_elem? (xs ++ ys) i ≡ some x
get_elem?-append_left [] ys i e = cc
get_elem?-append_left (z ∷ xs) ys zero e = e
get_elem?-append_left (z ∷ xs) ys (suc i) e = get_elem?-append_left xs ys i e

get_elem?-append_right :
    {A : Type 0} (xs ys : List A) (i j : ℕ) {y : A}
    → j ≡ length xs + i
    → get_elem? ys i ≡ some y
    → get_elem? (xs ++ ys) j ≡ some y
get_elem?-append_right [] ys i j h e = let same : j ≡ i = omega (arith, h) in rw same e
get_elem?-append_right (x ∷ xs) ys i zero h e = absurd (omega (arith, h))
get_elem?-append_right (x ∷ xs) ys i (suc j) h e =
    get_elem?-append_right xs ys i j (omega (arith, h)) e

get_elem?-map :
    {A B : Type 0} (f : A → B) (xs : List A) (i : ℕ) {x : A}
    → get_elem? xs i ≡ some x
    → get_elem? (map f xs) i ≡ some (f x)
get_elem?-map f [] i e = cc
get_elem?-map f (x ∷ xs) zero e = ap some (ap f (some-eq-some e))
get_elem?-map f (x ∷ xs) (suc i) e = get_elem?-map f xs i e

-- Where the spans of a layer are in order in two indexes, and those of the first end at or before
-- the offset, merge_from, in whatever order the hash map of the other iterates, leaves the spans of
-- the layer in order; a span that was found at a position of the first index is found there with
-- the same number, and one that was found at a position of the other is found, shifted by the offset
-- and numbered after the spans of the first, at the position shifted by the offset.
pub merge_from-containing_with_index :
    (order : InMemorySpans → InMemorySpans) (other m : InMemorySpans) (offset : ℕ) (layer : Text)
    → Permᴰ (order other) other
    → Once other
    → Ordered 0 (layer_spans m layer)
    → Ordered 0 (layer_spans other layer)
    → EndBy offset (layer_spans m layer)
    → let after = merge_from order other offset m in
      Ordered 0 (layer_spans after layer)
      × ((position i : ℕ) (s : Span)
          → containing_with_index m layer position ≡ some (i, s)
          → containing_with_index after layer position ≡ some (i, s))
      × ((position i : ℕ) (s : Span)
          → containing_with_index other layer position ≡ some (i, s)
          → containing_with_index after layer (position + offset)
            ≡ some (length (layer_spans m layer) + i, shift offset s))
merge_from-containing_with_index order other m offset layer perm once o p b =
    let after = merge_from order other offset m in
    let old = layer_spans m layer in
    let new = map (shift offset) (layer_spans other layer) in
    let e = merge_from-layer_spans order other m offset layer perm once in
    let shifted = Ordered-shift 0 offset (layer_spans other layer) p in
    let all : Ordered 0 (layer_spans after layer) = rw e (
      Ordered-append 0 offset old new (omega arith) o b
        (Ordered-from offset (0 + offset) new (omega arith) shifted)) in
    (
      all,
      λ position i s f.
          let (g, around) = (containing_iff 0 m layer position i s o).0 f in
          (containing_iff 0 after layer position i s all).1
            (rw e (get_elem?-append_left old new i g), around),
      λ position i s f.
          let (g, (a, c)) = (containing_iff 0 other layer position i s p).0 f in
          (containing_iff 0 after layer (position + offset) (length old + i) (shift offset s) all).1
            (
              rw e (
                  get_elem?-append_right old new i (length old + i) refl
                    (get_elem?-map (shift offset) (layer_spans other layer) i g)),
              (omega (arith, a), omega (arith, c)),
            ),
    )
