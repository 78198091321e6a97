-- ===== src/Index/Inverted/Merge.antt =====
-- crates/montre-index/src/inverted.rs: the positions of an index that another is merged into.
use mathlib.Core.List.{Permᴰ}
use mathlib.Core.List.Permᴰ.{symm}
use montre.Prelude.{
  ◌≡◌, ◌≢◌, ◌↔◌, ◌⊎◌, refl, sym, ap, subst, inl, inr, ℕ, ◌+◌, Bool-cases, Option-cases, Text,
  text_eq, text_eq_iff, List, [], ◌∷◌, ◌∈◌, mem-perm,
}
use montre.Core.{as_u32}
use montre.Index.{Crates}
use montre.Index.Corpus.{lookup}
use montre.Index.Maps.{or_default, insert_key, lookup-insert_key_other, lookup-mem}
use montre.Index.Maps.Once.{Once, mem-lookup}
use montre.Index.Inverted.{
  Values, InMemoryInverted, shifted, merge_values, merge_layers, merge_from,
}
use montre.Index.Inverted.Values.{mem-empty, mem-shifted, of_value, positions, mem-merge_values}

module _ (crates : Crates) (order : (V : Type 0) → List (Text × V) → List (Text × V)) where
  -- A shifted position of a value in one of the layers.
  abbrev Among : ℕ → InMemoryInverted crates → Text → Text → ℕ → Type 0
  Among offset layers layer value p =
      (values : Values crates) × ((layer, values) ∈ layers)
      × (b : crates.Bitmap) × ((value, b) ∈ order crates.Bitmap values)
      × (p ∈ crates.iter (shifted crates offset b))

  mem-merge_layers :
      (offset : ℕ) (layers m : InMemoryInverted crates) (layer value : Text) (p : ℕ)
      → (p ∈ positions crates (merge_layers crates order offset layers m) layer value)
        ↔ ((p ∈ positions crates m layer value) ⊎ Among offset layers layer value p)
  unfolding merge_layers
  mem-merge_layers offset [] m layer value p =
      (inl, λ k. elim k [ inl n ↦ n | inr (_, n, _, _, _) ↦ absurd n ])
  mem-merge_layers offset ((j, values) ∷ layers) m layer value p =
      let merged =
        merge_values crates offset (order crates.Bitmap values) (or_default (lookup j m)) in
      let (f, g) = mem-merge_layers offset layers (insert_key j merged m) layer value p in
      let (h, i) =
        mem-merge_values crates offset (order crates.Bitmap values) (or_default (lookup j m)) value
          p in
      elim (Bool-cases (text_eq j layer)) [
        | inl e ↦
            let same : layer ≡ j = sym ((text_eq_iff j layer).0 e) in
            let now : positions crates (insert_key j merged m) layer value
                ≡ of_value crates merged value =
              rw e refl in
            let before : positions crates m layer value
                ≡ of_value crates (or_default (lookup j m)) value =
              rw same refl in
            (
              λ k. elim (f k) [
                | inl n ↦ elim (h (subst (λ ps. p ∈ ps) now n)) [
                  | inl l ↦ inl (subst (λ ps. p ∈ ps) (sym before) l)
                  | inr (b, l, x) ↦ inr (values, inl (rw same refl), b, l, x)
                ]
                | inr (vs, n, b, l, x) ↦ inr (vs, inr n, b, l, x)
              ],
              λ k. elim k [
                | inl n ↦
                    g (
                      inl
                        (subst (λ ps. p ∈ ps) (sym now) (i (inl (subst (λ ps. p ∈ ps) before n)))))
                | inr (vs, inl d, b, l, x) ↦
                    let one : vs ≡ values = ap (λ x. x.1) d in
                    let l' = subst (λ vs. (value, b) ∈ order crates.Bitmap vs) one l in
                    g (inl (subst (λ ps. p ∈ ps) (sym now) (i (inr (b, l', x)))))
                | inr (vs, inr n, b, l, x) ↦ g (inr (vs, n, b, l, x))
              ],
            )
        | inr e ↦
            let apart : layer ≢ j = λ f. cc (e, (text_eq_iff j layer).1 (sym f)) in
            let now : positions crates (insert_key j merged m) layer value
                ≡ positions crates m layer value =
              ap (λ found. of_value crates (or_default found) value)
                (lookup-insert_key_other layer j merged m apart) in
            (
              λ k. elim (f k) [
                | inl n ↦ inl (subst (λ ps. p ∈ ps) now n)
                | inr (vs, n, b, l, x) ↦ inr (vs, inr n, b, l, x)
              ],
              λ k. elim k [
                | inl n ↦ g (inl (subst (λ ps. p ∈ ps) (sym now) n))
                | inr (vs, inl d, b, l, x) ↦ absurd (apart (ap (λ x. x.0) d))
                | inr (vs, inr n, b, l, x) ↦ g (inr (vs, n, b, l, x))
              ],
            )
      ]

  -- Where no layer of the other index and no value of one of its layers stands twice, merge_from, in
  -- whatever order the hash maps iterate, leaves at each value of a layer the positions of before and
  -- those of the other index with the offset added in 32 bits, and no others.
  pub merge_from-positions :
      (other m : InMemoryInverted crates) (offset : ℕ) (layer value : Text) (p : ℕ)
      → ((V : Type 0) (entries : List (Text × V)) → Permᴰ (order V entries) entries)
      → Once other
      → ((j : Text) (values : Values crates) → (j, values) ∈ other → Once values)
      → (p ∈ positions crates (merge_from crates order other offset m) layer value) ↔ (
          (p ∈ positions crates m layer value)
          ⊎ ((q : ℕ) × (q ∈ positions crates other layer value) × (p ≡ as_u32 (q + offset))))
  unfolding merge_from
  merge_from-positions other m offset layer value p perm once each =
      let (f, g) = mem-merge_layers offset (order (Values crates) other) m layer value p in
      (
        λ k. elim (f k) [
          | inl n ↦ inl n
          | inr (values, n, b, l, h) ↦
              let (q, a, e) = (mem-shifted crates offset b p).0 h in
              let n' = mem-perm (layer, values) (perm (Values crates) other) n in
              let l' = mem-perm (value, b) (perm crates.Bitmap values) l in
              inr (
                q,
                rw
                    (
                      mem-lookup layer values other once n',
                      of_value,
                      mem-lookup value b values (each layer values n') l',
                    )
                    a,
                e,
              )
        ],
        λ k. elim k [
          | inl n ↦ g (inl n)
          | inr (q, a, e) ↦ elim (Option-cases (lookup layer other)) [
            | inl n ↦ absurd (mem-empty crates q (rw n at a))
            | inr (values, n) ↦
                let a' = rw n at a in
                elim (Option-cases (lookup value values)) [
                  | inl l ↦ absurd (mem-empty crates q (rw (of_value, l) at a'))
                  | inr (b, l) ↦ g (
                      inr (
                        values,
                        mem-perm (layer, values) (symm (perm (Values crates) other))
                            (lookup-mem layer values other n),
                        b,
                        mem-perm (value, b) (symm (perm crates.Bitmap values))
                            (lookup-mem value b values l),
                        (mem-shifted crates offset b p).1 (q, rw (of_value, l) at a', e),
                      ))
                ]
          ]
        ],
      )
