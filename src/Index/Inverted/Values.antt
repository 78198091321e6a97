-- ===== src/Index/Inverted/Values.antt =====
-- crates/montre-index/src/inverted.rs: the positions of a layer that another is merged into.
use montre.Prelude.{
  ◌≡◌, ◌≢◌, ◌↔◌, ◌⊎◌, refl, sym, ap, subst, ◌∙◌, inl, inr, ℕ, ◌+◌, Bool-cases, Option-cases, some,
  none, Text, text_eq, text_eq_iff, List, [], ◌∷◌, ◌∈◌, map, mem-map, map-mem,
}
use montre.Core.{as_u32}
use montre.Index.{Crates}
use montre.Index.Corpus.{lookup}
use montre.Index.Maps.{or_default, lookup-insert_key, lookup-insert_key_other}
use montre.Index.Inverted.{
  Values, InMemoryInverted, or_empty, insert_all, shifted, merge_value, merge_values,
}

module _ (crates : Crates) where
  pub mem-empty : (p : ℕ) → ¬ (p ∈ crates.iter crates.empty)
  mem-empty p m = subst (λ ps. p ∈ ps) crates.iter-empty m

  mem-insert_all :
      (ps : List ℕ) (b : crates.Bitmap) (p : ℕ)
      → (p ∈ crates.iter (insert_all crates ps b))
        ↔ ((p ∈ crates.iter b) ⊎ ((q : ℕ) × (q ∈ ps) × (p ≡ as_u32 q)))
  unfolding insert_all
  mem-insert_all [] b p = (inl, λ k. elim k [ inl m ↦ m | inr (q, m, e) ↦ absurd m ])
  mem-insert_all (r ∷ ps) b p =
      let (f, g) = mem-insert_all ps (crates.insert (as_u32 r) b) p in
      let (h, i) = crates.iter-insert (as_u32 r) b p in
      (
        λ m. elim (f m) [
          | inl k ↦ elim (h k) [ inl e ↦ inr (r, inl refl, e) | inr l ↦ inl l ]
          | inr (q, k, e) ↦ inr (q, inr k, e)
        ],
        λ m. elim m [
          | inl k ↦ g (inl (i (inr k)))
          | inr (q, inl e, l) ↦ g (inl (i (inl (l ∙ ap as_u32 e))))
          | inr (q, inr k, l) ↦ g (inr (q, k, l))
        ],
      )

  -- The positions of a bitmap, shifted.
  pub mem-shifted :
      (offset : ℕ) (b : crates.Bitmap) (p : ℕ)
      → (p ∈ crates.iter (shifted crates offset b))
        ↔ ((q : ℕ) × (q ∈ crates.iter b) × (p ≡ as_u32 (q + offset)))
  unfolding shifted
  mem-shifted offset b p =
      let (f, g) = mem-insert_all (map (λ q. q + offset) (crates.iter b)) crates.empty p in
      (
        λ m. elim (f m) [
          | inl k ↦ absurd (mem-empty p k)
          | inr (r, k, e) ↦
              let (q, l, h) = mem-map (λ q. q + offset) r (crates.iter b) k in
              (q, l, e ∙ ap as_u32 h)
        ],
        λ (q, k, e). g (inr (q + offset, map-mem (λ q. q + offset) q (crates.iter b) k, e)),
      )

  -- The positions of a value, none where it is missing.
  abbrev pub of_value : Values crates → Text → List ℕ
  of_value values value = crates.iter (or_empty crates (lookup value values))

  abbrev pub positions : InMemoryInverted crates → Text → Text → List ℕ
  positions m layer = of_value (or_default (lookup layer m))

  lookup-merge_value_new :
      (offset : ℕ) (value : Text) (b : crates.Bitmap) (values : Values crates)
      → lookup value values ≡ none
      → lookup value (merge_value crates offset value b values) ≡ some (shifted crates offset b)
  unfolding merge_value
  lookup-merge_value_new offset value b values f =
      rw (merge_value, f) (lookup-insert_key value (shifted crates offset b) values)

  lookup-merge_value_old :
      (offset : ℕ) (value : Text) (b old : crates.Bitmap) (values : Values crates)
      → lookup value values ≡ some old
      → lookup value (merge_value crates offset value b values)
        ≡ some (crates.union old (shifted crates offset b))
  unfolding merge_value
  lookup-merge_value_old offset value b old values f =
      rw (merge_value, f)
        (lookup-insert_key value (crates.union old (shifted crates offset b)) values)

  lookup-merge_value_other :
      (offset : ℕ) (value k : Text) (b : crates.Bitmap) (values : Values crates)
      → k ≢ value
      → lookup k (merge_value crates offset value b values) ≡ lookup k values
  unfolding merge_value
  lookup-merge_value_other offset value k b values apart =
      elim (Option-cases (lookup value values)) [
        | inl f ↦ rw (merge_value, f) (lookup-insert_key_other k value _ values apart)
        | inr (old, f) ↦ rw (merge_value, f) (lookup-insert_key_other k value _ values apart)
      ]

  mem-merge_value :
      (offset : ℕ) (value k : Text) (b : crates.Bitmap) (values : Values crates) (p : ℕ)
      → (p ∈ of_value (merge_value crates offset value b values) k)
        ↔ ((p ∈ of_value values k) ⊎ ((k ≡ value) × (p ∈ crates.iter (shifted crates offset b))))
  mem-merge_value offset value k b values p = elim (Bool-cases (text_eq value k)) [
    | inl e ↦
        let same = sym ((text_eq_iff value k).0 e) in
        elim (Option-cases (lookup value values)) [
          | inl f ↦
              rw (of_value, same, lookup-merge_value_new offset value b values f, f)
                (
                  λ m. inr (refl, m),
                  λ m. elim m [ inl n ↦ absurd (mem-empty p n) | inr (_, n) ↦ n ],
                )
          | inr (old, f) ↦
              let (g, h) = crates.iter-union old (shifted crates offset b) p in
              rw (of_value, same, lookup-merge_value_old offset value b old values f, f)
                (
                  λ m. elim (g m) [ inl n ↦ inl n | inr n ↦ inr (refl, n) ],
                  λ m. elim m [ inl n ↦ h (inl n) | inr (_, n) ↦ h (inr n) ],
                )
        ]
    | inr e ↦
        let apart : k ≢ value = λ f. cc (e, (text_eq_iff value k).1 (sym f)) in
        rw (of_value, lookup-merge_value_other offset value k b values apart)
          (inl, λ m. elim m [ inl n ↦ n | inr (f, _) ↦ absurd (apart f) ])
  ]

  pub mem-merge_values :
      (offset : ℕ) (more values : Values crates) (k : Text) (p : ℕ)
      → (p ∈ of_value (merge_values crates offset more values) k) ↔ (
          (p ∈ of_value values k)
          ⊎ ((b : crates.Bitmap) × ((k, b) ∈ more) × (p ∈ crates.iter (shifted crates offset b))))
  unfolding merge_values
  mem-merge_values offset [] values k p =
      (inl, λ m. elim m [ inl n ↦ n | inr (_, n, _) ↦ absurd n ])
  mem-merge_values offset ((value, b) ∷ more) values k p =
      let (f, g) = mem-merge_values offset more (merge_value crates offset value b values) k p in
      let (h, i) = mem-merge_value offset value k b values p in
      (
        λ m. elim (f m) [
          | inl n ↦ elim (h n) [ inl l ↦ inl l | inr (e, l) ↦ inr (b, inl (rw e refl), l) ]
          | inr (c, n, l) ↦ inr (c, inr n, l)
        ],
        λ m. elim m [
          | inl n ↦ g (inl (i (inl n)))
          | inr (c, inl e, l) ↦
              let same : c ≡ b = ap (λ x. x.1) e in
              g (
                inl (
                  i (
                    inr (
                      ap (λ x. x.0) e,
                      subst (λ x. p ∈ crates.iter (shifted crates offset x)) same l,
                    ))))
          | inr (c, inr n, l) ↦ g (inr (c, n, l))
        ],
      )
