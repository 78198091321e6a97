-- ===== src/Query/Constraint/Meaning.antt =====
-- The constraints evaluated over the table of the collected attributes mean what they say.
use montre.Prelude.{
  ℕ, suc, ◌≡◌, refl, sym, ap, ◌↔◌, inl, inr, arith, Bool-cases, Bool, true, false, Option, some,
  none, Text, text_eq_iff, List, [], ◌∷◌, ◌∈◌, any, every, every-mem, every-intro, ◌∙◌, any-mem,
  mem-append, subst,
}
use montre.Query.Ast.{GlobalConstraint, LabelAttr}
use montre.Query.Sequence.Hits.{Hit}
use montre.Query.Constraint.Holds.{
  Holds, resolve_attr_iff, is_some_true-same_text, is_some_false-same_text, eval_distance_iff,
  distance_iff,
}
use montre.Query.Constraint.{
  Key, key_of, key_eq, add_key, collect_from, collect_attr_keys, resolve_attr, resolve_attrs,
  position, value_at, same_text, eval_attr_compare, eval_distance, compare_u64, evaluate_constraint,
  evaluate_constraints, is_some_true, is_some_false,
}

-- One constraint on one hit, as the code tests it, but with no table of attributes.
abbrev compare_attrs : (ℕ → Text → Option Text) → Hit → LabelAttr → LabelAttr → Option Bool
compare_attrs forward h l r =
    same_text (resolve_attr forward h (key_of l)) (resolve_attr forward h (key_of r))

holds : (ℕ → Text → Option Text) → Hit → GlobalConstraint → Bool
holds forward h (GlobalConstraint.eq l r) = is_some_true (compare_attrs forward h l r)
holds forward h (GlobalConstraint.ne l r) = is_some_false (compare_attrs forward h l r)
holds forward h (GlobalConstraint.distance l r op v) = elim (eval_distance h l r) [
  | none ↦ false
  | some d ↦ compare_u64 d op v
]

key_eq_iff : (j k : Key) → (key_eq j k ≡ true) ↔ (j ≡ k)
unfolding key_eq
key_eq_iff (l, a) (l', a') = ground (arith, text_eq_iff l l', text_eq_iff a a')

mem-add_key_self : (k : Key) (keys : List Key) → k ∈ add_key k keys
unfolding add_key
mem-add_key_self k keys = elim (Bool-cases (any (key_eq k) keys)) [
  | inl e ↦
      let (j, m, t) = any-mem (key_eq k) keys e in
      rw e (subst (λ i. i ∈ keys) (sym ((key_eq_iff k j).0 t)) m)
  | inr e ↦ rw e ((mem-append k keys (k ∷ [])).1 (inr (inl refl)))
]

mem-add_key_old : (j k : Key) (keys : List Key) → j ∈ keys → j ∈ add_key k keys
unfolding add_key
mem-add_key_old j k keys m = elim (Bool-cases (any (key_eq k) keys)) [
  | inl e ↦ rw e m
  | inr e ↦ rw e ((mem-append j keys (k ∷ [])).1 (inl m))
]

mem-collect_from :
    (k : Key) (keys : List Key) (cs : List GlobalConstraint) → k ∈ keys → k ∈ collect_from keys cs
unfolding collect_from
mem-collect_from k keys [] m = m
mem-collect_from k keys (GlobalConstraint.eq l r ∷ cs) m =
    mem-collect_from k (add_key (key_of r) (add_key (key_of l) keys)) cs
      (mem-add_key_old k (key_of r) (add_key (key_of l) keys) (mem-add_key_old k (key_of l) keys m))
mem-collect_from k keys (GlobalConstraint.ne l r ∷ cs) m =
    mem-collect_from k (add_key (key_of r) (add_key (key_of l) keys)) cs
      (mem-add_key_old k (key_of r) (add_key (key_of l) keys) (mem-add_key_old k (key_of l) keys m))
mem-collect_from k keys (GlobalConstraint.distance l r op v ∷ cs) m = mem-collect_from k keys cs m

-- The attributes of a constraint are in the table.
abbrev Named : List Key → GlobalConstraint → Type 0
Named keys (GlobalConstraint.eq l r) = (key_of l ∈ keys) × (key_of r ∈ keys)
Named keys (GlobalConstraint.ne l r) = (key_of l ∈ keys) × (key_of r ∈ keys)
Named keys (GlobalConstraint.distance l r op v) = Unit {0}

named_pair :
    (l r : LabelAttr) (keys : List Key) (cs : List GlobalConstraint)
    → let table = collect_from (add_key (key_of r) (add_key (key_of l) keys)) cs in
      (key_of l ∈ table) × (key_of r ∈ table)
named_pair l r keys cs =
    let left = add_key (key_of l) keys in
    let both = add_key (key_of r) left in
    (
      mem-collect_from (key_of l) both cs
          (mem-add_key_old (key_of l) (key_of r) left (mem-add_key_self (key_of l) keys)),
      mem-collect_from (key_of r) both cs (mem-add_key_self (key_of r) left),
    )

collect_from-Named :
    (keys : List Key) (cs : List GlobalConstraint) (c : GlobalConstraint)
    → c ∈ cs
    → Named (collect_from keys cs) c
unfolding collect_from
collect_from-Named keys [] c m = absurd m
collect_from-Named keys (GlobalConstraint.eq l r ∷ cs) c (inl e) =
    subst (Named (collect_from keys (GlobalConstraint.eq l r ∷ cs))) (sym e)
      (named_pair l r keys cs)
collect_from-Named keys (GlobalConstraint.ne l r ∷ cs) c (inl e) =
    subst (Named (collect_from keys (GlobalConstraint.ne l r ∷ cs))) (sym e)
      (named_pair l r keys cs)
collect_from-Named keys (GlobalConstraint.distance l r op v ∷ cs) c (inl e) =
    subst (Named (collect_from keys (GlobalConstraint.distance l r op v ∷ cs))) (sym e) tt
collect_from-Named keys (GlobalConstraint.eq l r ∷ cs) c (inr m) =
    collect_from-Named (add_key (key_of r) (add_key (key_of l) keys)) cs c m
collect_from-Named keys (GlobalConstraint.ne l r ∷ cs) c (inr m) =
    collect_from-Named (add_key (key_of r) (add_key (key_of l) keys)) cs c m
collect_from-Named keys (GlobalConstraint.distance l r op v ∷ cs) c (inr m) =
    collect_from-Named keys cs c m

-- The value found by way of the table is the value of the attribute.
value_at-position :
    (forward : ℕ → Text → Option Text) (h : Hit) (k : Key) (keys : List Key)
    → k ∈ keys
    → (i : ℕ) × (position k keys ≡ some i)
      × (value_at (resolve_attrs forward h keys) i ≡ resolve_attr forward h k)
unfolding position
value_at-position forward h k [] m = absurd m
value_at-position forward h k (j ∷ keys) m = elim (Bool-cases (key_eq j k)) [
  | inl e ↦ (0, rw e, ap (resolve_attr forward h) ((key_eq_iff j k).0 e))
  | inr e ↦ elim m [
    | inl same ↦ cc ((key_eq_iff j k).1 (sym same))
    | inr rest ↦
        let (i, found, v) = value_at-position forward h k keys rest in (suc i, rw (e, found), v)
  ]
]

module _ (forward : ℕ → Text → Option Text) (h : Hit) (keys : List Key) where
  eval_attr_compare-Named :
      (l r : LabelAttr)
      → key_of l ∈ keys
      → key_of r ∈ keys
      → eval_attr_compare (resolve_attrs forward h keys) keys l r ≡ compare_attrs forward h l r
  unfolding eval_attr_compare
  eval_attr_compare-Named l r ml mr =
      let (i, fi, vi) = value_at-position forward h (key_of l) keys ml in
      let (j, fj, vj) = value_at-position forward h (key_of r) keys mr in
      ground (arith, fi, fj, vi, vj)

  evaluate_constraint-Named :
      (c : GlobalConstraint)
      → Named keys c
      → evaluate_constraint (resolve_attrs forward h keys) keys h c ≡ holds forward h c
  unfolding evaluate_constraint holds
  evaluate_constraint-Named (GlobalConstraint.eq l r) (ml, mr) =
      ap is_some_true (eval_attr_compare-Named l r ml mr)
  evaluate_constraint-Named (GlobalConstraint.ne l r) (ml, mr) =
      ap is_some_false (eval_attr_compare-Named l r ml mr)
  evaluate_constraint-Named (GlobalConstraint.distance l r op v) n = refl

  every-Named :
      (cs : List GlobalConstraint)
      → ((c : GlobalConstraint) → c ∈ cs → Named keys c)
      → every (evaluate_constraint (resolve_attrs forward h keys) keys h) cs
        ≡ every (holds forward h) cs
  every-Named [] n = refl
  every-Named (c ∷ cs) n =
      rw (evaluate_constraint-Named c (n c (inl refl)), every-Named cs (λ d m. n d (inr m)))

holds_iff :
    (forward : ℕ → Text → Option Text) (h : Hit) (c : GlobalConstraint)
    → (holds forward h c ≡ true) ↔ Holds forward h c
unfolding holds
holds_iff forward h (GlobalConstraint.eq l r) =
    let (f, g) =
      is_some_true-same_text (resolve_attr forward h (key_of l))
        (resolve_attr forward h (key_of r)) in
    (
      λ e.
          let (v, a, b) = f e in
          (v, (resolve_attr_iff forward h l v).0 a, (resolve_attr_iff forward h r v).0 b),
      λ (v, a, b).
          g (v, (resolve_attr_iff forward h l v).1 a, (resolve_attr_iff forward h r v).1 b),
    )
holds_iff forward h (GlobalConstraint.ne l r) =
    let (f, g) =
      is_some_false-same_text (resolve_attr forward h (key_of l))
        (resolve_attr forward h (key_of r)) in
    (
      λ e.
          let (v, w, a, b, k) = f e in
          (v, w, (resolve_attr_iff forward h l v).0 a, (resolve_attr_iff forward h r w).0 b, k),
      λ (v, w, a, b, k).
          g (v, w, (resolve_attr_iff forward h l v).1 a, (resolve_attr_iff forward h r w).1 b, k),
    )
holds_iff forward h (GlobalConstraint.distance l r op n) =
    let (f, g) = distance_iff (eval_distance h l r) op n in
    (
      λ e.
          let (d, k, c) = f e in
          let (s, t, a, b, gap) = (eval_distance_iff h l r d).0 k in (s, t, d, a, b, gap, c),
      λ (s, t, d, a, b, gap, c). g (d, (eval_distance_iff h l r d).1 (s, t, a, b, gap), c),
    )

-- With the keys that `collect_attr_keys` collects from the constraints, a hit passes
-- `evaluate_constraints` exactly when every constraint holds of it. `a.x = b.y` holds if the first
-- captures of both labels are there and the layers have the same value at their first tokens, and
-- `a.x != b.y` if they have two different values; so a label that was not captured, or a token
-- without a value, makes both fail. A comparison of `distance(a, b)` with a number holds if it does
-- of the number of tokens from the end of the first capture of `a` to the start of that of `b`,
-- which is 0 if that starts before.
pub evaluate_constraints-Holds :
    (forward : ℕ → Text → Option Text) (h : Hit) (cs : List GlobalConstraint)
    → (evaluate_constraints forward h cs (collect_attr_keys cs) ≡ true)
      ↔ ((c : GlobalConstraint) → c ∈ cs → Holds forward h c)
unfolding evaluate_constraints collect_attr_keys
evaluate_constraints-Holds forward h cs =
    let e = every-Named forward h (collect_from [] cs) cs (collect_from-Named [] cs) in
    (
      λ t c m. (holds_iff forward h c).0 (every-mem (holds forward h) c cs (sym e ∙ t) m),
      λ all. e ∙ every-intro (holds forward h) cs (λ c m. (holds_iff forward h c).1 (all c m)),
    )
