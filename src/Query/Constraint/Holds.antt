-- ===== src/Query/Constraint/Holds.antt =====
-- What a global constraint says of a hit, and the code that reads captures and compares.
use montre.Prelude.{
  ℕ, ◌+◌, ◌-◌, leb, leb→le, leb→gt, ◌≤◌, ◌<◌, ◌≡◌, ◌≢◌, refl, sym, ap, ◌∙◌, ◌↔◌, ◌⊎◌, inl, inr,
  arith, ==→≡, ==→≢, Bool-cases, Option-cases, true, false, Option, some, none, some-eq-some, Text,
  text_eq, text_eq_iff, List, [], ◌∷◌,
}
use montre.Core.{Span}
use montre.Query.Ast.{GlobalConstraint, LabelAttr, CmpOp}
use montre.Query.Sequence.Hits.{Hit}
use montre.Query.Constraint.{
  key_of, captured, resolve_attr, same_text, compare_u64, is_some_true, is_some_false,
  eval_distance,
}

-- The span is that of the first capture with the label.
abbrev pub FirstCapture : Text → Span → List (Text × Span) → Type 0
FirstCapture label s [] = ⊥
FirstCapture label s ((n, t) ∷ captures) =
    ((n ≡ label) × (t ≡ s)) ⊎ ((n ≢ label) × FirstCapture label s captures)

-- The attribute of a label has a value: the layer's at the first token of the capture.
abbrev pub HasValue : (ℕ → Text → Option Text) → Hit → LabelAttr → Text → Type 0
HasValue forward h a v =
    (s : Span) × FirstCapture a.label s h.captures × (forward s.start a.attr ≡ some v)

-- The number of tokens from the end of one span to the start of another; 0 if it starts before.
abbrev pub Gap : Span → Span → ℕ → Type 0
Gap s t d = (t.start ≡ s.end + d) ⊎ ((t.start ≤ s.end) × (d ≡ 0))

abbrev pub Compares : ℕ → CmpOp → ℕ → Type 0
Compares a CmpOp.ge b = b ≤ a
Compares a CmpOp.gt b = b < a
Compares a CmpOp.le b = a ≤ b
Compares a CmpOp.lt b = a < b
Compares a CmpOp.eq b = a ≡ b
Compares a CmpOp.ne b = a ≢ b

-- What a constraint says of a hit.
abbrev pub Holds : (ℕ → Text → Option Text) → Hit → GlobalConstraint → Type 0
Holds forward h (GlobalConstraint.eq l r) =
    (v : Text) × HasValue forward h l v × HasValue forward h r v
Holds forward h (GlobalConstraint.ne l r) =
    (v : Text) × (w : Text) × HasValue forward h l v × HasValue forward h r w × (v ≢ w)
Holds forward h (GlobalConstraint.distance l r op n) =
    (s : Span) × (t : Span) × (d : ℕ) × FirstCapture l s h.captures
    × FirstCapture r t h.captures
    × Gap s t d
    × Compares d op n

captured_iff :
    (label : Text) (s : Span) (captures : List (Text × Span))
    → (captured label captures ≡ some s) ↔ FirstCapture label s captures
unfolding captured
captured_iff label s [] = (λ e. cc, λ f. absurd f)
captured_iff label s ((n, t) ∷ captures) = elim (Bool-cases (text_eq n label)) [
  | inl e ↦
      let same = (text_eq_iff n label).0 e in
      rw e (
        λ f. inl (same, some-eq-some f),
        λ f. elim f [ inl (_, g) ↦ ap some g | inr (g, _) ↦ absurd (g same) ],
      )
  | inr e ↦
      let apart : n ≢ label = λ f. cc (e, (text_eq_iff n label).1 f) in
      let (f, g) = captured_iff label s captures in
      rw e (λ k. inr (apart, f k), λ k. elim k [ inl (l, _) ↦ absurd (apart l) | inr (_, l) ↦ g l ])
]

pub resolve_attr_iff :
    (forward : ℕ → Text → Option Text) (h : Hit) (a : LabelAttr) (v : Text)
    → (resolve_attr forward h (key_of a) ≡ some v) ↔ HasValue forward h a v
unfolding resolve_attr
resolve_attr_iff forward h a v = elim (Option-cases (captured a.label h.captures)) [
  | inl e ↦ (
    λ f. let none_found = rw (resolve_attr, e) at f in cc,
    λ (s, f, g). let found = rw e at (captured_iff a.label s h.captures).1 f in cc,
  )
  | inr (s, e) ↦
      rw (resolve_attr, e)
        (
          λ f. (s, (captured_iff a.label s h.captures).0 e, f),
          λ (t, f, g).
              let same : s ≡ t = some-eq-some (sym e ∙ (captured_iff a.label t h.captures).1 f) in
              rw same g,
        )
]

compare_u64_iff : (a : ℕ) (op : CmpOp) (b : ℕ) → (compare_u64 a op b ≡ true) ↔ Compares a op b
unfolding compare_u64
compare_u64_iff a CmpOp.ge b = ground arith
compare_u64_iff a CmpOp.gt b = ground arith
compare_u64_iff a CmpOp.le b = ground arith
compare_u64_iff a CmpOp.lt b = ground arith
compare_u64_iff a CmpOp.eq b = ground (arith, ==→≡ a b, ==→≢ a b)
compare_u64_iff a CmpOp.ne b = ground (arith, ==→≡ a b, ==→≢ a b)

-- The comparison of two values that may be missing.
pub is_some_true-same_text :
    (a b : Option Text)
    → (is_some_true (same_text a b) ≡ true) ↔ ((v : Text) × (a ≡ some v) × (b ≡ some v))
is_some_true-same_text none b = (λ e. cc, λ (v, e, f). cc)
is_some_true-same_text (some v) none = (λ e. cc, λ (v, e, f). cc)
is_some_true-same_text (some v) (some w) = (
  λ e. (v, refl, ap some (sym ((text_eq_iff v w).0 e))),
  λ (x, e, f). (text_eq_iff v w).1 (some-eq-some (e ∙ sym f)),
)

pub is_some_false-same_text :
    (a b : Option Text)
    → (is_some_false (same_text a b) ≡ true)
      ↔ ((v : Text) × (w : Text) × (a ≡ some v) × (b ≡ some w) × (v ≢ w))
is_some_false-same_text none b = (λ e. cc, λ (v, w, e, f, g). cc)
is_some_false-same_text (some v) none = (λ e. cc, λ (v, w, e, f, g). cc)
is_some_false-same_text (some v) (some w) = (
  λ e. (v, w, refl, refl, λ f. (let t = (text_eq_iff v w).1 f in let x = rw t at e in cc)),
  λ (x, y, e, f, g). elim (Bool-cases (text_eq v w)) [
    | inl t ↦ absurd (g (sym (some-eq-some e) ∙ (text_eq_iff v w).0 t ∙ some-eq-some f))
    | inr t ↦ rw t refl
  ],
)

pub eval_distance_iff :
    (h : Hit) (a b : Text) (d : ℕ)
    → (eval_distance h a b ≡ some d) ↔ (
        (s : Span) × (t : Span) × FirstCapture a s h.captures
        × FirstCapture b t h.captures
        × Gap s t d)
unfolding eval_distance
eval_distance_iff h a b d = elim (Option-cases (captured a h.captures)) [
  | inl e ↦ (
    λ f. let none_found = rw (eval_distance, e) at f in cc,
    λ (s, t, f, g, k). cc (e, (captured_iff a s h.captures).1 f),
  )
  | inr (s, e) ↦ elim (Option-cases (captured b h.captures)) [
    | inl f ↦ (
      λ g. let none_found = rw (eval_distance, e, f) at g in cc,
      λ (s, t, g, k, l). cc (f, (captured_iff b t h.captures).1 k),
    )
    | inr (t, f) ↦
        rw (eval_distance, e, f)
          (
            λ g.
                let gap : t.start - s.end ≡ d = some-eq-some g in
                (
                  s,
                  t,
                  (captured_iff a s h.captures).0 e,
                  (captured_iff b t h.captures).0 f,
                  elim (Bool-cases (leb t.start s.end)) [
                    | inl l ↦ let le = leb→le t.start s.end l in inr (le, omega (arith, gap))
                    | inr l ↦ let gt = leb→gt t.start s.end l in inl (omega (arith, gap))
                  ],
                ),
            λ (s', t', g, k, l).
                let one : s' ≡ s = some-eq-some (sym ((captured_iff a s' h.captures).1 g) ∙ e) in
                let two : t' ≡ t = some-eq-some (sym ((captured_iff b t' h.captures).1 k) ∙ f) in
                let one_end : s'.end ≡ s.end = ap (λ (x : Span). x.end) one in
                let two_start : t'.start ≡ t.start = ap (λ (x : Span). x.start) two in
                ap some (ground (arith, l, one_end, two_start)),
          )
  ]
]

-- A test of an optional number holds exactly if there is a number of which it holds.
pub distance_iff :
    (o : Option ℕ) (op : CmpOp) (n : ℕ)
    → (elim o [ none ↦ false | some d ↦ compare_u64 d op n ] ≡ true)
      ↔ ((d : ℕ) × (o ≡ some d) × Compares d op n)
distance_iff none op n = (λ e. cc, λ (d, e, c). cc)
distance_iff (some d) op n = (
  λ e. (d, refl, (compare_u64_iff d op n).0 e),
  λ (d', e, c). (compare_u64_iff d op n).1 (rw (some-eq-some e) c),
)
