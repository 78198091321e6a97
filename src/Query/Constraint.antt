-- ===== src/Query/Constraint.antt =====
-- crates/montre-query/src/executor.rs: the global constraints of a query, over the captures of a
-- hit. The attributes that the constraints name are collected once, and resolved once for a hit.
pub mod Holds
pub mod Meaning
use montre.Prelude.{
  ℕ, zero, suc, ◌-◌, leb, ltb, ◌==◌, if◌then◌else◌, Bool, true, false, not, ◌&&◌, Option, some,
  none, Text, text_eq, List, [], ◌∷◌, ◌++◌, map, any, every, find, get_elem?,
}
use montre.Core.{Span}
use montre.Query.Ast.{GlobalConstraint, LabelAttr, CmpOp}
use montre.Query.Sequence.Hits.{Hit}

abbrev pub Key : Type 0
Key = Text × Text

abbrev pub key_of : LabelAttr → Key
key_of a = (a.label, a.attr)

unfoldable pub key_eq : Key → Key → Bool
key_eq (l, a) (l', a') = text_eq l l' && text_eq a a'

-- `if !keys.contains(&k) { keys.push(k) }`
unfoldable pub add_key : Key → List Key → List Key
unfolding key_eq
add_key k keys = if any (key_eq k) keys then keys else keys ++ k ∷ []

unfoldable pub collect_from : List Key → List GlobalConstraint → List Key
unfolding add_key
collect_from keys [] = keys
collect_from keys (GlobalConstraint.eq l r ∷ cs) =
    collect_from (add_key (key_of r) (add_key (key_of l) keys)) cs
collect_from keys (GlobalConstraint.ne l r ∷ cs) =
    collect_from (add_key (key_of r) (add_key (key_of l) keys)) cs
collect_from keys (GlobalConstraint.distance l r op v ∷ cs) = collect_from keys cs

unfoldable pub collect_attr_keys : List GlobalConstraint → List Key
unfolding collect_from
collect_attr_keys cs = collect_from [] cs

-- `captures.iter().find(|(n, _)| n == label)?.1`: the first capture of a label.
unfoldable pub captured : Text → List (Text × Span) → Option Span
captured label [] = none
captured label ((n, s) ∷ captures) = if text_eq n label then some s else captured label captures

-- `forward` is `get_str` of the forward store.
unfoldable pub resolve_attr : (ℕ → Text → Option Text) → Hit → Key → Option Text
unfolding captured
resolve_attr forward h (label, attr) = elim (captured label h.captures) [
  | none ↦ none
  | some s ↦ forward s.start attr
]

abbrev pub resolve_attrs : (ℕ → Text → Option Text) → Hit → List Key → List (Option Text)
resolve_attrs forward h keys = map (resolve_attr forward h) keys

-- `keys.iter().position(…)`
unfoldable pub position : Key → List Key → Option ℕ
unfolding key_eq
position k [] = none
position k (j ∷ keys) =
    if key_eq j k then some 0 else elim (position k keys) [ none ↦ none | some i ↦ some (suc i) ]

-- `resolved[idx]?`: the index came from `position`, so it is in range.
abbrev pub value_at : List (Option Text) → ℕ → Option Text
value_at resolved i = elim (get_elem? resolved i) [ none ↦ none | some v ↦ v ]

abbrev pub same_text : Option Text → Option Text → Option Bool
same_text none b = none
same_text (some v) none = none
same_text (some v) (some w) = some (text_eq v w)

unfoldable pub eval_attr_compare :
    List (Option Text) → List Key → LabelAttr → LabelAttr → Option Bool
unfolding position text_eq
eval_attr_compare resolved keys left right = elim (position (key_of left) keys) [
  | none ↦ none
  | some i ↦ elim (position (key_of right) keys) [
    | none ↦ none
    | some j ↦ same_text (value_at resolved i) (value_at resolved j)
  ]
]

-- The tokens between two captures; 0 if the second starts before the first ends.
unfoldable pub eval_distance : Hit → Text → Text → Option ℕ
unfolding captured
eval_distance h a b = elim (captured a h.captures) [
  | none ↦ none
  | some s ↦ elim (captured b h.captures) [ none ↦ none | some t ↦ some (t.start - s.end) ]
]

unfoldable pub compare_u64 : ℕ → CmpOp → ℕ → Bool
compare_u64 value CmpOp.ge target = leb target value
compare_u64 value CmpOp.gt target = ltb target value
compare_u64 value CmpOp.le target = leb value target
compare_u64 value CmpOp.lt target = ltb value target
compare_u64 value CmpOp.eq target = value == target
compare_u64 value CmpOp.ne target = not (value == target)

abbrev pub is_some_true : Option Bool → Bool
is_some_true none = false
is_some_true (some b) = b

abbrev pub is_some_false : Option Bool → Bool
is_some_false none = false
is_some_false (some b) = not b

unfoldable pub evaluate_constraint : List (Option Text) → List Key → Hit → GlobalConstraint → Bool
unfolding eval_attr_compare eval_distance compare_u64
evaluate_constraint resolved keys h (GlobalConstraint.distance l r op v) =
    elim (eval_distance h l r) [ none ↦ false | some d ↦ compare_u64 d op v ]
evaluate_constraint resolved keys h (GlobalConstraint.eq l r) =
    is_some_true (eval_attr_compare resolved keys l r)
evaluate_constraint resolved keys h (GlobalConstraint.ne l r) =
    is_some_false (eval_attr_compare resolved keys l r)

unfoldable pub evaluate_constraints :
    (ℕ → Text → Option Text) → Hit → List GlobalConstraint → List Key → Bool
unfolding evaluate_constraint resolve_attr
evaluate_constraints forward h cs keys =
    every (evaluate_constraint (resolve_attrs forward h keys) keys h) cs
