-- ===== src/Query/Parser/WellFormed.antt =====
-- The queries that crates/montre-query/src/parser.rs makes.
use montre.Prelude.{
  ℕ, ◌<◌, ◌≡◌, ◌≢◌, Text, true, ◌||◌, Option, none, some, List, [], ◌∷◌, ◌∈◌, every, ◌==◌,
}
use montre.Query.Ast.{
  Constraint, LabelAttr, GlobalConstraint, Query, Queries, token, sequence, repetition, alternation,
  within, capture, within_component, within_document, project, constrained, no_queries, and_query,
}
use montre.Query.Parser.{CharClasses, is_word_char}
use montre.Query.Parser.Words.{u32_bound}
use montre.Query.Parser.Grammar.{reserved}

-- The property of every entry of a list.
abbrev pub EachOf : {A : Type 0} → (A → Type 0) → List A → Type 0
EachOf W [] = Unit {0}
EachOf W (a ∷ rest) = W a × EachOf W rest

abbrev pub Bound : Option ℕ → Type 0
Bound none = Unit {0}
Bound (some n) = n < u32_bound

-- More queries than one.
abbrev pub Several : Queries → Type 0
Several (and_query q (and_query r qs)) = Unit {0}
Several _ = ⊥

-- A layer is named.
abbrev pub IsConstraint : Constraint → Type 0
IsConstraint c = c.layer ≢ []

module _ (chars : CharClasses) where
  abbrev pub IsName : Text → Type 0
  IsName s = (s ≢ []) × (every (λ c. is_word_char chars c || c == b'.') s ≡ true)

  abbrev pub IsBareName : Text → Type 0
  IsBareName s = (s ≢ []) × (every (is_word_char chars) s ≡ true)

  abbrev pub IsLabelAttr : LabelAttr → Type 0
  IsLabelAttr a = IsBareName a.label × (a.attr ≢ [])

  abbrev pub IsGlobal : GlobalConstraint → Type 0
  IsGlobal (GlobalConstraint.eq l r) = IsLabelAttr l × IsLabelAttr r
  IsGlobal (GlobalConstraint.ne l r) = IsLabelAttr l × IsLabelAttr r
  IsGlobal (GlobalConstraint.distance l r op n) = IsName l × IsName r × (n < u32_bound)

  -- Sequences and alternations have more parts than one, names and lists are not empty, numbers
  -- are within `u32`, and no label is a reserved word.
  abbrev mutual
    pub WellFormed : Query → Type 0
    WellFormed (token p) = EachOf IsConstraint p.constraints
    WellFormed (sequence parts) = Several parts × AllWellFormed parts
    WellFormed (repetition inner least most) = WellFormed inner × (least < u32_bound) × Bound most
    WellFormed (alternation alts) = Several alts × AllWellFormed alts
    WellFormed (within inner layer) = WellFormed inner × (layer ≢ [])
    WellFormed (capture name inner) = WellFormed inner × IsName name × ¬ (name ∈ reserved)
    WellFormed (within_component inner names) = WellFormed inner × (names ≢ [])
    WellFormed (within_document inner names) = WellFormed inner × (names ≢ [])
    WellFormed (project inner alignment) = WellFormed inner × IsName alignment
    WellFormed (constrained inner cs) = WellFormed inner × (cs ≢ []) × EachOf IsGlobal cs

    pub AllWellFormed : Queries → Type 0
    AllWellFormed no_queries = Unit {0}
    AllWellFormed (and_query q qs) = WellFormed q × AllWellFormed qs
