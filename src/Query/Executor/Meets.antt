-- ===== src/Query/Executor/Meets.antt =====
-- What it is for a token to meet the constraints of a pattern, in terms of the inverted index.
use montre.Prelude.{
  ℕ, ◌<◌, ◌≡◌, sym, ◌∙◌, ◌↔◌, ◌⊎◌, inl, inr, arith, Bool-cases, Bool, true, subst, some-eq-some,
  some, Text, List, [], ◌∷◌, ◌∈◌, mem-sort_dedup, sort_dedup, mem-append,
}
use montre.Index.{Crates}
use montre.Index.Corpus.{Corpus}
use montre.Query.{ok}
use montre.Query.Ast.{Constraint, ConstraintOp, ConstraintValue}
use montre.Query.Plan.{PlanNode}
use montre.Query.Planner.{scan_node}
use montre.Query.Filter.{hits_at}
use montre.Query.Executor.{
  posting, regex_positions, scan_regex_positions, layer_values, execute_node,
}
use montre.Query.Executor.Sets.{}

module _ (x : Crates) (corpus : Corpus x.Bitmap) where
  -- The index has no position past the last token.
  abbrev pub IsIndexed : Type 0
  IsIndexed =
      (layer value : Text) (p : ℕ) → p ∈ posting x corpus layer value → p < corpus.token_count

  -- A value of the layer that matches is posted at the position.
  abbrev pub MatchesAt : (Text → Bool) → Text → List Text → ℕ → Type 0
  MatchesAt matches layer [] p = ⊥
  MatchesAt matches layer (v ∷ vs) p =
      (matches v ≡ true) × (p ∈ posting x corpus layer v) ⊎ MatchesAt matches layer vs p

  -- The token at the position has the value of the constraint, or one that matches it.
  abbrev pub HasValue : Text → ConstraintValue → ℕ → Type 0
  HasValue layer (ConstraintValue.literal v) p = p ∈ posting x corpus layer v
  HasValue layer (ConstraintValue.regex r) p =
      (matches : Text → Bool) × (x.regex_new r ≡ some matches)
      × MatchesAt matches layer (layer_values x corpus layer) p

  -- The regular expressions of the constraints compile.
  abbrev pub Compiles : ConstraintValue → Type 0
  Compiles (ConstraintValue.literal v) = Unit {0}
  Compiles (ConstraintValue.regex r) = (matches : Text → Bool) × (x.regex_new r ≡ some matches)

  abbrev pub AllCompile : List Constraint → Type 0
  AllCompile [] = Unit {0}
  AllCompile (c ∷ cs) = Compiles c.value × AllCompile cs

  abbrev pub EqPart : ConstraintOp → Type 0 → Type 0
  EqPart ConstraintOp.eq P = P
  EqPart ConstraintOp.ne P = Unit

  abbrev pub NePart : ConstraintOp → Type 0 → Type 0
  NePart ConstraintOp.eq P = ⊥
  NePart ConstraintOp.ne P = P

  abbrev pub MeetsOp : ConstraintOp → Type 0 → Type 0
  MeetsOp ConstraintOp.eq P = P
  MeetsOp ConstraintOp.ne P = ¬ P

  -- The token at the position meets each constraint.
  abbrev pub Meets : List Constraint → ℕ → Type 0
  Meets [] p = Unit {0}
  Meets (c ∷ cs) p = MeetsOp c.op (HasValue c.layer c.value p) × Meets cs p

  mem-regex_positions :
      (matches : Text → Bool) (layer : Text) (vs : List Text) (p : ℕ)
      → (p ∈ regex_positions x corpus (λ ps. ps) matches layer vs) ↔ MatchesAt matches layer vs p
  unfolding regex_positions
  mem-regex_positions matches layer [] p = ground arith
  mem-regex_positions matches layer (v ∷ vs) p = elim (Bool-cases (matches v)) [
    | inl e ↦ rw e (
        ground (
          arith,
          mem-append p (posting x corpus layer v)
              (regex_positions x corpus (λ ps. ps) matches layer vs),
          mem-regex_positions matches layer vs p,
        ))
    | inr e ↦ rw e (ground (arith, mem-regex_positions matches layer vs p))
  ]

  MatchesAt-lt :
      (matches : Text → Bool) (layer : Text) (vs : List Text) (p : ℕ)
      → IsIndexed
      → MatchesAt matches layer vs p
      → p < corpus.token_count
  MatchesAt-lt matches layer [] p indexed m = absurd m
  MatchesAt-lt matches layer (v ∷ vs) p indexed (inl (t, m)) = indexed layer v p m
  MatchesAt-lt matches layer (v ∷ vs) p indexed (inr m) = MatchesAt-lt matches layer vs p indexed m

  pub HasValue-lt :
      (layer : Text) (v : ConstraintValue) (p : ℕ)
      → IsIndexed
      → HasValue layer v p
      → p < corpus.token_count
  HasValue-lt layer (ConstraintValue.literal v) p indexed m = indexed layer v p m
  HasValue-lt layer (ConstraintValue.regex r) p indexed (matches, e, m) =
      MatchesAt-lt matches layer (layer_values x corpus layer) p indexed m

  -- A node whose hits are single tokens, at the given positions.
  abbrev pub Yields : PlanNode → List ℕ → Type 0
  Yields node ps = execute_node x corpus node ≡ ok (hits_at ps)

  pub scan_node-value :
      (c : Constraint) (v : ConstraintValue)
      → c.value ≡ v
      → Compiles v
      → (ps : List ℕ) × Yields (scan_node c) ps × ((p : ℕ) → (p ∈ ps) ↔ HasValue c.layer v p)
  unfolding scan_node execute_node scan_regex_positions
  scan_node-value c (ConstraintValue.literal v) e fine =
      (posting x corpus c.layer v, ground arith, λ p. (λ m. m, λ m. m))
  scan_node-value c (ConstraintValue.regex r) e (matches, compiled) =
      let vs = layer_values x corpus c.layer in
      let found = regex_positions x corpus (λ ps. ps) matches c.layer vs in
      (
        sort_dedup found,
        ground (arith, e, compiled),
        λ p.
            let dedup = mem-sort_dedup p found in
            let scan = mem-regex_positions matches c.layer vs p in
            (
              λ m. (matches, compiled, scan.0 (dedup.0 m)),
              λ (other, e', m).
                  let same : other ≡ matches = some-eq-some (sym e' ∙ compiled) in
                  dedup.1 (scan.1 (subst (λ f. MatchesAt f c.layer vs p) same m)),
            ),
      )

  -- The positive constraints hold of the token; one of the negated values does.
  abbrev pub MeetsEq : List Constraint → ℕ → Type 0
  MeetsEq [] p = Unit {0}
  MeetsEq (c ∷ cs) p = EqPart c.op (HasValue c.layer c.value p) × MeetsEq cs p

  abbrev pub FailsNe : List Constraint → ℕ → Type 0
  FailsNe [] p = ⊥
  FailsNe (c ∷ cs) p = NePart c.op (HasValue c.layer c.value p) ⊎ FailsNe cs p

  -- One more constraint, on either side.
  split_op :
      (op : ConstraintOp) (P M A B : Type 0)
      → M ↔ (A × ¬ B)
      → (MeetsOp op P × M) ↔ ((EqPart op P × A) × ¬ (NePart op P ⊎ B))
  split_op ConstraintOp.eq P M A B h = (
    λ (q, m). ((q, (h.0 m).0), λ b. elim b [ inl k ↦ k | inr k ↦ (h.0 m).1 k ]),
    λ ((q, a), n). (q, h.1 (a, λ b. n (inr b))),
  )
  split_op ConstraintOp.ne P M A B h = (
    λ (q, m). ((tt, (h.0 m).0), λ b. elim b [ inl k ↦ q k | inr k ↦ (h.0 m).1 k ]),
    λ ((u, a), n). (λ q. n (inl q), h.1 (a, λ b. n (inr b))),
  )

  pub Meets-iff : (cs : List Constraint) (p : ℕ) → Meets cs p ↔ (MeetsEq cs p × ¬ FailsNe cs p)
  Meets-iff [] p = (λ m. (tt, λ f. f), λ m. tt)
  Meets-iff (c ∷ cs) p = split_op c.op _ _ _ _ (Meets-iff cs p)
