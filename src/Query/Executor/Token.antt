-- ===== src/Query/Executor/Token.antt =====
-- A token pattern, planned and executed: the hits are the tokens that meet its constraints.
use montre.Prelude.{ℕ, ◌+◌, ◌<◌, ◌≡◌, refl, ap, ◌↔◌, inl, inr, arith, List, [], ◌∷◌, ◌∈◌, keep, not}
use montre.Index.{Crates}
use montre.Index.Corpus.{Corpus}
use montre.Query.{ok}
use montre.Query.Ast.{Constraint, TokenPattern}
use montre.Query.Plan.{PlanNode, Nodes, union, difference, no_nodes, and_node}
use montre.Query.Planner.{positive_nodes, negative_nodes, positive_plan, negative_plan, plan_token}
use montre.Query.Run.{half_open}
use montre.Query.Run.Cover.{mem-count_up}
use montre.Query.Sequence.Hits.{Hit}
use montre.Query.Sequence.Spans.{HasHit}
use montre.Query.Filter.{hits_at, contains_pos, intersect_all, union_all}
use montre.Query.Executor.{execute_node}
use montre.Query.Executor.Sets.{
  HasHit-hits_at, starts-hits_at, keep-hits_at, InAll, InSome, mem-intersect_all, mem-union_all,
  mem-minus,
}
use montre.Query.Executor.Meets.{IsIndexed, AllCompile, Meets, Yields, Meets-iff}
use montre.Query.Executor.Parts.{
  YieldAll, execute_starts-YieldAll, positive_nodes-YieldAll, negative_nodes-YieldAll,
}

module _ (x : Crates) (corpus : Corpus x.Bitmap) where
  positive_plan-Yields :
      (nodes : Nodes) (sets : List (List ℕ))
      → YieldAll x corpus nodes sets
      → (ps : List ℕ) × Yields x corpus (positive_plan nodes) ps
        × ((p : ℕ) → (p ∈ ps) ↔ ((p < corpus.token_count) × InAll p sets))
  unfolding positive_plan execute_node
  positive_plan-Yields no_nodes [] y = (
    half_open 0 corpus.token_count,
    refl,
    λ p. ground (arith, mem-count_up p 0 corpus.token_count),
  )
  positive_plan-Yields no_nodes (ps ∷ sets) y = absurd y
  positive_plan-Yields (and_node n nodes) [] y = absurd y
  positive_plan-Yields (and_node n no_nodes) (ps ∷ []) (e, b, y) = (ps, e, λ p. ground (arith, b p))
  positive_plan-Yields (and_node n no_nodes) (ps ∷ q ∷ sets) (e, b, y) = absurd y
  positive_plan-Yields (and_node n (and_node m nodes)) (ps ∷ sets) (e, b, y) =
      let all =
        execute_starts-YieldAll x corpus (and_node n (and_node m nodes)) (ps ∷ sets) (e, b, y) in
      (intersect_all (ps ∷ sets), rw all, λ p. ground (arith, mem-intersect_all p ps sets, b p))

  difference-Yields :
      (base subtract : PlanNode) (ps qs : List ℕ)
      → Yields x corpus base ps
      → Yields x corpus subtract qs
      → Yields x corpus (difference base subtract) (keep (λ p. not (contains_pos qs p)) ps)
  unfolding execute_node
  difference-Yields base subtract ps qs e f =
      rw (e, f, starts-hits_at qs) (ap ok (keep-hits_at (λ p. not (contains_pos qs p)) ps))

  union-Yields :
      (nodes : Nodes) (sets : List (List ℕ))
      → YieldAll x corpus nodes sets
      → Yields x corpus (union nodes) (union_all sets)
  unfolding execute_node
  union-Yields nodes sets y = rw (execute_starts-YieldAll x corpus nodes sets y)

  negative_plan-Yields :
      (positive : PlanNode) (ps : List ℕ) (nodes : Nodes) (sets : List (List ℕ))
      → Yields x corpus positive ps
      → YieldAll x corpus nodes sets
      → (qs : List ℕ) × Yields x corpus (negative_plan positive nodes) qs
        × ((p : ℕ) → (p ∈ qs) ↔ ((p ∈ ps) × ¬ InSome p sets))
  unfolding negative_plan
  negative_plan-Yields positive ps no_nodes [] e y = (ps, e, λ p. (λ m. (m, λ n. n), λ (m, n). m))
  negative_plan-Yields positive ps no_nodes (s ∷ sets) e y = absurd y
  negative_plan-Yields positive ps (and_node n nodes) [] e y = absurd y
  negative_plan-Yields positive ps (and_node n no_nodes) (s ∷ []) e (f, b, y) = (
    keep (λ p. not (contains_pos s p)) ps,
    difference-Yields positive n ps s e f,
    λ p.
        let minus = mem-minus p ps s in
        (
          λ m. ((minus.0 m).0, λ k. elim k [ inl h ↦ (minus.0 m).1 h | inr h ↦ h ]),
          λ (m, k). minus.1 (m, λ h. k (inl h)),
        ),
  )
  negative_plan-Yields positive ps (and_node n no_nodes) (s ∷ t ∷ sets) e (f, b, y) = absurd y
  negative_plan-Yields positive ps (and_node n (and_node m nodes)) (s ∷ sets) e y =
      let all = s ∷ sets in
      (
        keep (λ p. not (contains_pos (union_all all) p)) ps,
        difference-Yields positive (union (and_node n (and_node m nodes))) ps (union_all all) e
            (union-Yields (and_node n (and_node m nodes)) all y),
        λ p.
            let minus = mem-minus p ps (union_all all) in
            let some_set = mem-union_all p all in
            (
              λ m. ((minus.0 m).0, λ k. (minus.0 m).1 (some_set.1 k)),
              λ (m, k). minus.1 (m, λ h. k (some_set.0 h)),
            ),
      )

  plan_token-cons :
      (c : Constraint) (cs : List Constraint)
      → plan_token (record { constraints = c ∷ cs })
        ≡ negative_plan (positive_plan (positive_nodes (c ∷ cs))) (negative_nodes (c ∷ cs))
  unfolding plan_token
  plan_token-cons c cs = refl

  plan_token-nil :
      Yields x corpus (plan_token (record { constraints = [] })) (half_open 0 corpus.token_count)
  unfolding plan_token execute_node
  plan_token-nil = refl

  plan_token-Yields :
      (cs : List Constraint)
      → IsIndexed x corpus
      → AllCompile x corpus cs
      → (ps : List ℕ) × Yields x corpus (plan_token (record { constraints = cs })) ps
        × ((p : ℕ) → (p ∈ ps) ↔ ((p < corpus.token_count) × Meets x corpus cs p))
  plan_token-Yields [] indexed fine = (
    half_open 0 corpus.token_count,
    plan_token-nil,
    λ p. ground (arith, mem-count_up p 0 corpus.token_count),
  )
  plan_token-Yields (c ∷ cs) indexed fine =
      let (pos, py, p_iff) = positive_nodes-YieldAll x corpus indexed (c ∷ cs) fine in
      let (neg, ny, n_iff) = negative_nodes-YieldAll x corpus indexed (c ∷ cs) fine in
      let (ps, pe, ps_iff) = positive_plan-Yields (positive_nodes (c ∷ cs)) pos py in
      let (qs, qe, qs_iff) =
        negative_plan-Yields (positive_plan (positive_nodes (c ∷ cs))) ps (negative_nodes (c ∷ cs))
          neg pe ny in
      (
        qs,
        rw (plan_token-cons c cs) qe,
        λ p.
            let meets = Meets-iff x corpus (c ∷ cs) p in
            (
              λ m.
                  let (k, n) = (qs_iff p).0 m in
                  let (l, a) = (ps_iff p).0 k in
                  (l, meets.1 ((p_iff p).0 a, λ h. n ((n_iff p).1 h))),
              λ (l, h).
                  let (a, n) = meets.0 h in
                  (qs_iff p).1 ((ps_iff p).1 (l, (p_iff p).1 a), λ k. n ((n_iff p).0 k)),
            ),
      )

-- If every position in the index is one of the corpus, and the regular expressions of a token
-- pattern compile, the plan of the pattern executes without an error, and its hits are exactly the
-- single tokens that meet every constraint: `=` with a value or an expression that the token's value
-- matches, `!=` with one that it does not.
pub execute_node-plan_token :
    (x : Crates) (corpus : Corpus x.Bitmap) (pattern : TokenPattern)
    → IsIndexed x corpus
    → AllCompile x corpus pattern.constraints
    → (hits : List Hit) × (execute_node x corpus (plan_token pattern) ≡ ok hits)
      × ((s e : ℕ)
          → HasHit hits s e
            ↔ ((e ≡ s + 1) × (s < corpus.token_count) × Meets x corpus pattern.constraints s))
execute_node-plan_token x corpus pattern indexed fine =
    let (ps, e, iff) = plan_token-Yields x corpus pattern.constraints indexed fine in
    (hits_at ps, e, λ a b. ground (arith, HasHit-hits_at ps a b, iff a))
