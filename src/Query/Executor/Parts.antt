-- ===== src/Query/Executor/Parts.antt =====
-- The scans of a token pattern, one for each constraint, and the positions that each of them finds.
use montre.Prelude.{ℕ, ◌<◌, ◌≡◌, refl, ◌↔◌, ◌⊎◌, arith, if◌then◌else◌, List, [], ◌∷◌, ◌∈◌}
use montre.Index.{Crates}
use montre.Index.Corpus.{Corpus}
use montre.Query.{ok}
use montre.Query.Ast.{Constraint, ConstraintOp}
use montre.Query.Plan.{PlanNode, Nodes, no_nodes, and_node}
use montre.Query.Planner.{scan_node, positive_nodes, negative_nodes, is_eq}
use montre.Query.Executor.{execute_starts}
use montre.Query.Executor.Sets.{starts-hits_at, InAll, InSome}
use montre.Query.Executor.Meets.{
  IsIndexed, HasValue, AllCompile, EqPart, NePart, MeetsEq, FailsNe, Yields, scan_node-value,
  HasValue-lt,
}

module _ (x : Crates) (corpus : Corpus x.Bitmap) where
  -- Nodes whose hits are single tokens, at the positions of each set, all in the corpus.
  abbrev pub YieldAll : Nodes → List (List ℕ) → Type 0
  YieldAll no_nodes [] = Unit {0}
  YieldAll no_nodes (ps ∷ sets) = ⊥
  YieldAll (and_node n nodes) [] = ⊥
  YieldAll (and_node n nodes) (ps ∷ sets) =
      Yields x corpus n ps × ((p : ℕ) → p ∈ ps → p < corpus.token_count) × YieldAll nodes sets

  pub execute_starts-YieldAll :
      (nodes : Nodes) (sets : List (List ℕ))
      → YieldAll nodes sets
      → execute_starts x corpus nodes ≡ ok sets
  unfolding execute_starts
  execute_starts-YieldAll no_nodes [] y = refl
  execute_starts-YieldAll no_nodes (ps ∷ sets) y = absurd y
  execute_starts-YieldAll (and_node n nodes) [] y = absurd y
  execute_starts-YieldAll (and_node n nodes) (ps ∷ sets) (e, b, y) =
      rw (e, execute_starts-YieldAll nodes sets y, starts-hits_at ps)

  module _ (node : PlanNode) (ps : List ℕ) (nodes : Nodes) (sets : List (List ℕ)) (P Q : ℕ → Type 0)
      (yields : Yields x corpus node ps) (below : (p : ℕ) → p ∈ ps → p < corpus.token_count)
      (rest : YieldAll nodes sets) (own : (p : ℕ) → (p ∈ ps) ↔ P p) where
    add_positive :
        (op : ConstraintOp)
        → ((p : ℕ) → InAll p sets ↔ Q p)
        → (out : List (List ℕ)) × YieldAll (if is_eq op then and_node node nodes else nodes) out
          × ((p : ℕ) → InAll p out ↔ (EqPart x corpus op (P p) × Q p))
    add_positive ConstraintOp.eq iff =
        (ps ∷ sets, (yields, below, rest), λ p. ground (arith, own p, iff p))
    add_positive ConstraintOp.ne iff = (sets, rest, λ p. ground (arith, iff p))

    add_negative :
        (op : ConstraintOp)
        → ((p : ℕ) → InSome p sets ↔ Q p)
        → (out : List (List ℕ)) × YieldAll (if is_eq op then nodes else and_node node nodes) out
          × ((p : ℕ) → InSome p out ↔ (NePart x corpus op (P p) ⊎ Q p))
    add_negative ConstraintOp.eq iff = (sets, rest, λ p. ground (arith, iff p))
    add_negative ConstraintOp.ne iff =
        (ps ∷ sets, (yields, below, rest), λ p. ground (arith, own p, iff p))

  module _ (indexed : IsIndexed x corpus) where
    pub positive_nodes-YieldAll :
        (cs : List Constraint)
        → AllCompile x corpus cs
        → (sets : List (List ℕ)) × YieldAll (positive_nodes cs) sets
          × ((p : ℕ) → InAll p sets ↔ MeetsEq x corpus cs p)
    unfolding positive_nodes
    positive_nodes-YieldAll [] fine = ([], tt, λ p. ground arith)
    positive_nodes-YieldAll (c ∷ cs) (f, fine) =
        let (sets, y, iff) = positive_nodes-YieldAll cs fine in
        let (ps, e, own) = scan_node-value x corpus c c.value refl f in
        add_positive (scan_node c) ps (positive_nodes cs) sets (HasValue x corpus c.layer c.value)
          (MeetsEq x corpus cs) e
          (λ p m. HasValue-lt x corpus c.layer c.value p indexed ((own p).0 m)) y own c.op iff

    pub negative_nodes-YieldAll :
        (cs : List Constraint)
        → AllCompile x corpus cs
        → (sets : List (List ℕ)) × YieldAll (negative_nodes cs) sets
          × ((p : ℕ) → InSome p sets ↔ FailsNe x corpus cs p)
    unfolding negative_nodes
    negative_nodes-YieldAll [] fine = ([], tt, λ p. ground arith)
    negative_nodes-YieldAll (c ∷ cs) (f, fine) =
        let (sets, y, iff) = negative_nodes-YieldAll cs fine in
        let (ps, e, own) = scan_node-value x corpus c c.value refl f in
        add_negative (scan_node c) ps (negative_nodes cs) sets (HasValue x corpus c.layer c.value)
          (FailsNe x corpus cs) e
          (λ p m. HasValue-lt x corpus c.layer c.value p indexed ((own p).0 m)) y own c.op iff
