-- ===== src/Query/Sequence/Spans.antt =====
-- The hits of a sequence in one range: their spans, and their order.
use montre.Prelude.{
  ◌-◌, ℕ, ◌+◌, ◌≤◌, ◌<◌, ◌≡◌, refl, ◌↔◌, ◌⊎◌, inl, inr, arith, subst, List, [], ◌∷◌, ◌++◌, ◌∈◌, map,
  flat_map, true, false, Bool, Text,
}
use montre.Core.{Span}
use montre.Index.{Crates}
use montre.Query.Run.{max_len}
use montre.Query.Run.Quantifier.{Allowed-empty, Tried-iff}
use montre.Query.Run.Cover.{InRuns}
use montre.Query.Sequence.{Stage, Active, labeled, unlabeled, run_sequence_steps}
use montre.Query.Sequence.Hits.{
  Hit, hit, hit_le, insert_hit, sort_hits, nonempty, hits_of, execute_sequence_in_range,
}
use montre.Query.Sequence.Entries.{HasStart, HasStart-perm}
use montre.Query.Sequence.Step.{Chain, AllFit}
use montre.Query.Sequence.Chain.{unlabeled-KeepsStart, labeled-KeepsStart}
use montre.Query.Sequence.Found.{
  StartsRun, Begins, run_sequence_steps-Begins, Begins-Chain, Chain-Begins,
}

-- A hit from `s` to `e`.
abbrev pub HasHit : List Hit → ℕ → ℕ → Type 0
HasHit [] s e = ⊥
HasHit (h ∷ hits) s e = (h.span.start ≡ s) × (h.span.end ≡ e) ⊎ HasHit hits s e

HasHit-insert_hit :
    (le : Hit → Hit → Bool) (h : Hit) (hits : List Hit) (s e : ℕ)
    → HasHit (insert_hit le h hits) s e ↔ ((h.span.start ≡ s) × (h.span.end ≡ e) ⊎ HasHit hits s e)
unfolding insert_hit
HasHit-insert_hit le h [] s e = ground arith
HasHit-insert_hit le h (k ∷ hits) s e = ground (arith, HasHit-insert_hit le h hits s e)

pub HasHit-sort_hits :
    (le : Hit → Hit → Bool) (hits : List Hit) (s e : ℕ)
    → HasHit (sort_hits le hits) s e ↔ HasHit hits s e
unfolding sort_hits
HasHit-sort_hits le [] s e = ground arith
HasHit-sort_hits le (h ∷ hits) s e =
    ground (arith, HasHit-insert_hit le h (sort_hits le hits) s e, HasHit-sort_hits le hits s e)

pub HasHit-append :
    (xs ys : List Hit) (s e : ℕ) → HasHit (xs ++ ys) s e ↔ (HasHit xs s e ⊎ HasHit ys s e)
HasHit-append [] ys s e = ground arith
HasHit-append (x ∷ xs) ys s e = ground (arith, HasHit-append xs ys s e)

module _ {A : Type 0} (key : A → ℕ) (captures : A → List (Text × Span)) where
  HasHit-entry :
      (end : ℕ) (items : List A) (s e : ℕ)
      → HasHit (map (λ i. hit (key i) end (captures i)) (nonempty key end items)) s e
        ↔ ((end ≡ e) × (s < e) × (s ∈ map key items))
  HasHit-entry end [] s e = ground arith
  HasHit-entry end (i ∷ items) s e = ground (arith, HasHit-entry end items s e)

  abbrev entry_hits : ℕ × List A → List Hit
  entry_hits (end, items) = map (λ i. hit (key i) end (captures i)) (nonempty key end items)

  HasHit-entries :
      (active : Active A) (s e : ℕ)
      → HasHit (flat_map entry_hits active) s e ↔ ((s < e) × HasStart key active e s)
  HasHit-entries [] s e = ground arith
  HasHit-entries ((end, items) ∷ active) s e = ground (
    arith,
    HasHit-append (entry_hits (end, items)) (flat_map entry_hits active) s e,
    HasHit-entry end items s e,
    HasHit-entries active s e,
  )

  pub HasHit-hits_of :
      (x : Crates) (active : Active A) (s e : ℕ)
      → HasHit (hits_of x key captures active) s e ↔ ((s < e) × HasStart key active e s)
  unfolding hits_of
  HasHit-hits_of x active s e = ground (
    arith,
    HasHit-entries (x.hash_order (List A) active) s e,
    HasStart-perm key e s (x.hash_order-perm (List A) active),
  )

-- Over a range that is not empty, with run indices that fit it, the hits of a sequence are exactly
-- the non-empty spans made of a begin of the first step and a chain of spans of the later steps, each
-- a block of positions at which the step matches, of a length that its quantifier allows (at most
-- 100). With labels and without, and whatever the order in which the hash maps iterate.
pub execute_sequence_in_range-Begins :
    (x : Crates) (low high : ℕ) (first : Stage) (rest : List Stage) (has_label : Bool) (s e : ℕ)
    → low < high
    → AllFit low high (first ∷ rest)
    → HasHit (execute_sequence_in_range x has_label (first ∷ rest) low high) s e
      ↔ ((s < e) × ((m : ℕ) × Begins first rest s m × Chain rest m e))
unfolding execute_sequence_in_range
execute_sequence_in_range-Begins x low high first rest true s e l fit =
    let active = run_sequence_steps x labeled (first ∷ rest) low high in
    let found =
      run_sequence_steps-Begins x labeled labeled-KeepsStart low high first rest e s l fit in
    let spans = HasHit-hits_of (λ m. m.start) (λ m. m.captures) x active s e in
    let sorted = HasHit-sort_hits hit_le (hits_of x (λ m. m.start) (λ m. m.captures) active) s e in
    (
      λ h. let (k, held) = spans.0 (sorted.0 h) in (k, found.0 held),
      λ (k, b). sorted.1 (spans.1 (k, found.1 b)),
    )
execute_sequence_in_range-Begins x low high first rest false s e l fit =
    let active = run_sequence_steps x unlabeled (first ∷ rest) low high in
    let found =
      run_sequence_steps-Begins x unlabeled unlabeled-KeepsStart low high first rest e s l fit in
    let spans = HasHit-hits_of (λ s. s) (λ s. []) x active s e in
    let sorted = HasHit-sort_hits hit_le (hits_of x (λ s. s) (λ s. []) active) s e in
    (
      λ h. let (k, held) = spans.0 (sorted.0 h) in (k, found.0 held),
      λ (k, b). sorted.1 (spans.1 (k, found.1 b)),
    )

-- Every hit of a sequence in a range is a non-empty chain of spans, one for each step, each a block
-- of positions at which the step matches, of a length that its quantifier allows; and if the first
-- step must take a token, every such chain is a hit. With labels and without; whatever the order in
-- which the hash maps iterate.
pub execute_sequence_in_range-Chain :
    (x : Crates) (has_label : Bool) (low high : ℕ) (first : Stage) (rest : List Stage) (s e : ℕ)
    → low < high
    → AllFit low high (first ∷ rest)
    → (HasHit (execute_sequence_in_range x has_label (first ∷ rest) low high) s e
        → (s < e) × Chain (first ∷ rest) s e)
      × (0 < first.least
          → (s < e)
          → Chain (first ∷ rest) s e
          → HasHit (execute_sequence_in_range x has_label (first ∷ rest) low high) s e)
execute_sequence_in_range-Chain x has_label low high first rest s e l fit =
    let exact = execute_sequence_in_range-Begins x low high first rest has_label s e l fit in
    (
      λ h. let (k, (m, b, c)) = exact.0 h in (k, Begins-Chain first rest s e m b c),
      λ z k c. exact.1 (k, Chain-Begins first rest s e z c),
    )

-- A sequence `first? second` misses the span of one token of `second`, a match of the sequence,
-- wherever `first` does not match and the token before is one of `second` too: the step that is
-- left out is only left out where a run of `second` starts.
pub optional_first_misses :
    (x : Crates) (has_label : Bool) (low high : ℕ) (first second : Stage) (s : ℕ)
    → low < high
    → AllFit low high (first ∷ second ∷ [])
    → first.least ≡ 0
    → second.least ≤ 1
    → 1 ≤ max_len second.most
    → InRuns s second.runs
    → ¬ StartsRun s second.runs
    → ¬ InRuns s first.runs
    → Chain (first ∷ second ∷ []) s (s + 1)
      × ¬ HasHit (execute_sequence_in_range x has_label (first ∷ second ∷ []) low high) s (s + 1)
optional_first_misses x has_label low high first second s l fit z a b here inner other = (
  (
    s,
    (
      omega arith,
      λ p pl pu. absurd (omega arith),
      Allowed-empty first.least first.most (s - s) (omega arith) (omega arith),
    ),
    (
      s + 1,
      (
        omega arith,
        λ p pl pu. subst (λ t. InRuns t second.runs) (one p pl pu) here,
        (Tried-iff second.least second.most (s + 1 - s)).0 (omega arith, omega arith),
      ),
      refl,
    ),
  ),
  λ h. missed (
      (execute_sequence_in_range-Begins x low high first (second ∷ []) has_label s (s + 1) l fit).0
        h),
)
  where
    one : (p : ℕ) → s ≤ p → p < s + 1 → s ≡ p
    one p pl pu = omega arith

    missed :
        ¬ ((s < s + 1) × ((m : ℕ) × Begins first (second ∷ []) s m × Chain (second ∷ []) m (s + 1)))
    missed (k, (m, inl (lt, (le, block, ok)), c)) = other (block s (omega arith) lt)
    missed (k, (m, inr (z, e, h), c)) = inner h
