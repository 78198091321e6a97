-- ===== src/Query/Executor/Sets.antt =====
-- Hits of one token, and the set operations of the executor on their positions.
use montre.Prelude.{
  ℕ, ◌+◌, ◌≡◌, refl, ap, ◌↔◌, ◌⊎◌, inl, inr, arith, Bool-cases, Bool, true, not, List, [], ◌∷◌, ◌∈◌,
  map, flat_map, keep, mem-keep, mem-append, mem-sort_dedup,
}
use montre.Query.Sequence.Spans.{HasHit}
use montre.Query.Filter.{start_of, hits_at, contains_pos, intersect_sets, intersect_all, union_all}

pub contains_pos_iff : (ps : List ℕ) (p : ℕ) → (contains_pos ps p ≡ true) ↔ (p ∈ ps)
contains_pos_iff [] p = ground arith
contains_pos_iff (q ∷ ps) p = ground (arith, contains_pos_iff ps p)

pub HasHit-hits_at : (ps : List ℕ) (s e : ℕ) → HasHit (hits_at ps) s e ↔ ((s ∈ ps) × (e ≡ s + 1))
HasHit-hits_at [] s e = ground arith
HasHit-hits_at (p ∷ ps) s e = ground (arith, HasHit-hits_at ps s e)

pub starts-hits_at : (ps : List ℕ) → map start_of (hits_at ps) ≡ ps
starts-hits_at [] = refl
starts-hits_at (p ∷ ps) = ap (◌∷◌ p) (starts-hits_at ps)

-- A filter on the start of hits of one token filters the positions.
pub keep-hits_at :
    (test : ℕ → Bool) (ps : List ℕ)
    → keep (λ h. test h.span.start) (hits_at ps) ≡ hits_at (keep test ps)
keep-hits_at test [] = refl
keep-hits_at test (p ∷ ps) = ground (arith, keep-hits_at test ps)

-- A position in each of some sets, and in one of them.
abbrev pub InAll : ℕ → List (List ℕ) → Type 0
InAll p [] = Unit {0}
InAll p (s ∷ sets) = (p ∈ s) × InAll p sets

abbrev pub InSome : ℕ → List (List ℕ) → Type 0
InSome p [] = ⊥
InSome p (s ∷ sets) = (p ∈ s) ⊎ InSome p sets

mem-intersect_sets :
    (p : ℕ) (existing : List ℕ) (sets : List (List ℕ))
    → (p ∈ intersect_sets existing sets) ↔ ((p ∈ existing) × InAll p sets)
unfolding intersect_sets
mem-intersect_sets p existing [] = ground arith
mem-intersect_sets p existing (s ∷ sets) = ground (
  arith,
  mem-intersect_sets p (keep (contains_pos s) existing) sets,
  mem-keep (contains_pos s) p existing,
  contains_pos_iff s p,
)

pub mem-intersect_all :
    (p : ℕ) (s : List ℕ) (sets : List (List ℕ))
    → (p ∈ intersect_all (s ∷ sets)) ↔ InAll p (s ∷ sets)
unfolding intersect_all
mem-intersect_all p s sets =
    ground (arith, mem-sort_dedup p (intersect_sets s sets), mem-intersect_sets p s sets)

mem-concat : (p : ℕ) (sets : List (List ℕ)) → (p ∈ flat_map (λ s. s) sets) ↔ InSome p sets
mem-concat p [] = ground arith
mem-concat p (s ∷ sets) = ground (arith, mem-append p s (flat_map (λ s. s) sets), mem-concat p sets)

pub mem-union_all : (p : ℕ) (sets : List (List ℕ)) → (p ∈ union_all sets) ↔ InSome p sets
unfolding union_all
mem-union_all p sets = ground (arith, mem-sort_dedup p (flat_map (λ s. s) sets), mem-concat p sets)

-- What is left of a set when another is taken away.
pub mem-minus :
    (p : ℕ) (ps qs : List ℕ)
    → (p ∈ keep (λ q. not (contains_pos qs q)) ps) ↔ ((p ∈ ps) × ¬ (p ∈ qs))
mem-minus p ps qs =
    let kept = mem-keep (λ q. not (contains_pos qs q)) p ps in
    (
      λ m. ((kept.0 m).0, λ n. ground (arith, kept.0 m, (contains_pos_iff qs p).1 n)),
      λ (m, n). kept.1 (
        m,
        elim (Bool-cases (contains_pos qs p)) [
          | inl e ↦ absurd (n ((contains_pos_iff qs p).0 e))
          | inr e ↦ rw e
        ],
      ),
    )
