-- ===== src/Query/Executor/Agree.antt =====
-- Results of a node, and the positions of the node in a range: when the one restricts the other.
use montre.Prelude.{ℕ, ◌≤◌, ◌<◌, ◌≡◌, refl, ◌↔◌, arith, not, Bool, List, [], ◌∷◌, ◌∈◌, map, keep}
use montre.Query.{Result, ok, err, ◌>>=◌}
use montre.Query.Sequence.Hits.{Hit}
use montre.Query.Filter.{start_of, hits_at, contains_pos, intersect_all, union_all, in_range}
use montre.Query.Executor.Sets.{
  InAll, InSome, starts-hits_at, mem-intersect_all, mem-union_all, mem-minus,
}

mem-in_range : (a b p : ℕ) (ps : List ℕ) → (p ∈ in_range a b ps) ↔ ((a ≤ p) × (p < b) × (p ∈ ps))
mem-in_range a b p [] = ground arith
mem-in_range a b p (q ∷ ps) = ground (arith, mem-in_range a b p ps)

module _ (a b : ℕ) where
  -- `part` is `whole` in the range.
  abbrev pub Restricts : List ℕ → List ℕ → Type 0
  Restricts whole part = (p : ℕ) → (p ∈ part) ↔ ((a ≤ p) × (p < b) × (p ∈ whole))

  abbrev pub RestrictsAll : List (List ℕ) → List (List ℕ) → Type 0
  RestrictsAll [] [] = Unit {0}
  RestrictsAll [] (part ∷ parts) = ⊥
  RestrictsAll (whole ∷ wholes) [] = ⊥
  RestrictsAll (whole ∷ wholes) (part ∷ parts) = Restricts whole part × RestrictsAll wholes parts

  -- The same error, or the starts of the hits that are in the range.
  abbrev pub Agrees : Result (List Hit) → Result (List ℕ) → Type 0
  Agrees (ok hits) (ok part) = Restricts (map start_of hits) part
  Agrees (ok hits) (err f) = ⊥
  Agrees (err e) (ok part) = ⊥
  Agrees (err e) (err f) = e ≡ f

  abbrev pub AgreesAll : Result (List (List ℕ)) → Result (List (List ℕ)) → Type 0
  AgreesAll (ok wholes) (ok parts) = RestrictsAll wholes parts
  AgreesAll (ok wholes) (err f) = ⊥
  AgreesAll (err e) (ok parts) = ⊥
  AgreesAll (err e) (err f) = e ≡ f

  pub Agrees-ok : (hits : List Hit) → Agrees (ok hits) (ok (in_range a b (map start_of hits)))
  Agrees-ok hits p = mem-in_range a b p (map start_of hits)

  pub Agrees-filter :
      (r : Result (List Hit)) (f : List Hit → List Hit)
      → Agrees (r >>= λ hits. ok (f hits)) (r >>= λ hits. ok (in_range a b (map start_of (f hits))))
  Agrees-filter (ok hits) f = Agrees-ok (f hits)
  Agrees-filter (err e) f = refl

  Agrees-rest :
      (r : Result (List Hit)) → Agrees r (r >>= λ hits. ok (in_range a b (map start_of hits)))
  Agrees-rest (ok hits) = Agrees-ok hits
  Agrees-rest (err e) = refl

  pub Agrees-project :
      (r : Result (List Hit)) (f : List Hit → Result (List Hit))
      → Agrees
          (r >>= f)
          (r >>= λ hits. f hits >>= λ projected. ok (in_range a b (map start_of projected)))
  Agrees-project (ok hits) f = Agrees-rest (f hits)
  Agrees-project (err e) f = refl

  pub AgreesAll-cons :
      (r : Result (List Hit)) (q : Result (List ℕ)) (rs qs : Result (List (List ℕ)))
      → Agrees r q
      → AgreesAll rs qs
      → AgreesAll
          (r >>= λ hits. rs >>= λ sets. ok (map start_of hits ∷ sets))
          (q >>= λ positions. qs >>= λ sets. ok (positions ∷ sets))
  AgreesAll-cons (ok hits) (ok part) (ok wholes) (ok parts) h k = (h, k)
  AgreesAll-cons (ok hits) (ok part) (ok wholes) (err f) h k = absurd k
  AgreesAll-cons (ok hits) (ok part) (err e) (ok parts) h k = absurd k
  AgreesAll-cons (ok hits) (ok part) (err e) (err f) h k = k
  AgreesAll-cons (ok hits) (err f) rs qs h k = absurd h
  AgreesAll-cons (err e) (ok part) rs qs h k = absurd h
  AgreesAll-cons (err e) (err f) rs qs h k = h

  InSome-RestrictsAll :
      (wholes parts : List (List ℕ)) (p : ℕ)
      → RestrictsAll wholes parts
      → InSome p parts ↔ ((a ≤ p) × (p < b) × InSome p wholes)
  InSome-RestrictsAll [] [] p r = ground arith
  InSome-RestrictsAll [] (part ∷ parts) p r = absurd r
  InSome-RestrictsAll (whole ∷ wholes) [] p r = absurd r
  InSome-RestrictsAll (whole ∷ wholes) (part ∷ parts) p (h, r) =
      ground (arith, h p, InSome-RestrictsAll wholes parts p r)

  -- Each set of some, and of none as long as the position is in the range.
  InAll-RestrictsAll :
      (wholes parts : List (List ℕ)) (p : ℕ)
      → RestrictsAll wholes parts
      → a ≤ p
      → p < b
      → InAll p parts ↔ InAll p wholes
  InAll-RestrictsAll [] [] p r l u = ground arith
  InAll-RestrictsAll [] (part ∷ parts) p r l u = absurd r
  InAll-RestrictsAll (whole ∷ wholes) [] p r l u = absurd r
  InAll-RestrictsAll (whole ∷ wholes) (part ∷ parts) p (h, r) l u =
      ground (arith, h p, InAll-RestrictsAll wholes parts p r l u)

  pub Agrees-union :
      (r q : Result (List (List ℕ)))
      → AgreesAll r q
      → Agrees (r >>= λ sets. ok (hits_at (union_all sets))) (q >>= λ sets. ok (union_all sets))
  Agrees-union (ok wholes) (ok parts) h = λ p. rw (starts-hits_at (union_all wholes)) (
      ground (
        arith,
        mem-union_all p wholes,
        mem-union_all p parts,
        InSome-RestrictsAll wholes parts p h,
      ))
  Agrees-union (ok wholes) (err f) h = absurd h
  Agrees-union (err e) (ok parts) h = absurd h
  Agrees-union (err e) (err f) h = h

  Restricts-intersect :
      (wholes parts : List (List ℕ))
      → RestrictsAll wholes parts
      → Restricts (intersect_all wholes) (intersect_all parts)
  unfolding intersect_all
  Restricts-intersect [] [] r p = ground arith
  Restricts-intersect [] (part ∷ parts) r p = absurd r
  Restricts-intersect (whole ∷ wholes) [] r p = absurd r
  Restricts-intersect (whole ∷ wholes) (part ∷ parts) (h, r) p =
      let left = mem-intersect_all p part parts in
      let right = mem-intersect_all p whole wholes in
      let rest = InAll-RestrictsAll wholes parts p r in
      (
        λ m.
            let (k, all) = left.0 m in
            let (l, u, w) = (h p).0 k in (l, u, right.1 (w, (rest l u).0 all)),
        λ (l, u, m). let (w, all) = right.0 m in left.1 ((h p).1 (l, u, w), (rest l u).1 all),
      )

  pub Agrees-intersect :
      (r q : Result (List (List ℕ)))
      → AgreesAll r q
      → Agrees
          (r >>= λ sets. ok (hits_at (intersect_all sets)))
          (q >>= λ sets. ok (intersect_all sets))
  Agrees-intersect (ok wholes) (ok parts) h =
      λ p. rw (starts-hits_at (intersect_all wholes)) (Restricts-intersect wholes parts h p)
  Agrees-intersect (ok wholes) (err f) h = absurd h
  Agrees-intersect (err e) (ok parts) h = absurd h
  Agrees-intersect (err e) (err f) h = h

  starts-keep :
      (test : ℕ → Bool) (hits : List Hit)
      → map start_of (keep (λ h. test h.span.start) hits) ≡ keep test (map start_of hits)
  starts-keep test [] = refl
  starts-keep test (h ∷ hits) = ground (arith, starts-keep test hits)

  Restricts-minus :
      (hits others : List Hit) (part other : List ℕ)
      → Restricts (map start_of hits) part
      → Restricts (map start_of others) other
      → Restricts
          (map start_of (keep (λ h. not (contains_pos (map start_of others) h.span.start)) hits))
          (keep (λ q. not (contains_pos other q)) part)
  Restricts-minus hits others part other h k p =
      let starts = map start_of others in
      let whole = mem-minus p (map start_of hits) starts in
      let here = mem-minus p part other in
      rw (starts-keep (λ q. not (contains_pos starts q)) hits) (
        λ m.
            let (l, u, w) = (h p).0 (here.0 m).0 in
            (l, u, whole.1 (w, λ n. (here.0 m).1 ((k p).1 (l, u, n)))),
        λ (l, u, m).
            here.1
              ((h p).1 (l, u, (whole.0 m).0), λ n. let (l', u', w) = (k p).0 n in (whole.0 m).1 w),
      )

  pub Agrees-difference :
      (base subtract : Result (List Hit)) (base_part subtract_part : Result (List ℕ))
      → Agrees base base_part
      → Agrees subtract subtract_part
      → Agrees
          (base >>= λ base_hits. subtract >>= λ subtract_hits.
            ok (keep (λ h. not (contains_pos (map start_of subtract_hits) h.span.start)) base_hits))
          (base_part >>= λ base_positions. subtract_part >>= λ subtract_set.
            ok (keep (λ p. not (contains_pos subtract_set p)) base_positions))
  Agrees-difference (ok hits) (ok others) (ok part) (ok other) h k =
      Restricts-minus hits others part other h k
  Agrees-difference (ok hits) (ok others) (ok part) (err f) h k = absurd k
  Agrees-difference (ok hits) (err e) (ok part) (ok other) h k = absurd k
  Agrees-difference (ok hits) (err e) (ok part) (err f) h k = k
  Agrees-difference (ok hits) subtract (err f) subtract_part h k = absurd h
  Agrees-difference (err e) subtract (ok part) subtract_part h k = absurd h
  Agrees-difference (err e) subtract (err f) subtract_part h k = h
