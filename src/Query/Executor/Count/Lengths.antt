-- ===== src/Query/Executor/Count/Lengths.antt =====
-- Lengths of ascending lists, of what is left of a range, and of the hits of a table.
use montre.Prelude.{
  ℕ, zero, suc, ◌+◌, ◌≤◌, ◌<◌, ◌≡◌, refl, ap, ◌↔◌, inl, inr, arith, ◌==◌, ==→≡, ==→≢, Above-mono,
  Bool, Bool-cases, false, not, List, [], ◌∷◌, ◌++◌, ◌∈◌, map, keep, flat_map, length, Above,
  Above-mem,
}
use montre.Core.{Span}
use montre.Query.Run.{count_up}
use montre.Query.Sequence.{Active}
use montre.Query.Sequence.Hits.{Hit, hit, insert_hit, sort_hits, nonempty, count_entries, sum_over}
use montre.Query.Filter.{contains_pos}
use montre.Query.Executor.Sets.{contains_pos_iff}

-- An ascending list is known by its entries.
pub Above-ext :
    (m n : ℕ) (xs ys : List ℕ) → Above m xs → Above n ys → ((p : ℕ) → (p ∈ xs) ↔ (p ∈ ys)) → xs ≡ ys
Above-ext m n [] [] a b h = refl
Above-ext m n [] (y ∷ ys) a b h = absurd ((h y).1 (inl refl))
Above-ext m n (x ∷ xs) [] a b h = absurd ((h x).0 (inl refl))
Above-ext m n (x ∷ xs) (y ∷ ys) a b h =
    let low : x ≤ y = elim ((h y).1 (inl refl)) [
      | inl e ↦ omega arith
      | inr k ↦ omega (arith, Above-mem (x + 1) y xs a.1 k)
    ] in
    let high : y ≤ x = elim ((h x).0 (inl refl)) [
      | inl e ↦ omega arith
      | inr k ↦ omega (arith, Above-mem (y + 1) x ys b.1 k)
    ] in
    let same : x ≡ y = omega arith in
    let rest = Above-ext (x + 1) (y + 1) xs ys a.1 b.1 (λ p. (
      λ m. elim ((h p).0 (inr m)) [
        | inl e ↦ absurd (omega (arith, Above-mem (x + 1) p xs a.1 m))
        | inr k ↦ k
      ],
      λ m. elim ((h p).1 (inr m)) [
        | inl e ↦ absurd (omega (arith, Above-mem (y + 1) p ys b.1 m))
        | inr k ↦ k
      ],
    )) in
    cc

keep-skip :
    (a n p : ℕ) (ps : List ℕ)
    → p < a
    → keep (λ q. not (contains_pos (p ∷ ps) q)) (count_up a n)
      ≡ keep (λ q. not (contains_pos ps q)) (count_up a n)
unfolding count_up
keep-skip a zero p ps h = refl
keep-skip a (suc n) p ps h = ground (arith, keep-skip (a + 1) n p ps)

-- The numbers from `a` on that an ascending list lacks.
pub length-keep-count_up :
    (a n : ℕ) (ps : List ℕ)
    → Above a ps
    → ((p : ℕ) → p ∈ ps → p < a + n)
    → length (keep (λ q. not (contains_pos ps q)) (count_up a n)) + length ps ≡ n
unfolding count_up
length-keep-count_up a zero [] s h = refl
length-keep-count_up a zero (p ∷ ps) s h = absurd (omega (arith, h p (inl refl)))
length-keep-count_up a (suc n) [] s h =
    ground (arith, length-keep-count_up (a + 1) n [] tt (λ p m. absurd m))
length-keep-count_up a (suc n) (p ∷ ps) s h = elim (Bool-cases (a == p)) [
  | inl t ↦
      let e = ==→≡ a p t in
      let above : Above (a + 1) ps = Above-mono (a + 1) (p + 1) ps (omega arith) s.1 in
      let rest = length-keep-count_up (a + 1) n ps above (λ q m. omega (arith, h q (inr m))) in
      ground (arith, keep-skip (a + 1) n p ps (omega arith), rest)
  | inr f ↦
      let apart = ==→≢ a p f in
      let lt : a + 1 ≤ p = omega (arith, s.0, apart) in
      let rest = length-keep-count_up (a + 1) n (p ∷ ps) (lt, s.1) (λ q m. omega (arith, h q m)) in
      let lacks : contains_pos (p ∷ ps) a ≡ false = elim (Bool-cases (contains_pos (p ∷ ps) a)) [
        | inl t ↦ elim ((contains_pos_iff (p ∷ ps) a).0 t) [
          | inl e ↦ absurd (apart e)
          | inr m ↦ absurd (omega (arith, Above-mem (p + 1) a ps s.1 m))
        ]
        | inr e ↦ e
      ] in
      rw lacks (omega (arith, rest))
]

length-insert_hit :
    (le : Hit → Hit → Bool) (h : Hit) (hits : List Hit)
    → length (insert_hit le h hits) ≡ suc (length hits)
unfolding insert_hit
length-insert_hit le h [] = refl
length-insert_hit le h (k ∷ hits) = ground (arith, length-insert_hit le h hits)

-- Sorting keeps the number of hits.
pub length-sort_hits :
    (le : Hit → Hit → Bool) (hits : List Hit) → length (sort_hits le hits) ≡ length hits
unfolding sort_hits
length-sort_hits le [] = refl
length-sort_hits le (h ∷ hits) =
    ground (arith, length-insert_hit le h (sort_hits le hits), length-sort_hits le hits)

length-append : {A : Type 0} (xs ys : List A) → length (xs ++ ys) ≡ length xs + length ys
length-append [] ys = omega arith
length-append (x ∷ xs) ys = omega (arith, length-append xs ys)

pub length-map : {A B : Type 0} (f : A → B) (xs : List A) → length (map f xs) ≡ length xs
length-map f [] = refl
length-map f (x ∷ xs) = ap suc (length-map f xs)

abbrev entry_hits : ℕ × List ℕ → List Hit
entry_hits (end, items) = map (λ i. hit i end []) (nonempty (λ s. s) end items)

pub length-entry_hits :
    (active : Active ℕ) → length (flat_map entry_hits active) ≡ count_entries active
unfolding count_entries
length-entry_hits [] = refl
length-entry_hits ((end, items) ∷ active) = omega (
  arith,
  length-append (entry_hits (end, items)) (flat_map entry_hits active),
  length-map (λ i. hit i end []) (nonempty (λ s. s) end items),
  length-entry_hits active,
)

pub length-flat_map :
    (f : Span → List Hit) (g : Span → ℕ) (rs : List Span)
    → ((r : Span) → length (f r) ≡ g r)
    → length (flat_map f rs) ≡ sum_over g rs
unfolding sum_over
length-flat_map f g [] h = refl
length-flat_map f g (r ∷ rs) h =
    omega (arith, length-append (f r) (flat_map f rs), h r, length-flat_map f g rs h)
