-- ===== src/Query/Sequence/Entries.antt =====
-- The table of partial matches as a relation: which starts it holds at which end, and how the
-- pushes, the removal of duplicates and the order of iteration act on it.
use mathlib.Core.List.{Permᴰ}
use montre.Prelude.{ℕ, ◌≡◌, ◌↔◌, ◌⊎◌, arith, List, [], ◌∷◌, ◌++◌, ◌∈◌, map}
use montre.Query.Sequence.{Active, push, push_all, insert_by, sort_dedup_by, map_values}

module _ {A : Type 0} (key : A → ℕ) where
  -- A match with the start `s` ends at `e`.
  abbrev pub HasStart : Active A → ℕ → ℕ → Type 0
  HasStart [] e s = ⊥
  HasStart ((k, items) ∷ active) e s = (k ≡ e) × (s ∈ map key items) ⊎ HasStart active e s

  abbrev pub HasPush : List (ℕ × A) → ℕ → ℕ → Type 0
  HasPush [] e s = ⊥
  HasPush ((k, item) ∷ pushes) e s = (k ≡ e) × (s ≡ key item) ⊎ HasPush pushes e s

  mem-map-snoc :
      (s : ℕ) (items : List A) (item : A)
      → (s ∈ map key (items ++ item ∷ [])) ↔ ((s ∈ map key items) ⊎ (s ≡ key item))
  mem-map-snoc s [] item = ground arith
  mem-map-snoc s (i ∷ items) item = ground (arith, mem-map-snoc s items item)

  HasStart-push :
      (k : ℕ) (item : A) (active : Active A) (e s : ℕ)
      → HasStart (push k item active) e s ↔ ((k ≡ e) × (s ≡ key item) ⊎ HasStart active e s)
  unfolding push
  HasStart-push k item [] e s = ground arith
  HasStart-push k item ((j, items) ∷ active) e s =
      ground (arith, mem-map-snoc s items item, HasStart-push k item active e s)

  pub HasStart-push_all :
      (pushes : List (ℕ × A)) (active : Active A) (e s : ℕ)
      → HasStart (push_all pushes active) e s ↔ (HasPush pushes e s ⊎ HasStart active e s)
  unfolding push_all
  HasStart-push_all [] active e s = ground arith
  HasStart-push_all ((k, item) ∷ pushes) active e s =
      ground
        (arith, HasStart-push k item active e s, HasStart-push_all pushes (push k item active) e s)

  mem-insert_by :
      (s : ℕ) (a : A) (xs : List A)
      → (s ∈ map key (insert_by key a xs)) ↔ ((s ≡ key a) ⊎ (s ∈ map key xs))
  unfolding insert_by
  mem-insert_by s a [] = ground arith
  mem-insert_by s a (x ∷ xs) = ground (arith, mem-insert_by s a xs)

  mem-sort_dedup_by :
      (s : ℕ) (xs : List A) → (s ∈ map key (sort_dedup_by key xs)) ↔ (s ∈ map key xs)
  unfolding sort_dedup_by
  mem-sort_dedup_by s [] = ground arith
  mem-sort_dedup_by s (x ∷ xs) =
      ground (arith, mem-insert_by s x (sort_dedup_by key xs), mem-sort_dedup_by s xs)

  -- The removal of duplicates loses no start.
  pub HasStart-dedup :
      (active : Active A) (e s : ℕ)
      → HasStart (map_values (sort_dedup_by key) active) e s ↔ HasStart active e s
  HasStart-dedup [] e s = ground arith
  HasStart-dedup ((k, items) ∷ active) e s =
      ground (arith, mem-sort_dedup_by s items, HasStart-dedup active e s)

  -- Nor does the order in which a hash map iterates matter.
  pub HasStart-perm : {m n : Active A} (e s : ℕ) → Permᴰ m n → HasStart m e s ↔ HasStart n e s
  HasStart-perm e s Permᴰ.nil = ground arith
  HasStart-perm e s (Permᴰ.cons p d) = ground (arith, p, HasStart-perm e s d)
  HasStart-perm e s (Permᴰ.swap p q) = ground (arith, p, q)
  HasStart-perm e s (Permᴰ.trans d d') = ground (arith, HasStart-perm e s d, HasStart-perm e s d')

  pub HasPush-append :
      (xs ys : List (ℕ × A)) (e s : ℕ) → HasPush (xs ++ ys) e s ↔ (HasPush xs e s ⊎ HasPush ys e s)
  HasPush-append [] ys e s = ground arith
  HasPush-append (x ∷ xs) ys e s = ground (arith, HasPush-append xs ys e s)

  -- The table that a round of pushes makes holds what was pushed, with or without duplicates.
  pub HasStart-pushed :
      (pushes : List (ℕ × A)) (e s : ℕ) → HasStart (push_all pushes []) e s ↔ HasPush pushes e s
  HasStart-pushed pushes e s = ground (arith, HasStart-push_all pushes [] e s)

  pub HasStart-collected :
      (pushes : List (ℕ × A)) (e s : ℕ)
      → HasStart (map_values (sort_dedup_by key) (push_all pushes [])) e s ↔ HasPush pushes e s
  HasStart-collected pushes e s =
      ground (arith, HasStart-dedup (push_all pushes []) e s, HasStart-pushed pushes e s)
