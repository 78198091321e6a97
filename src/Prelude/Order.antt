-- ===== src/Prelude/Order.antt =====
-- Ascending lists of positions: `sort_unstable` followed by `dedup`.
use Prim.Native.Nat.{ℕ, ◌+◌, ◌≤◌}
use mathlib.Core.Path.{◌≡◌}
use mathlib.Core.Logic.{◌↔◌, ◌⊎◌, inl, inr}
use mathlib.Core.List.{List, [], ◌∷◌}
use native.Mathlib.Omega.{arith}
use montre.Prelude.Tests.{ltb, ◌==◌, if◌then◌else◌}
use montre.Prelude.Lists.{◌∈◌}

unfoldable pub insert_pos : ℕ → List ℕ → List ℕ
insert_pos a [] = a ∷ []
insert_pos a (x ∷ xs) =
    if ltb a x then a ∷ x ∷ xs else if a == x then x ∷ xs else x ∷ insert_pos a xs

-- `v.sort_unstable(); v.dedup()`, and the sorted content of a set of positions.
unfoldable pub sort_dedup : List ℕ → List ℕ
unfolding insert_pos
sort_dedup [] = []
sort_dedup (x ∷ xs) = insert_pos x (sort_dedup xs)

-- Each entry is above those before it, and above the bound.
abbrev pub Above : ℕ → List ℕ → Type 0
Above n [] = Unit {0}
Above n (x ∷ xs) = (n ≤ x) × Above (x + 1) xs

abbrev pub IsAscending : List ℕ → Type 0
IsAscending = Above 0

pub Above-mono : (m n : ℕ) (xs : List ℕ) → m ≤ n → Above n xs → Above m xs
Above-mono m n [] h a = tt
Above-mono m n (x ∷ xs) h a = (omega arith, a.1)

pub Above-mem : (n a : ℕ) (xs : List ℕ) → Above n xs → a ∈ xs → n ≤ a
Above-mem n a [] h m = absurd m
Above-mem n a (x ∷ xs) h (inl e) = omega arith
Above-mem n a (x ∷ xs) h (inr m) = omega (arith, Above-mem (x + 1) a xs h.1 m)

insert_pos-Above : (n a : ℕ) (xs : List ℕ) → n ≤ a → Above n xs → Above n (insert_pos a xs)
unfolding insert_pos
insert_pos-Above n a [] h s = (h, tt)
insert_pos-Above n a (x ∷ xs) h s = ground (arith, insert_pos-Above (x + 1) a xs)

mem-insert_pos : (a b : ℕ) (xs : List ℕ) → (b ∈ insert_pos a xs) ↔ ((b ≡ a) ⊎ (b ∈ xs))
unfolding insert_pos
mem-insert_pos a b [] = ground arith
mem-insert_pos a b (x ∷ xs) = ground (arith, mem-insert_pos a b xs)

pub sort_dedup-IsAscending : (xs : List ℕ) → IsAscending (sort_dedup xs)
unfolding sort_dedup
sort_dedup-IsAscending [] = tt
sort_dedup-IsAscending (x ∷ xs) =
    insert_pos-Above 0 x (sort_dedup xs) (omega arith) (sort_dedup-IsAscending xs)

pub mem-sort_dedup : (a : ℕ) (xs : List ℕ) → (a ∈ sort_dedup xs) ↔ (a ∈ xs)
unfolding sort_dedup
mem-sort_dedup a [] = ground arith
mem-sort_dedup a (x ∷ xs) = ground (arith, mem-insert_pos x a (sort_dedup xs), mem-sort_dedup a xs)
