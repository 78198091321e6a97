-- ===== src/Index/Inverted.antt =====
-- crates/montre-index/src/inverted.rs: `InMemoryInverted`, the positions of each value of a layer.
pub mod Values
pub mod Merge
use montre.Prelude.{ℕ, ◌+◌, Option, some, none, Text, List, [], ◌∷◌, map}
use montre.Core.{as_u32}
use montre.Index.{Crates}
use montre.Index.Corpus.{lookup, keys}
use montre.Index.Maps.{or_default, remove_key, insert_key}

module _ (crates : Crates) where
  abbrev pub Values : Type 0
  Values = List (Text × crates.Bitmap)

  abbrev pub InMemoryInverted : Type 0
  InMemoryInverted = List (Text × Values)

  -- `or_default` of a bitmap.
  abbrev pub or_empty : Option crates.Bitmap → crates.Bitmap
  or_empty none = crates.empty
  or_empty (some b) = b

  -- `insert` at each position, cut to 32 bits.
  unfoldable pub insert_all : List ℕ → crates.Bitmap → crates.Bitmap
  insert_all [] b = b
  insert_all (p ∷ ps) b = insert_all ps (crates.insert (as_u32 p) b)

  unfoldable pub insert : Text → Text → List ℕ → InMemoryInverted → InMemoryInverted
  unfolding lookup remove_key insert_all
  insert layer value positions m =
      let values = or_default (lookup layer m) in
      insert_key layer
        (insert_key value (insert_all positions (or_empty (lookup value values))) values) m

  -- The positions of a bitmap, with the offset added in 32 bits: a sum that leaves them wraps.
  unfoldable pub shifted : ℕ → crates.Bitmap → crates.Bitmap
  unfolding insert_all
  shifted offset b = insert_all (map (λ p. p + offset) (crates.iter b)) crates.empty

  unfoldable pub merge_value : ℕ → Text → crates.Bitmap → Values → Values
  unfolding lookup remove_key shifted
  merge_value offset value b values = elim (lookup value values) [
    | none ↦ insert_key value (shifted offset b) values
    | some existing ↦ insert_key value (crates.union existing (shifted offset b)) values
  ]

  unfoldable pub merge_values : ℕ → Values → Values → Values
  unfolding merge_value
  merge_values offset [] values = values
  merge_values offset ((value, b) ∷ more) values =
      merge_values offset more (merge_value offset value b values)

  module _ (order : (V : Type 0) → List (Text × V) → List (Text × V)) where
    unfoldable pub merge_layers : ℕ → InMemoryInverted → InMemoryInverted → InMemoryInverted
    unfolding lookup remove_key merge_values
    merge_layers offset [] m = m
    merge_layers offset ((layer, values) ∷ layers) m = merge_layers offset layers (
        insert_key layer
          (merge_values offset (order crates.Bitmap values) (or_default (lookup layer m))) m)

    -- `order` is the order in which a hash map iterates.
    unfoldable pub merge_from : InMemoryInverted → ℕ → InMemoryInverted → InMemoryInverted
    unfolding merge_layers
    merge_from other offset m = merge_layers offset (order Values other) m
