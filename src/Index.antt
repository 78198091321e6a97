-- ===== src/Index.antt =====
-- What the engine takes from the crates that it links: compressed bitmaps, regular expressions and
-- the iteration order of a hash map.
pub mod Corpus
pub mod Maps
pub mod Lexicon
pub mod Spans
pub mod Inverted
use mathlib.Core.List.{Permᴰ}
use montre.Prelude.{
  ℕ, Text, List, [], Option, Bool, ◌≡◌, ◌↔◌, ◌⊎◌, ◌∈◌, IsAscending, length, none, some, ◌∷◌,
  text_eq, if◌then◌else◌,
}

-- The crates `roaring` and `regex`, and `std::collections::HashMap`, as the code relies on them: a
-- bitmap iterates in ascending order, its length counts what it iterates, `|=` is the union,
-- `insert` adds a position, and a hash map iterates over its entries in an order of its own. The
-- order is that of one execution, in which maps of the same content iterate alike; the program's maps
-- have a random state each.
pub record Crates : Type 1 where
  pub Bitmap : Type 0
  pub empty : Bitmap
  pub union : Bitmap → Bitmap → Bitmap
  pub insert : ℕ → Bitmap → Bitmap
  pub iter : Bitmap → List ℕ
  pub len : Bitmap → ℕ
  pub regex_new : Text → Option (Text → Bool)
  pub hash_order : (A : Type 0) → List (ℕ × A) → List (ℕ × A)
  pub iter-IsAscending : (b : Bitmap) → IsAscending (iter b)
  pub len-iter : (b : Bitmap) → len b ≡ length (iter b)
  pub iter-empty : iter empty ≡ []
  pub iter-union : (a b : Bitmap) (p : ℕ) → (p ∈ iter (union a b)) ↔ ((p ∈ iter a) ⊎ (p ∈ iter b))
  pub iter-insert :
      (q : ℕ) (b : Bitmap) (p : ℕ) → (p ∈ iter (insert q b)) ↔ ((p ≡ q) ⊎ (p ∈ iter b))
  pub hash_order-perm : (A : Type 0) (m : List (ℕ × A)) → Permᴰ (hash_order A m) m
