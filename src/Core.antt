-- ===== src/Core.antt =====
-- crates/montre-core/src/lib.rs: positions, spans, and the search for the span around a position.
pub mod Search
pub mod Overlap
use montre.Prelude.{
  Bool, false, true, ◌&&◌, ◌-◌, ◌+◌, ◌/◌, ◌%◌, ◌==◌, if◌then◌else◌, leb, ltb, List, ℕ, zero, suc,
  Option, none, some, get_elem?, length, Text,
}
use Prim.Native.Nat.{Ordering}

-- `as u32`
abbrev pub as_u32 : ℕ → ℕ
as_u32 n = n % 4294967296

-- `start` and `end` are `u64` positions; corpora hold fewer than 2 ^ 32 tokens.
pub record Span : Type 0 where
  pub start : ℕ
  pub end : ℕ

abbrev pub span : ℕ → ℕ → Span
span a b = record { start = a; end = b }

module _ (s : Span) where
  unfoldable pub len : ℕ
  len = s.end - s.start

  unfoldable pub is_empty : Bool
  is_empty = s.start == s.end

  unfoldable pub contains : ℕ → Bool
  contains position = leb s.start position && ltb position s.end

  unfoldable pub contains_span : Span → Bool
  contains_span other = leb s.start other.start && leb other.end s.end

  unfoldable pub overlaps : Span → Bool
  overlaps other = ltb s.start other.end && ltb other.start s.end

-- `Span::new`: `none` is the failed assertion.
unfoldable pub new : ℕ → ℕ → Option Span
new start end = if leb start end then some (span start end) else none

-- The comparison that `span_containing` searches with.
abbrev pub compare_span : ℕ → Span → Ordering
compare_span position s =
    if leb s.end position
    then Ordering.lt
    else if ltb position s.start
    then Ordering.gt
    else Ordering.eq

-- `binary_search_by` on `spans[lo..hi)`, by bisection; each round costs a unit of fuel.
unfoldable pub search : ℕ → List Span → ℕ → ℕ → ℕ → Option ℕ
search zero spans position lo hi = none
search (suc fuel) spans position lo hi =
    let mid = lo + (hi - lo) / 2 in
    let halves : Option ℕ = elim (get_elem? spans mid) [
      | none ↦ none
      | some s ↦ elim (compare_span position s) [
        | Ordering.lt ↦ search fuel spans position (mid + 1) hi
        | Ordering.gt ↦ search fuel spans position lo mid
        | Ordering.eq ↦ some mid
      ]
    ] in
    if ltb lo hi then halves else none

unfoldable pub span_containing : List Span → ℕ → Option ℕ
unfolding search
span_containing spans position = search (suc (length spans)) spans position 0 (length spans)

pub data LayerKind : Type 0 where
  string int : LayerKind

-- `(document_index, unit_index_within_doc)`, two `u32`.
abbrev pub UnitId : Type 0
UnitId = ℕ × ℕ
