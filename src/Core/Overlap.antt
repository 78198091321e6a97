-- ===== src/Core/Overlap.antt =====
-- Spans as sets of positions.
use montre.Prelude.{ℕ, ◌<◌, ◌≡◌, ◌↔◌, arith, Bool-cases, inl, inr, leb, leb→le, leb→gt, true}
use montre.Core.{Span, contains, overlaps}

-- Two spans that are not empty overlap exactly when some position is in both.
pub overlaps-contains :
    (s t : Span)
    → s.start < s.end
    → t.start < t.end
    → (overlaps s t ≡ true) ↔ ((p : ℕ) × (contains s p ≡ true) × (contains t p ≡ true))
unfolding overlaps contains
overlaps-contains s t h k = (
  λ e. elim (Bool-cases (leb s.start t.start)) [
    | inl b ↦ let le = leb→le s.start t.start b in (t.start, ground arith, ground arith)
    | inr b ↦ let gt = leb→gt s.start t.start b in (s.start, ground arith, ground arith)
  ],
  λ (p, m, n). ground arith,
)
