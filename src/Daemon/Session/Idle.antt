-- ===== src/Daemon/Session/Idle.antt =====
-- The idle timeout of crates/montre-daemon/src/state.rs.
use montre.Prelude.{
  ℕ, ◌-◌, ◌≤◌, ◌≡◌, refl, sym, ◌∙◌, ◌↔◌, inl, inr, arith, true, false, Bool-cases, Option-cases,
  Option, some, some-eq-some, List, [], ◌∷◌, leb, leb→le, leb→gt,
}
use montre.Daemon.Protocol.{ProcessInfo}
use montre.Daemon.State.{State, initiate_shutdown, check_idle_timeout}
use montre.Daemon.Session.Invariant.{IsSession, IdleMark}

-- A roster without processes, for as long as the timeout.
abbrev pub IsIdle : List ProcessInfo → Option ℕ → ℕ → ℕ → Type 0
IsIdle roster mark timeout now = (roster ≡ []) × (t : ℕ) × (mark ≡ some t) × (timeout ≤ now - t)

IdleMark-nil :
    (roster : List ProcessInfo) (mark : Option ℕ) (t : ℕ)
    → IdleMark roster mark
    → mark ≡ some t
    → roster ≡ []
IdleMark-nil [] mark t h e = refl
IdleMark-nil (p ∷ roster) mark t h e = cc

-- In a session that keeps its invariant and is not shutting down, a check of the idle timeout shuts
-- the daemon down exactly if no process is there, and the last one left as long ago as the timeout.
pub check_idle_timeout-IsIdle :
    (state : State) (timeout now : ℕ)
    → IsSession state
    → state.idle_timeout ≡ some timeout
    → state.shutting_down ≡ false
    → ((check_idle_timeout state now).0.shutting_down ≡ true)
      ↔ IsIdle state.roster state.roster_emptied_at timeout now
unfolding check_idle_timeout initiate_shutdown
check_idle_timeout-IsIdle state timeout now good e f = elim (Option-cases state.roster_emptied_at) [
  | inl none_marked ↦ (
    λ h. cc (rw (e, none_marked, check_idle_timeout) at h, f),
    λ (_, t, g, _). cc (none_marked, g),
  )
  | inr (t, g) ↦ elim (Bool-cases (leb timeout (now - t))) [
    | inl late ↦ (
      λ _. (IdleMark-nil state.roster _ t good.idle g, t, g, leb→le _ _ late),
      λ _. rw (e, g, late, f, check_idle_timeout) refl,
    )
    | inr early ↦ (
      λ h. cc (rw (e, g, early, check_idle_timeout) at h, f),
      λ (_, u, k, least).
          let same : t ≡ u = some-eq-some (sym g ∙ k) in
          absurd (omega (arith, leb→gt _ _ early, same, least)),
    )
  ]
]
