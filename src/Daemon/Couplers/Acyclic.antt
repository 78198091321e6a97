-- ===== src/Daemon/Couplers/Acyclic.antt =====
-- Couplers without a cycle, and a path with one more coupler.
use montre.Prelude.{ℕ, sym, ◌⊎◌, inl, inr, Bool, Bool-cases, List, [], ◌∷◌, keep, subst}
use montre.Daemon.Protocol.{Coupler}
use montre.Daemon.Couplers.Walk.{Edge, Reach, here, along}

-- No coupler leads back to where it starts.
abbrev pub IsAcyclic : List Coupler → Type 0
IsAcyclic cs = (a b : ℕ) → Edge cs a b → ¬ Reach cs b a

Edge-keep :
    (test : Coupler → Bool) (cs : List Coupler) (a b : ℕ) → Edge (keep test cs) a b → Edge cs a b
Edge-keep test [] a b e = e
Edge-keep test (c ∷ cs) a b e = elim (Bool-cases (test c)) [
  | inl t ↦ elim (rw t at e) [ inl k ↦ inl k | inr k ↦ inr (Edge-keep test cs a b k) ]
  | inr f ↦ inr (Edge-keep test cs a b (rw f at e))
]

pub Reach-keep :
    (test : Coupler → Bool) (cs : List Coupler) (a b : ℕ) → Reach (keep test cs) a b → Reach cs a b
Reach-keep test cs a b (here e) = here e
Reach-keep test cs a c (along {b = b} edge r) =
    along (Edge-keep test cs a b edge) (Reach-keep test cs b c r)

pub IsAcyclic-keep :
    (test : Coupler → Bool) (cs : List Coupler) → IsAcyclic cs → IsAcyclic (keep test cs)
IsAcyclic-keep test cs acyclic a b edge r =
    acyclic a b (Edge-keep test cs a b edge) (Reach-keep test cs b a r)

module _ (new : Coupler) (cs : List Coupler) where
  -- A path with one more coupler goes without it, or to it and from it.
  Reach-cons :
      (a b : ℕ)
      → Reach (new ∷ cs) a b
      → Reach cs a b ⊎ (Reach cs a new.master_id × Reach cs new.follower_id b)
  Reach-cons a b (here e) = inl (here e)
  Reach-cons a c (along {b = b} (inl (m, f)) r) = elim (Reach-cons b c r) [
    | inl old ↦ inr (here (sym m), subst (λ t. Reach cs t c) (sym f) old)
    | inr (to, from) ↦ inr (here (sym m), from)
  ]
  Reach-cons a c (along {b = b} (inr edge) r) = elim (Reach-cons b c r) [
    | inl old ↦ inl (along edge old)
    | inr (to, from) ↦ inr (along edge to, from)
  ]

  Reach-join : (a b c : ℕ) → Reach cs a b → Reach cs b c → Reach cs a c
  Reach-join a b c (here e) r = subst (λ t. Reach cs t c) (sym e) r
  Reach-join a b c (along {b = m} edge q) r = along edge (Reach-join m b c q r)

  pub IsAcyclic-cons :
      IsAcyclic cs → ¬ Reach cs new.follower_id new.master_id → IsAcyclic (new ∷ cs)
  IsAcyclic-cons acyclic apart a b (inl (m, f)) r = elim (Reach-cons b a r) [
    | inl old ↦
        apart
          (subst (λ t. Reach cs new.follower_id t) (sym m) (subst (λ t. Reach cs t a) (sym f) old))
    | inr (to, from) ↦ apart (subst (λ t. Reach cs t new.master_id) (sym f) to)
  ]
  IsAcyclic-cons acyclic apart a b (inr edge) r = elim (Reach-cons b a r) [
    | inl old ↦ acyclic a b edge old
    | inr (to, from) ↦ apart (Reach-join new.follower_id a new.master_id from (along edge to))
  ]
