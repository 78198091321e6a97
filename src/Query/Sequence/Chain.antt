-- ===== src/Query/Sequence/Chain.antt =====
-- The later steps of a sequence, against chains of spans.
use montre.Prelude.{
  ℕ, ◌≤◌, ◌≡◌, refl, sym, ◌↔◌, ◌⊎◌, inl, inr, arith, ◌==◌, List, [], ◌∷◌, ◌∈◌, map, flat_map,
  if◌then◌else◌, subst,
}
use montre.Index.{Crates}
use montre.Query.Sequence.{
  Stage, Tracker, unlabeled, labeled, Active, continuations, extend_all, entry_pushes, advance,
  later_steps,
}
use montre.Query.Sequence.Entries.{
  HasStart, HasPush, HasStart-collected, HasStart-perm, HasPush-append,
}
use montre.Query.Sequence.Step.{StepSpan, Chain, Fits, AllFit, step_iff, StepSpan-high}

-- The start of a partial match is the start of its first span, and later steps keep it.
pub record KeepsStart {A : Type 0} (tracker : Tracker A) : Type 0 where
  pub key-begin : (stage : Stage) (a b : ℕ) → tracker.key (tracker.begin stage a b) ≡ a
  pub key-extend :
      (stage : Stage) (a b : ℕ) (item : A)
      → tracker.key (tracker.extend stage a b item) ≡ tracker.key item

pub unlabeled-KeepsStart : KeepsStart unlabeled
unfolding unlabeled
unlabeled-KeepsStart = record { key-begin = λ _ _ _. refl; key-extend = λ _ _ _ _. refl }

pub labeled-KeepsStart : KeepsStart labeled
unfolding labeled
labeled-KeepsStart = record { key-begin = λ _ _ _. refl; key-extend = λ _ _ _ _. refl }

module _ {A : Type 0} (tracker : Tracker A) (keeps : KeepsStart tracker) where
  abbrev key : A → ℕ
  key = tracker.key

  HasPush-extend_all :
      (stage : Stage) (pos to : ℕ) (items : List A) (e s : ℕ)
      → HasPush key (extend_all tracker stage pos items to) e s ↔ ((to ≡ e) × (s ∈ map key items))
  HasPush-extend_all stage pos to [] e s = ground arith
  HasPush-extend_all stage pos to (i ∷ items) e s =
      ground (arith, keeps.key-extend stage pos to i, HasPush-extend_all stage pos to items e s)

  HasPush-ends :
      (stage : Stage) (pos : ℕ) (items : List A) (ends : List ℕ) (e s : ℕ)
      → HasPush key (flat_map (extend_all tracker stage pos items) ends) e s
        ↔ ((e ∈ ends) × (s ∈ map key items))
  HasPush-ends stage pos items [] e s = ground arith
  HasPush-ends stage pos items (to ∷ ends) e s = ground (
    arith,
    HasPush-append key (extend_all tracker stage pos items to)
        (flat_map (extend_all tracker stage pos items) ends) e s,
    HasPush-extend_all stage pos to items e s,
    HasPush-ends stage pos items ends e s,
  )

  HasPush-entry :
      (stage : Stage) (high pos : ℕ) (items : List A) (e s : ℕ)
      → HasPush key (entry_pushes tracker stage high (pos, items)) e s ↔ (
          (s ∈ map key items)
          × ((stage.least ≡ 0) × (e ≡ pos) ⊎ (e ∈ continuations stage high pos)))
  unfolding entry_pushes
  HasPush-entry stage high pos items e s = ground (
    arith,
    HasPush-append key (if stage.least == 0 then extend_all tracker stage pos items pos else [])
        (flat_map (extend_all tracker stage pos items) (continuations stage high pos)) e s,
    HasPush-extend_all stage pos pos items e s,
    HasPush-ends stage pos items (continuations stage high pos) e s,
  )

  -- One step, over all entries.
  HasPush-entries :
      (stage : Stage) (high : ℕ) (active : Active A) (e s : ℕ)
      → HasPush key (flat_map (entry_pushes tracker stage high) active) e s ↔ (
          (pos : ℕ) × HasStart key active pos s
          × ((stage.least ≡ 0) × (e ≡ pos) ⊎ (e ∈ continuations stage high pos)))
  HasPush-entries stage high [] e s = (λ m. absurd m, λ (pos, h, k). absurd h)
  HasPush-entries stage high ((pos, items) ∷ active) e s =
      let both =
        HasPush-append key (entry_pushes tracker stage high (pos, items))
          (flat_map (entry_pushes tracker stage high) active) e s in
      let here = HasPush-entry stage high pos items e s in
      let rest = HasPush-entries stage high active e s in
      (
        λ m. elim (both.0 m) [
          | inl k ↦ (pos, inl (refl, (here.0 k).0), (here.0 k).1)
          | inr k ↦ let (p, h, r) = rest.0 k in (p, inr h, r)
        ],
        λ (p, h, r). both.1 (elim h [
          | inl (q, m) ↦ inl (
              here.1 (
                m,
                subst (λ t. (stage.least ≡ 0) × (e ≡ t) ⊎ (e ∈ continuations stage high t)) (sym q)
                    r,
              ))
          | inr k ↦ inr (rest.1 (p, k, r))
        ]),
      )

module _ (x : Crates) {A : Type 0} (tracker : Tracker A) (keeps : KeepsStart tracker) where
  abbrev pub Held : Active A → ℕ → ℕ → Type 0
  Held = HasStart tracker.key

  abbrev pub Bounded : ℕ → ℕ → Active A → Type 0
  Bounded low high active = (e s : ℕ) → Held active e s → (low ≤ e) × (e ≤ high)

  -- One step extends each partial match by the spans that the step matches.
  HasStart-advance :
      (low high : ℕ) (stage : Stage) (active : Active A) (e s : ℕ)
      → Fits low high stage
      → Bounded low high active
      → Held (advance x tracker stage high active) e s
        ↔ ((pos : ℕ) × Held active pos s × StepSpan stage pos e)
  unfolding advance
  HasStart-advance low high stage active e s fits bounded =
      let order = x.hash_order (List A) active in
      let shuffle =
        λ (pos : ℕ). HasStart-perm tracker.key pos s (x.hash_order-perm (List A) active) in
      let pushed =
        HasStart-collected tracker.key (flat_map (entry_pushes tracker stage high) order) e s in
      let entries = HasPush-entries tracker keeps stage high order e s in
      (
        λ m.
            let (pos, h, r) = entries.0 (pushed.0 m) in
            let held = (shuffle pos).0 h in
            let (l, u) = bounded pos s held in
            (pos, held, (step_iff low high stage pos e fits l u).0 r),
        λ (pos, h, k).
            let (l, u) = bounded pos s h in
            pushed.1
              (entries.1 (pos, (shuffle pos).1 h, (step_iff low high stage pos e fits l u).1 k)),
      )

  advance-Bounded :
      (low high : ℕ) (stage : Stage) (active : Active A)
      → Fits low high stage
      → Bounded low high active
      → Bounded low high (advance x tracker stage high active)
  advance-Bounded low high stage active fits bounded e s m =
      let (pos, h, k) = (HasStart-advance low high stage active e s fits bounded).0 m in
      let (l, u) = bounded pos s h in StepSpan-high low high stage pos e fits l u k

  pub HasStart-later_steps :
      (low high : ℕ) (stages : List Stage) (active : Active A) (e s : ℕ)
      → AllFit low high stages
      → Bounded low high active
      → Held (later_steps x tracker stages high active) e s
        ↔ ((m : ℕ) × Held active m s × Chain stages m e)
  unfolding later_steps
  HasStart-later_steps low high [] active e s fit bounded =
      (λ h. (e, h, refl), λ (m, h, c). subst (λ t. Held active t s) c h)
  HasStart-later_steps low high (stage ∷ stages) [] e s fit bounded =
      (λ h. absurd h, λ (m, h, c). absurd h)
  HasStart-later_steps low high (stage ∷ stages) (entry ∷ active) e s fit bounded =
      let all : Active A = entry ∷ active in
      let next = λ (m : ℕ). HasStart-advance low high stage all m s fit.0 bounded in
      let rest =
        HasStart-later_steps low high stages (advance x tracker stage high all) e s fit.1
          (advance-Bounded low high stage all fit.0 bounded) in
      (
        λ h.
            let (m, held, c) = rest.0 h in
            let (pos, k, step) = (next m).0 held in (pos, k, (m, step, c)),
        λ (pos, k, (m, step, c)). rest.1 (m, (next m).1 (pos, k, step), c),
      )
