-- ===== src/Daemon/Couplers/WellFormed.antt =====
-- The couplers of a session: no cycle among them, and none that names a process that is gone.
use montre.Prelude.{
  ℕ, ◌≡◌, sym, ap, ◌⊎◌, inl, inr, arith, ◌==◌, ==→≡, ◌||◌, Bool, Bool-cases, Option-cases, false,
  not, some, none, List, [], ◌∷◌, ◌∈◌, any, keep, mem-keep, subst,
}
use montre.Daemon.Protocol.{Coupler, CouplerKind, ProcessInfo}
use montre.Daemon.State.{State, done, find_process}
use montre.Daemon.Couplers.{
  coupler_creates_cycle, insert_coupler, coupler_create, coupler_remove, unregister_couplers,
}
use montre.Daemon.Couplers.Walk.{Reach, coupler_creates_cycle-Reach}
use montre.Daemon.Couplers.Acyclic.{IsAcyclic, Reach-keep, IsAcyclic-keep, IsAcyclic-cons}

abbrev pub IsRegistered : List ProcessInfo → ℕ → Type 0
IsRegistered roster id = (p : ProcessInfo) × (find_process id roster ≡ some p)

-- No cycle, and every coupler is between processes of the session.
pub record IsWellFormed (state : State) : Type 0 where
  pub acyclic : IsAcyclic state.couplers
  pub named :
      (c : Coupler)
      → c ∈ state.couplers
      → IsRegistered state.roster c.master_id × IsRegistered state.roster c.follower_id

abbrev pub new_coupler : ℕ → ℕ → ℕ → CouplerKind → Coupler
new_coupler id master follower kind = record {
  id = id;
  master_id = master;
  follower_id = follower;
  kind = kind;
}

-- What a success of `coupler_create` went through.
record Created (state : State) (master follower : ℕ) (kind : CouplerKind) (id : ℕ) (next : State)
    : Type 0 where
  has_master : IsRegistered state.roster master
  has_follower : IsRegistered state.roster follower
  no_cycle : coupler_creates_cycle state.couplers master follower ≡ false
  same_roster : next.roster ≡ state.roster
  added : next.couplers ≡ insert_coupler (new_coupler id master follower kind) state.couplers

coupler_create-Created :
    (state : State) (master follower : ℕ) (kind : CouplerKind) (id : ℕ) (next : State)
    → coupler_create state master follower kind ≡ done (id, next)
    → Created state master follower kind id next
unfolding coupler_create
coupler_create-Created state master follower kind id next e =
    elim (Option-cases (find_process master state.roster)) [
      | inl f ↦ absurd (ground arith)
      | inr (m, f) ↦ elim (Option-cases (find_process follower state.roster)) [
        | inl g ↦ absurd (ground arith)
        | inr (w, g) ↦ record {
          has_master = (m, f);
          has_follower = (w, g);
          no_cycle = ground arith;
          same_roster = ground arith;
          added = ground arith;
        }
      ]
    ]

pub insert_coupler-IsAcyclic :
    (new : Coupler) (cs : List Coupler)
    → IsAcyclic cs
    → ¬ Reach cs new.follower_id new.master_id
    → IsAcyclic (insert_coupler new cs)
unfolding insert_coupler
insert_coupler-IsAcyclic new cs acyclic apart =
    let kept = keep (λ c. not (c.id == new.id)) cs in
    IsAcyclic-cons new kept (IsAcyclic-keep (λ c. not (c.id == new.id)) cs acyclic)
      (λ r. apart (Reach-keep (λ c. not (c.id == new.id)) cs new.follower_id new.master_id r))

pub creates_no_cycle :
    (cs : List Coupler) (master follower : ℕ)
    → coupler_creates_cycle cs master follower ≡ false
    → ¬ Reach cs follower master
creates_no_cycle cs master follower none_found r =
    cc (none_found, (coupler_creates_cycle-Reach cs master follower).1 r)

pub mem-insert_coupler :
    (new c : Coupler) (cs : List Coupler) → c ∈ insert_coupler new cs → (c ≡ new) ⊎ (c ∈ cs)
unfolding insert_coupler
mem-insert_coupler new c cs (inl e) = inl e
mem-insert_coupler new c cs (inr m) = inr ((mem-keep (λ c. not (c.id == new.id)) c cs).0 m).0

-- If the couplers of a state have no cycle and name only processes of the session, so do those of the
-- state that a successful `coupler_create` leaves.
pub coupler_create-IsWellFormed :
    (state : State) (master follower : ℕ) (kind : CouplerKind) (id : ℕ) (next : State)
    → IsWellFormed state
    → coupler_create state master follower kind ≡ done (id, next)
    → IsWellFormed next
coupler_create-IsWellFormed state master follower kind id next good e =
    let made = coupler_create-Created state master follower kind id next e in
    let new = new_coupler id master follower kind in
    let apart = creates_no_cycle state.couplers master follower made.no_cycle in
    record {
      acyclic =
          subst IsAcyclic (sym made.added)
            (insert_coupler-IsAcyclic new state.couplers good.acyclic apart);
      named = λ c m.
          let ends : IsRegistered state.roster c.master_id
              × IsRegistered state.roster c.follower_id =
            elim (mem-insert_coupler new c state.couplers (subst (λ cs. c ∈ cs) made.added m)) [
              | inl same ↦
                  subst
                    (λ (d : Coupler).
                      IsRegistered state.roster d.master_id
                      × IsRegistered state.roster d.follower_id)
                    (sym same) (made.has_master, made.has_follower)
              | inr old ↦ good.named c old
            ] in
          subst (λ ps. IsRegistered ps c.master_id × IsRegistered ps c.follower_id)
            (sym made.same_roster) ends;
    }

pub find_process-keep :
    (id pid : ℕ) (roster : List ProcessInfo) (p : ProcessInfo)
    → (id ≡ pid → ⊥)
    → find_process id roster ≡ some p
    → find_process id (keep (λ q. not (q.id == pid)) roster) ≡ some p
unfolding find_process
find_process-keep id pid [] p other e = e
find_process-keep id pid (q ∷ roster) p other e = elim (Bool-cases (q.id == pid)) [
  | inl t ↦ let same = ==→≡ q.id pid t in ground (arith, find_process-keep id pid roster p other)
  | inr f ↦ ground (arith, find_process-keep id pid roster p other)
]

abbrev is_of : ℕ → Coupler → Bool
is_of pid c = c.master_id == pid || c.follower_id == pid

-- The state without a process and its couplers.
abbrev remaining : State → ℕ → State
remaining state pid = record state {
  roster = keep (λ p. not (p.id == pid)) state.roster;
  couplers = keep (λ c. not (is_of pid c)) state.couplers;
}

-- No coupler of the process.
abbrev pub IsFreeOf : ℕ → List Coupler → Type 0
IsFreeOf pid cs = (c : Coupler) → c ∈ cs → (c.master_id ≡ pid → ⊥) × (c.follower_id ≡ pid → ⊥)

remaining-IsFreeOf : (state : State) (pid : ℕ) → IsFreeOf pid (remaining state pid).couplers
remaining-IsFreeOf state pid c m =
    let kept = ((mem-keep (λ c. not (is_of pid c)) c state.couplers).0 m).1 in
    (λ e. ground arith, λ e. ground arith)

remaining-IsWellFormed :
    (state : State) (pid : ℕ) → IsWellFormed state → IsWellFormed (remaining state pid)
remaining-IsWellFormed state pid good = record {
  acyclic = IsAcyclic-keep (λ c. not (is_of pid c)) state.couplers good.acyclic;
  named = λ c m.
      let old = ((mem-keep (λ c. not (is_of pid c)) c state.couplers).0 m).0 in
      let other = remaining-IsFreeOf state pid c m in
      let ((p, e), (q, f)) = good.named c old in
      (
        (p, find_process-keep c.master_id pid state.roster p other.0 e),
        (q, find_process-keep c.follower_id pid state.roster q other.1 f),
      );
}

unregister_couplers-cases :
    (state : State) (pid : ℕ)
    → (unregister_couplers state pid ≡ state) × (find_process pid state.roster ≡ none)
      ⊎ (unregister_couplers state pid ≡ remaining state pid)
unfolding unregister_couplers
unregister_couplers-cases state pid = elim (Option-cases (find_process pid state.roster)) [
  | inl f ↦ inl (ground arith, f)
  | inr (gone, f) ↦ inr (ground arith)
]

-- `unregister` keeps the couplers free of cycles and between processes of the session, and leaves no
-- coupler of the process that is gone.
pub unregister_couplers-IsWellFormed :
    (state : State) (pid : ℕ)
    → IsWellFormed state
    → IsWellFormed (unregister_couplers state pid)
      × IsFreeOf pid (unregister_couplers state pid).couplers
unregister_couplers-IsWellFormed state pid good = elim (unregister_couplers-cases state pid) [
  | inl (same, absent) ↦ rw same (
    good,
    λ c m.
        let ((p, e), (q, f)) = good.named c m in
        (
          λ k. cc (absent, e, ap (λ i. find_process i state.roster) k),
          λ k. cc (absent, f, ap (λ i. find_process i state.roster) k),
        ),
  )
  | inr same ↦ rw same (remaining-IsWellFormed state pid good, remaining-IsFreeOf state pid)
]

coupler_remove-parts :
    (state : State) (id : ℕ) (next : State)
    → coupler_remove state id ≡ done next
    → (next.roster ≡ state.roster) × (next.couplers ≡ keep (λ c. not (c.id == id)) state.couplers)
unfolding coupler_remove
coupler_remove-parts state id next e = elim (Bool-cases (any (λ c. c.id == id) state.couplers)) [
  | inl t ↦ (ground arith, ground arith)
  | inr f ↦ absurd (ground arith)
]

-- `coupler_remove` keeps the couplers free of cycles and between processes of the session, and leaves
-- none with the id.
pub coupler_remove-IsWellFormed :
    (state : State) (id : ℕ) (next : State)
    → IsWellFormed state
    → coupler_remove state id ≡ done next
    → IsWellFormed next × ((c : Coupler) → c ∈ next.couplers → (c.id ≡ id → ⊥))
coupler_remove-IsWellFormed state id next good e =
    let (same_roster, same) = coupler_remove-parts state id next e in
    let old = λ (c : Coupler) (m : c ∈ next.couplers).
      (mem-keep (λ d. not (d.id == id)) c state.couplers).0 (subst (λ cs. c ∈ cs) same m) in
    (
      record {
        acyclic =
            subst IsAcyclic (sym same)
              (IsAcyclic-keep (λ c. not (c.id == id)) state.couplers good.acyclic);
        named = λ c m.
            subst (λ ps. IsRegistered ps c.master_id × IsRegistered ps c.follower_id)
              (sym same_roster) (good.named c (old c m).0);
      },
      λ c m k. let kept = (old c m).1 in ground arith,
    )
