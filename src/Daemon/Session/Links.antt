-- ===== src/Daemon/Session/Links.antt =====
-- The operations of crates/montre-daemon/src/state.rs on couplers keep the invariant, and so does the
-- end of a process.
use montre.Prelude.{
  ℕ, ◌==◌, ◌≡◌, refl, sym, subst, inl, inr, arith, Option-split, not, none, List, [], ◌∷◌, mem-keep,
  keep, any, ◌||◌,
}
use montre.Index.Corpus.{Corpus}
use montre.Daemon.Protocol.{Coupler, CouplerKind, ProcessInfo, coupler_kind_compat}
use montre.Daemon.State.{State, Send, find_process}
use montre.Daemon.Couplers.{
  coupler_creates_cycle, coupler_create, coupler_remove, unregister_couplers, unregister, emptied,
}
use montre.Daemon.Couplers.Acyclic.{IsAcyclic-keep}
use montre.Daemon.Couplers.WellFormed.{
  find_process-keep, new_coupler, insert_coupler-IsAcyclic, mem-insert_coupler, creates_no_cycle,
}
use montre.Daemon.Interests.{current_interest_of, coupler_create_and_tell}
use montre.Daemon.Session.Invariant.{Linked, IdleMark, find_process-left, IdleMark-found}
use montre.Daemon.Session.Steps.{
  Holds, Holds-done, Holds-failed, Holds-if, Holds-then, Kept, LeftKept,
}

pub coupler_remove-Kept :
    (n : ℕ) (state : State) (id : ℕ) → Kept n state → Holds (Kept n) (coupler_remove state id)
unfolding coupler_remove
coupler_remove-Kept n state id (good, least) =
    Holds-if (any (λ (c : Coupler). c.id == id) state.couplers)
      (λ _. Holds-done (
        record {
          acyclic = IsAcyclic-keep (λ c. not (c.id == id)) state.couplers good.acyclic;
          linked = λ c m. good.linked c ((mem-keep (λ c. not (c.id == id)) c state.couplers).0 m).0;
          subscribed = good.subscribed;
          provided = good.provided;
          below = good.below;
          idle = good.idle;
        },
        least,
      ))
      (λ _. Holds-failed)

-- The state, and an id, that `coupler_create` makes.
abbrev CreatedKept : ℕ → ℕ × State → Type 0
CreatedKept n (id, next) = Kept n next

coupler_create-Kept :
    (n : ℕ) (state : State) (master follower : ℕ) (kind : CouplerKind)
    → Kept n state
    → Holds (CreatedKept n) (coupler_create state master follower kind)
unfolding coupler_create
coupler_create-Kept n state master follower kind (good, least) =
    Option-split (Holds (CreatedKept n)) (find_process master state.roster) (λ _. Holds-failed)
      λ m e.
        Option-split (Holds (CreatedKept n)) (find_process follower state.roster)
          (λ _. Holds-failed)
          λ w g.
            Holds-if (coupler_creates_cycle state.couplers master follower) (λ _. Holds-failed)
              λ no_cycle.
                Holds-if (not (coupler_kind_compat kind m.provides w.consumes)) (λ _. Holds-failed)
                  λ fits.
                    let new = new_coupler state.next_coupler_id master follower kind in
                    Holds-done (
                      record {
                        acyclic =
                            insert_coupler-IsAcyclic new state.couplers good.acyclic
                              (creates_no_cycle state.couplers master follower no_cycle);
                        linked = λ c k. elim (mem-insert_coupler new c state.couplers k) [
                          | inl same ↦
                              subst (Linked state.roster) (sym same) (m, w, e, g, ground arith)
                          | inr old ↦ good.linked c old
                        ];
                        subscribed = good.subscribed;
                        provided = good.provided;
                        below = good.below;
                        idle = good.idle;
                      },
                      least,
                    )

-- The state that is left, with an id and notifications.
abbrev pub ToldKept : ℕ → ℕ × State × List Send → Type 0
ToldKept n (id, next, sends) = Kept n next

pub coupler_create_and_tell-Kept :
    {B : Type 0} (corpus : Corpus B) (n : ℕ) (state : State) (master follower : ℕ)
    (kind : CouplerKind)
    → Kept n state
    → Holds (ToldKept n) (coupler_create_and_tell corpus state master follower kind)
unfolding coupler_create_and_tell
coupler_create_and_tell-Kept corpus n state master follower kind kept =
    Holds-then (coupler_create-Kept n state master follower kind kept) λ (id, next) k.
      Option-split (Holds (ToldKept n)) (current_interest_of next master) (λ _. Holds-done k)
        (λ i e. Holds-done k)

pub unregister-Kept :
    (n : ℕ) (state : State) (pid now : ℕ) → Kept n state → LeftKept n (unregister state pid now)
unfolding unregister unregister_couplers
unregister-Kept n state pid now (good, least) =
    Option-split (LeftKept n) (find_process pid state.roster) (λ _. (good, least))
      λ gone e.
        rw (e, unregister_couplers)
          (
            record {
              acyclic =
                  IsAcyclic-keep (λ c. not (c.master_id == pid || c.follower_id == pid))
                    state.couplers good.acyclic;
              linked = λ c k.
                  let (old, free) =
                    (mem-keep (λ c. not (c.master_id == pid || c.follower_id == pid)) c
                        state.couplers).0
                      k in
                  let (m, f, g, h, fits) = good.linked c old in
                  (
                    m,
                    f,
                    find_process-keep c.master_id pid state.roster m (λ same. ground arith) g,
                    find_process-keep c.follower_id pid state.roster f (λ same. ground arith) h,
                    fits,
                  );
              subscribed = λ t q k.
                  let (old, other) =
                    (mem-keep (λ r. not (r == pid)) q (state.subscriptions t)).0 k in
                  let (p, g) = good.subscribed t q old in
                  (p, find_process-keep q pid state.roster p (λ same. ground arith) g);
              provided = λ k p g. good.provided k p (find_process-left k pid state.roster p g);
              below = λ k p g. good.below k p (find_process-left k pid state.roster p g);
              idle =
                  IdleMark-emptied (keep (λ p. not (p.id == pid)) state.roster)
                    (IdleMark-found pid state.roster _ gone e good.idle);
            },
            least,
          )
  where
    IdleMark-emptied :
        (left : List ProcessInfo)
        → state.roster_emptied_at ≡ none
        → IdleMark left (emptied left now state.roster_emptied_at)
    IdleMark-emptied [] h = (now, refl)
    IdleMark-emptied (p ∷ left) h = h
