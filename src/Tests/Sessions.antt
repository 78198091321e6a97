-- ===== src/Tests/Sessions.antt =====
-- A session of three processes, with a coupler from the first to the second.
use montre.Prelude.{ℕ, none, ◌≡◌, ◌↔◌, refl, sym, subst, inl, inr, arith, [], ◌∷◌, ◌∈◌, true}
use montre.Daemon.Protocol.{InterestKind, ProcessKind, Coupler, ProcessInfo, conllu_view}
use montre.Daemon.State.{State, new, done, find_process}
use montre.Daemon.Couplers.{
  coupler_creates_cycle, coupler_create, coupler_remove, unregister_couplers,
}
use montre.Daemon.Couplers.Walk.{Reach, here, along, coupler_creates_cycle-Reach}
use montre.Daemon.Couplers.WellFormed.{
  IsWellFormed, IsRegistered, IsFreeOf, coupler_create-IsWellFormed,
  unregister_couplers-IsWellFormed, coupler_remove-IsWellFormed,
}

abbrev reader : ℕ → ProcessInfo
reader id = record {
  id = id;
  kind = ProcessKind.external;
  label = none;
  current_interest = none;
  provides = InterestKind.sentence ∷ [];
  consumes = InterestKind.sentence ∷ [];
}

abbrev link : ℕ → ℕ → ℕ → Coupler
link id a b = record { id = id; master_id = a; follower_id = b; kind = conllu_view }

abbrev session : State
session = record (new 1 [] 0) {
  roster = reader 1 ∷ reader 2 ∷ reader 3 ∷ [];
  couplers = link 1 1 2 ∷ [];
  next_coupler_id = 2;
}

abbrev longer_session : State
longer_session = record (new 1 [] 0) {
  roster = reader 1 ∷ reader 2 ∷ reader 3 ∷ [];
  couplers = link 2 2 3 ∷ link 1 1 2 ∷ [];
  next_coupler_id = 3;
}

abbrev unlinked_session : State
unlinked_session = record (new 1 [] 0) {
  roster = reader 1 ∷ reader 2 ∷ reader 3 ∷ [];
  couplers = [];
  next_coupler_id = 2;
}

no_way_back : (a b : ℕ) → 1 ≡ a → 2 ≡ b → ¬ Reach (link 1 1 2 ∷ []) b a
no_way_back a b e f (here same) = omega arith
no_way_back a b e f (along (inl (m, w)) r) = omega arith
no_way_back a b e f (along (inr edge) r) = edge

session-IsWellFormed : IsWellFormed session
unfolding find_process
session-IsWellFormed = record {
  acyclic = λ a b edge r. elim edge [ inl (m, w) ↦ no_way_back a b m w r | inr k ↦ k ];
  named = λ c m. elim m [
    | inl e ↦
        subst
          (λ (d : Coupler).
            IsRegistered session.roster d.master_id × IsRegistered session.roster d.follower_id)
          (sym e) ((reader 1, refl), (reader 2, refl))
    | inr k ↦ absurd k
  ];
}

session-linked : coupler_create session 2 3 conllu_view ≡ done (2, longer_session)
unfolding coupler_create
session-linked = refl

session-unlinked : coupler_remove session 1 ≡ done unlinked_session
unfolding coupler_remove
session-unlinked = refl

coupler_creates_cycle-Reach_example :
    (coupler_creates_cycle (link 1 1 2 ∷ link 2 2 3 ∷ []) 3 1 ≡ true)
    ↔ Reach (link 1 1 2 ∷ link 2 2 3 ∷ []) 1 3
coupler_creates_cycle-Reach_example = coupler_creates_cycle-Reach (link 1 1 2 ∷ link 2 2 3 ∷ []) 3 1

coupler_create-IsWellFormed_example : IsWellFormed longer_session
coupler_create-IsWellFormed_example =
    coupler_create-IsWellFormed session 2 3 conllu_view 2 longer_session session-IsWellFormed
      session-linked

unregister_couplers-IsWellFormed_example :
    IsWellFormed (unregister_couplers session 2)
    × IsFreeOf 2 (unregister_couplers session 2).couplers
unregister_couplers-IsWellFormed_example =
    unregister_couplers-IsWellFormed session 2 session-IsWellFormed

coupler_remove-IsWellFormed_example :
    IsWellFormed unlinked_session × ((c : Coupler) → c ∈ unlinked_session.couplers → (c.id ≡ 1 → ⊥))
coupler_remove-IsWellFormed_example =
    coupler_remove-IsWellFormed session 1 unlinked_session session-IsWellFormed session-unlinked
