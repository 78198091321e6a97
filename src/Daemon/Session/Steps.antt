-- ===== src/Daemon/Session/Steps.antt =====
-- Each operation of crates/montre-daemon/src/state.rs keeps the invariant.
use montre.Prelude.{
  ℕ, suc, ◌≤◌, ◌<◌, ◌==◌, ==→≡, ==→≢, ◌≡◌, refl, sym, ◌∙◌, subst, ◌⊎◌, inl, inr, arith, Bool, true,
  false, Bool-cases, Option-split, Bool-split, not, Option, some, some-eq-some, Text, List, ◌∷◌,
  ◌∈◌, mem-keep, keep, if◌then◌else◌,
}
use montre.Index.Corpus.{Corpus}
use montre.Daemon.Protocol.{
  ProtocolError, ProcessInfo, Interest, interest_kind, RegisterParams, Topic, contains,
}
use montre.Daemon.State.{
  State, Outcome, done, failed, Send, find_process, next_id, update_process, with_label,
  with_subscribers, is_registered, topic_eq, registered_info, register, update_label, subscribe,
  unsubscribe,
}
use montre.Daemon.Couplers.WellFormed.{IsRegistered, find_process-keep}
use montre.Daemon.Interests.{with_interest, publish_interest}
use montre.Daemon.Session.Invariant.{
  IsSession, HasProvided, Keeps, Linked-Keeps, IsRegistered-Keeps, is_registered-IsRegistered,
  Keeps-update_process, find_process-update_process, IdleMark-update_process,
  find_process-keep_back,
}

abbrev HoldsOf : {A : Type 0} → (A → Type 0) → Outcome A → Type 0
HoldsOf P (done a) = P a
HoldsOf P (failed e) = Unit {0}

-- What holds of the value of a success.
pub record Holds {A : Type 0} (P : A → Type 0) (o : Outcome A) : Type 0 where
  pub outcome : HoldsOf P o

pub Holds-done : {A : Type 0} {P : A → Type 0} {a : A} → P a → Holds P (done a)
Holds-done h = record { outcome = h }

pub Holds-failed : {A : Type 0} {P : A → Type 0} {e : ProtocolError} → Holds P (failed e)
Holds-failed = record { outcome = tt }

pub Holds-if :
    {A : Type 0} {P : A → Type 0} (b : Bool) {x y : Outcome A}
    → (b ≡ true → Holds P x)
    → (b ≡ false → Holds P y)
    → Holds P (if b then x else y)
Holds-if true h k = h refl
Holds-if false h k = k refl

-- What follows a success.
pub Holds-then :
    {A B : Type 0} {P : A → Type 0} {Q : B → Type 0} {o : Outcome A} {f : A → Outcome B}
    → Holds P o
    → ((a : A) → P a → Holds Q (f a))
    → Holds Q (elim o [ failed e ↦ failed e | done a ↦ f a ])
Holds-then {o = done a} h k = k a h.outcome
Holds-then {o = failed e} h k = Holds-failed

-- The invariant, with a bound of the number of ids given.
abbrev pub Kept : ℕ → State → Type 0
Kept n state = IsSession state × (state.next_process_id ≤ n)

-- The same of a state that is left with notifications.
abbrev pub LeftKept : ℕ → State × List Send → Type 0
LeftKept n (next, sends) = Kept n next

pub register-Kept :
    (n : ℕ) (state : State) (params : RegisterParams)
    → n < 4294967295
    → Kept n state
    → Holds (λ (id, next, sends). Kept (suc n) next) (register state params)
unfolding register find_process
register-Kept n state params bound (good, least) =
    Holds-if (not (params.protocol_version == 1)) (λ _. Holds-failed)
      λ _. Holds-done (
        record {
          acyclic = good.acyclic;
          linked = λ c m. Linked-Keeps state.roster roster' c keeps (good.linked c m);
          subscribed = λ t pid m.
              IsRegistered-Keeps state.roster roster' pid keeps (good.subscribed t pid m);
          provided = λ k p e. elim (back k p e) [
            | inl (_, same) ↦ rw same (λ i f. cc)
            | inr f ↦ good.provided k p f
          ];
          below = λ k p e. elim (back k p e) [
            | inl (same, _) ↦ omega (arith, same, later)
            | inr f ↦ omega (arith, good.below k p f, later)
          ];
          idle = refl;
        },
        omega (arith, later, least),
      )
  where
    id : ℕ
    id = state.next_process_id

    info : ProcessInfo
    info = registered_info id params

    roster' : List ProcessInfo
    roster' = info ∷ keep (λ p. not (p.id == id)) state.roster

    later : next_id id ≡ suc id
    later = omega (arith, bound, least)

    back :
        (k : ℕ) (p : ProcessInfo)
        → find_process k roster' ≡ some p
        → ((k ≡ id) × (p ≡ info)) ⊎ (find_process k state.roster ≡ some p)
    back k p e = elim (Bool-cases (id == k)) [
      | inl t ↦ inl (sym (==→≡ id k t), sym (some-eq-some (rw t at e)))
      | inr f ↦
          inr (find_process-keep_back k id state.roster p (λ h. ==→≢ id k f (sym h)) (rw f at e))
    ]

    keeps : Keeps state.roster roster'
    keeps k p e = elim (Bool-cases (id == k)) [
      | inl t ↦ absurd (omega (arith, ==→≡ id k t, good.below k p e))
      | inr f ↦
          (p, rw f (find_process-keep k id state.roster p (λ h. ==→≢ id k f (sym h)) e), refl, refl)
    ]

-- A change of one process that is told of no new interest, or of one that it provides.
update-IsSession :
    (state : State) (id : ℕ) (f : ProcessInfo → ProcessInfo)
    → ((p : ProcessInfo)
        → ((f p).id ≡ p.id) × ((f p).provides ≡ p.provides) × ((f p).consumes ≡ p.consumes))
    → ((p : ProcessInfo)
        → find_process id state.roster ≡ some p
        → HasProvided p
        → HasProvided (f p))
    → IsSession state
    → IsSession (record state { roster = update_process id f state.roster })
update-IsSession state id f same provides good =
    let keeps = Keeps-update_process id f state.roster same in
    record {
      acyclic = good.acyclic;
      linked = λ c m. Linked-Keeps state.roster _ c keeps (good.linked c m);
      subscribed = λ t pid m. IsRegistered-Keeps state.roster _ pid keeps (good.subscribed t pid m);
      provided = λ k p e.
          let (q, g, h) = find_process-update_process id f state.roster k p (λ r. (same r).0) e in
          elim h [
            | inl a ↦ subst HasProvided (sym a) (good.provided k q g)
            | inr (a, b) ↦ subst HasProvided (sym a) (provides q b (good.provided k q g))
          ];
      below = λ k p e.
          let (q, g, _) = find_process-update_process id f state.roster k p (λ r. (same r).0) e in
          good.below k q g;
      idle = IdleMark-update_process id f state.roster state.roster_emptied_at good.idle;
    }

pub update_label-Kept :
    (n : ℕ) (state : State) (id : ℕ) (label : Option Text)
    → Kept n state
    → Holds (LeftKept n) (update_label state id label)
unfolding update_label
update_label-Kept n state id label (good, least) =
    Option-split (Holds (LeftKept n)) (find_process id state.roster) (λ _. Holds-failed)
      (λ p e. Holds-done (
        update-IsSession state id (with_label label) (λ q. (refl, refl, refl)) (λ q e h. h) good,
        least,
      ))

pub publish_interest-Kept :
    {B : Type 0} (corpus : Corpus B) (n : ℕ) (state : State) (pid : ℕ) (interest : Interest)
    → Kept n state
    → LeftKept n (publish_interest corpus state pid interest)
unfolding publish_interest
publish_interest-Kept corpus n state pid interest (good, least) =
    Option-split (LeftKept n) (find_process pid state.roster) (λ _. (good, least))
      λ p e.
        Bool-split (LeftKept n) (not (contains p.provides (interest_kind interest)))
          (λ _. (good, least))
          λ t.
            let provides : (q : ProcessInfo)
                → find_process pid state.roster ≡ some q
                → HasProvided q
                → HasProvided (with_interest interest q) =
              λ q g h i same.
                subst (λ r. contains q.provides (interest_kind r) ≡ true) (some-eq-some same)
                  (subst (λ (r : ProcessInfo). contains r.provides (interest_kind interest) ≡ true)
                    (some-eq-some (sym e ∙ g)) (ground arith)) in
            (
              update-IsSession state pid (with_interest interest) (λ q. (refl, refl, refl)) provides
                  good,
              least,
            )

with_subscribers-IsSession :
    (state : State) (topic : Topic) (pids : List ℕ)
    → ((pid : ℕ) → pid ∈ pids → IsRegistered state.roster pid)
    → IsSession state
    → IsSession (with_subscribers state topic pids)
with_subscribers-IsSession state topic pids h good = record {
  acyclic = good.acyclic;
  linked = good.linked;
  subscribed = λ t pid m. elim (Bool-cases (topic_eq t topic)) [
    | inl e ↦ h pid (rw e at m)
    | inr e ↦ good.subscribed t pid (rw e at m)
  ];
  provided = good.provided;
  below = good.below;
  idle = good.idle;
}

pub subscribe-Kept :
    (n : ℕ) (state : State) (pid : ℕ) (topic : Topic)
    → Kept n state
    → Holds (Kept n) (subscribe state pid topic)
unfolding subscribe
subscribe-Kept n state pid topic (good, least) =
    Holds-if (is_registered pid state.roster)
      (λ t. Holds-done (
        with_subscribers-IsSession state topic _
            (λ q m. elim m [
              | inl e ↦
                  subst (IsRegistered state.roster) (sym e)
                    (is_registered-IsRegistered pid state.roster t)
              | inr k ↦
                  good.subscribed topic q
                    ((mem-keep (λ r. not (r == pid)) q (state.subscriptions topic)).0 k).0
            ])
            good,
        least,
      ))
      (λ _. Holds-failed)

pub unsubscribe-Kept :
    (n : ℕ) (state : State) (pid : ℕ) (topic : Topic)
    → Kept n state
    → Kept n (unsubscribe state pid topic)
unfolding unsubscribe
unsubscribe-Kept n state pid topic (good, least) = (
  with_subscribers-IsSession state topic _
      (λ q m.
        good.subscribed topic q
          ((mem-keep (λ r. not (r == pid)) q (state.subscriptions topic)).0 m).0)
      good,
  least,
)
