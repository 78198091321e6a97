-- ===== src/Daemon/Session/Reached.antt =====
-- Every command of crates/montre-daemon/src/state.rs keeps the invariant, and so it holds in every
-- session.
use montre.Prelude.{
  ℕ, suc, ◌+◌, ◌≡◌, ◌++◌, ◌≤◌, ◌<◌, refl, arith, Option, some, Option-split, Bool-split, Text, List,
  [], ◌∷◌, length, leb, ◌-◌,
}
use montre.Index.Corpus.{Corpus, lookup}
use montre.Daemon.Protocol.{ProcessInfo, Coupler, Topic, ShutdownReason, ResultMetadata, ResultForm}
use montre.Daemon.State.{
  State, Outcome, done, failed, Send, find_process, new, initiate_shutdown, check_idle_timeout,
}
use montre.Index.Maps.{remove_key, contains_key}
use montre.Daemon.Results.{
  Disk, is_form, save_result, materialize_result, load_named, delete_named, discard_handle, promote,
  record_of, insert_result, install_replayed_result,
}
use montre.Daemon.Command.{Command}
use montre.Daemon.Session.{World, Answer, answered, handle, run}
use montre.Daemon.Session.Invariant.{Invariant, IsSession}
use montre.Daemon.Session.Steps.{
  Holds, Holds-done, Holds-failed, Holds-if, Kept, LeftKept, register-Kept, update_label-Kept,
  publish_interest-Kept, subscribe-Kept, unsubscribe-Kept,
}
use montre.Daemon.Session.Links.{coupler_remove-Kept, coupler_create_and_tell-Kept, unregister-Kept}

abbrev AnswerKept : ℕ → Answer → Type 0
AnswerKept n (next, reply, sends) = Kept n next

answered-Kept :
    {A : Type 0} {P : A → Type 0} (n : ℕ) (state : State) (o : Outcome A) (f : A → Answer)
    → Kept n state
    → Holds P o
    → ((a : A) → P a → AnswerKept n (f a))
    → AnswerKept n (answered state o f)
answered-Kept n state (done a) f kept h k = k a h.outcome
answered-Kept n state (failed e) f kept h k = kept

initiate_shutdown-Kept :
    (n : ℕ) (state : State) (reason : ShutdownReason)
    → Kept n state
    → LeftKept n (initiate_shutdown state reason)
unfolding initiate_shutdown
initiate_shutdown-Kept n state reason kept =
    Bool-split (LeftKept n) state.shutting_down (λ _. kept) (λ _. kept)

check_idle_timeout-Kept :
    (n : ℕ) (state : State) (now : ℕ) → Kept n state → LeftKept n (check_idle_timeout state now)
unfolding check_idle_timeout
check_idle_timeout-Kept n state now kept =
    Option-split (LeftKept n) state.idle_timeout (λ _. kept)
      λ timeout _.
        Option-split (LeftKept n) state.roster_emptied_at (λ _. kept)
          λ emptied_at _.
            Bool-split (LeftKept n) (leb timeout (now - emptied_at))
              (λ _. initiate_shutdown-Kept n state _ kept) (λ _. kept)

-- The metadata of a result, with the state that is left.
abbrev NamedKept : ℕ → ResultMetadata × State × List Send → Type 0
NamedKept n (metadata, next, sends) = Kept n next

save_result-Kept :
    (n : ℕ) (persists : Disk) (state : State) (result name : Text)
    → Kept n state
    → Holds (NamedKept n) (save_result persists state result name)
unfolding save_result
save_result-Kept n persists state result name kept =
    Holds-if (contains_key name state.named_results) (λ _. Holds-failed)
      λ _.
        Option-split (Holds (NamedKept n)) (lookup result state.results) (λ _. Holds-failed)
          λ existing _.
            let saved = record_of result (promote name existing) in
            Holds-if (persists (state.named_results ++ (name, saved) ∷ [])) (λ _. Holds-done kept)
              (λ _. Holds-failed)

materialize_result-Kept :
    (n : ℕ) (state : State) (now name : Text)
    → Kept n state
    → Holds (NamedKept n) (materialize_result state now name)
unfolding materialize_result
materialize_result-Kept n state now name kept =
    Option-split (Holds (NamedKept n)) (lookup name state.named_results) (λ _. Holds-failed)
      λ saved _.
        Option-split (Holds (NamedKept n)) (lookup saved.handle state.results) (λ _. Holds-failed)
          λ existing _.
            Holds-if (is_form existing.metadata.form ResultForm.materialized) (λ _. Holds-failed)
              (λ _. Holds-done kept)

delete_named-Kept :
    (n : ℕ) (persists : Disk) (state : State) (name : Text)
    → Kept n state
    → Holds (LeftKept n) (delete_named persists state name)
unfolding delete_named
delete_named-Kept n persists state name kept =
    Option-split (Holds (LeftKept n)) (lookup name state.named_results) (λ _. Holds-failed)
      λ saved _.
        Holds-if (persists (remove_key name state.named_results)) (λ _. Holds-done kept)
          (λ _. Holds-failed)

discard_handle-Kept :
    (n : ℕ) (state : State) (result : Text) → Kept n state → Kept n (discard_handle state result)
unfolding discard_handle
discard_handle-Kept n state result kept =
    Option-split (Kept n) (lookup result state.results) (λ _. kept)
      λ entry _.
        Bool-split (Kept n) (is_form entry.metadata.form ResultForm.session) (λ _. kept) (λ _. kept)

any_outcome : {A : Type 0} (o : Outcome A) → Holds (λ a. Unit {0}) o
any_outcome (done a) = Holds-done tt
any_outcome (failed e) = Holds-failed

more :
    {n : ℕ} {roster : List ProcessInfo} {couplers : List Coupler} {subscriptions : Topic → List ℕ}
    {mark : Option ℕ} {next_id : ℕ}
    → Invariant roster couplers subscriptions mark next_id × (next_id ≤ n)
    → Invariant roster couplers subscriptions mark next_id × (next_id ≤ suc n)
more (good, least) = (good, omega (arith, least))

none_there : (k : ℕ) (p : ProcessInfo) → find_process k [] ≡ some p → ⊥
unfolding find_process
none_there k p e = cc

module _ {B : Type 0} (corpus : Corpus B) where
  -- A command keeps the invariant, and gives one process id at most.
  pub handle-Kept :
      (n : ℕ) (world : World) (state : State) (c : Command)
      → n < 4294967295
      → Kept n state
      → AnswerKept (suc n) (handle corpus world state c)
  unfolding handle insert_result install_replayed_result
  handle-Kept n world state (Command.register params) bound kept =
      answered-Kept (suc n) state _ _ (more kept) (register-Kept n state params bound kept)
        (λ a k. k)
  handle-Kept n world state (Command.unregister pid) bound kept =
      more (unregister-Kept n state pid world.now kept)
  handle-Kept n world state (Command.update_label pid label) bound kept =
      answered-Kept (suc n) state _ _ (more kept) (update_label-Kept n state pid label kept)
        (λ a k. more k)
  handle-Kept n world state (Command.roster filter) bound kept = more kept
  handle-Kept n world state (Command.publish_interest pid interest) bound kept =
      more (publish_interest-Kept corpus n state pid interest kept)
  handle-Kept n world state (Command.insert_result cql hits) bound kept = more kept
  handle-Kept n world state (Command.save_result result name) bound kept =
      answered-Kept (suc n) state _ _ (more kept)
        (save_result-Kept n world.persists state result name kept) (λ a k. more k)
  handle-Kept n world state (Command.materialize_result name) bound kept =
      answered-Kept (suc n) state _ _ (more kept)
        (materialize_result-Kept n state world.now_rfc3339 name kept) (λ a k. more k)
  handle-Kept n world state (Command.load_named name) bound kept =
      answered-Kept (suc n) state _ _ (more kept) (any_outcome (load_named state name))
        (λ a k. more kept)
  handle-Kept n world state (Command.install_replayed_result entry) bound kept = more kept
  handle-Kept n world state Command.list_named bound kept = more kept
  handle-Kept n world state (Command.delete_named name) bound kept =
      answered-Kept (suc n) state _ _ (more kept)
        (delete_named-Kept n world.persists state name kept) (λ a k. more k)
  handle-Kept n world state (Command.discard_handle result) bound kept =
      more (discard_handle-Kept n state result kept)
  handle-Kept n world state (Command.coupler_create master follower kind) bound kept =
      answered-Kept (suc n) state _ _ (more kept)
        (coupler_create_and_tell-Kept corpus n state master follower kind kept) (λ a k. more k)
  handle-Kept n world state (Command.coupler_remove id) bound kept =
      answered-Kept (suc n) state _ _ (more kept) (coupler_remove-Kept n state id kept)
        (λ a k. more k)
  handle-Kept n world state (Command.coupler_list filter) bound kept = more kept
  handle-Kept n world state (Command.subscribe pid topic) bound kept =
      answered-Kept (suc n) state _ _ (more kept) (subscribe-Kept n state pid topic kept)
        (λ a k. more k)
  handle-Kept n world state (Command.unsubscribe pid topic) bound kept =
      more (unsubscribe-Kept n state pid topic kept)
  handle-Kept n world state (Command.initiate_shutdown reason) bound kept =
      more (initiate_shutdown-Kept n state reason kept)
  handle-Kept n world state Command.timed_out bound kept =
      more (check_idle_timeout-Kept n state world.now kept)

  run-Kept :
      (n : ℕ) (commands : List (World × Command)) (state : State)
      → length commands + n ≤ 4294967295
      → Kept n state
      → IsSession (run corpus commands state)
  unfolding run
  run-Kept n [] state bound kept = kept.0
  run-Kept n ((world, c) ∷ rest) state bound kept =
      run-Kept (suc n) rest (handle corpus world state c).0 (omega (arith, bound))
        (handle-Kept n world state c (omega (arith, bound)) kept)

  -- After any commands, fewer than 2 ^ 32 - 1, the couplers have no cycle, lead only between
  -- processes that are there and fit their kinds, only processes that are there are subscribed, each
  -- process is interested in what it provides, and the time at which the last process left is known
  -- exactly while there is none.
  pub run-IsSession :
      (epoch : ℕ) (corpus_id : Text) (now : ℕ) (commands : List (World × Command))
      → length commands < 4294967295
      → IsSession (run corpus commands (new epoch corpus_id now))
  run-IsSession epoch corpus_id now commands bound =
      run-Kept 1 commands (new epoch corpus_id now) (omega (arith, bound)) (start, omega arith)
    where
      start : IsSession (new epoch corpus_id now)
      start = record {
        acyclic = λ a b edge. absurd edge;
        linked = λ c m. absurd m;
        subscribed = λ t pid m. absurd m;
        provided = λ k p e. absurd (none_there k p e);
        below = λ k p e. absurd (none_there k p e);
        idle = (now, refl);
      }
