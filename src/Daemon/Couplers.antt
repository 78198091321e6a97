-- ===== src/Daemon/Couplers.antt =====
-- crates/montre-daemon/src/state.rs: the couplers, from a master process to a follower.
pub mod Walk
pub mod Acyclic
pub mod WellFormed
use montre.Prelude.{
  ℕ, zero, suc, ◌+◌, ◌%◌, ◌==◌, ◌||◌, not, if◌then◌else◌, Bool, true, false, Option, some, none,
  List, [], ◌∷◌, any, keep, length,
}
use montre.Daemon.Protocol.{
  RosterEvent, Coupler, CouplerKind, ProcessInfo, ProtocolError, process_not_found, coupler_cycle,
  coupler_incompatible, coupler_not_found, coupler_kind_compat,
}
use montre.Daemon.State.{
  State, Outcome, done, failed, find_process, next_id, Send, broadcast, notify_roster,
}

-- The loop over the couplers of a round. The stack has its top first.
unfoldable pub push_followers : ℕ → List Coupler → List ℕ → List ℕ
push_followers current [] stack = stack
push_followers current (c ∷ cs) stack =
    if c.master_id == current
    then push_followers current cs (c.follower_id ∷ stack)
    else push_followers current cs stack

abbrev pub was_visited : List ℕ → ℕ → Bool
was_visited visited p = any (λ q. p == q) visited

-- The `while` loop of `coupler_creates_cycle`; each round costs a unit of fuel.
unfoldable pub walk : ℕ → List Coupler → ℕ → List ℕ → List ℕ → Bool
unfolding push_followers
walk zero couplers master stack visited = false
walk (suc fuel) couplers master [] visited = false
walk (suc fuel) couplers master (current ∷ stack) visited =
    let skipped = walk fuel couplers master stack visited in
    let next =
      walk fuel couplers master (push_followers current couplers stack) (current ∷ visited) in
    if was_visited visited current then skipped else if current == master then true else next

-- A coupler is pushed once at most, after the first process.
unfoldable pub coupler_creates_cycle : List Coupler → ℕ → ℕ → Bool
unfolding walk
coupler_creates_cycle couplers master follower =
    if master == follower
    then true
    else walk (length couplers + 2) couplers master (follower ∷ []) []

-- `self.couplers.insert(id, coupler)`, which replaces a coupler with the same id.
unfoldable pub insert_coupler : Coupler → List Coupler → List Coupler
insert_coupler coupler couplers = coupler ∷ keep (λ c. not (c.id == coupler.id)) couplers

-- `coupler_create` as far as it changes the state, before the follower is told of the interest that
-- the master has. Every kind of coupler is one that the daemon supports.
unfoldable pub coupler_create : State → ℕ → ℕ → CouplerKind → Outcome (ℕ × State)
unfolding find_process coupler_creates_cycle coupler_kind_compat insert_coupler
coupler_create state master_id follower_id kind = elim (find_process master_id state.roster) [
  | none ↦ failed process_not_found
  | some master ↦ elim (find_process follower_id state.roster) [
    | none ↦ failed process_not_found
    | some follower ↦
        if coupler_creates_cycle state.couplers master_id follower_id
        then failed coupler_cycle
        else if not (coupler_kind_compat kind master.provides follower.consumes)
        then failed coupler_incompatible
        else let id = state.next_coupler_id in
          done (
            id,
            record state {
              couplers =
                  insert_coupler
                    (record {
                      id = id;
                      master_id = master_id;
                      follower_id = follower_id;
                      kind = kind;
                    })
                    state.couplers;
              next_coupler_id = next_id id;
            },
          )
  ]
]

unfoldable pub coupler_remove : State → ℕ → Outcome State
coupler_remove state id =
    if any (λ c. c.id == id) state.couplers
    then done (record state { couplers = keep (λ c. not (c.id == id)) state.couplers })
    else failed coupler_not_found

unfoldable pub coupler_list : State → Option ℕ → List Coupler
coupler_list state none = state.couplers
coupler_list state (some pid) =
    keep (λ c. c.master_id == pid || c.follower_id == pid) state.couplers

-- What `unregister` does to the processes and their couplers.
unfoldable pub unregister_couplers : State → ℕ → State
unfolding find_process
unregister_couplers state pid = elim (find_process pid state.roster) [
  | none ↦ state
  | some gone ↦ record state {
    roster = keep (λ p. not (p.id == pid)) state.roster;
    couplers = keep (λ c. not (c.master_id == pid || c.follower_id == pid)) state.couplers;
  }
]

abbrev pub emptied : List ProcessInfo → ℕ → Option ℕ → Option ℕ
emptied [] now before = some now
emptied (p ∷ ps) now before = before

-- `unregister`: the process, its couplers and its subscriptions go, and the others are told.
unfoldable pub unregister : State → ℕ → ℕ → State × List Send
unfolding find_process unregister_couplers broadcast
unregister state pid now = elim (find_process pid state.roster) [
  | none ↦ (state, [])
  | some gone ↦
      let left = unregister_couplers state pid in
      let next = record left {
        subscriptions = λ t. keep (λ q. not (q == pid)) (left.subscriptions t);
        roster_emptied_at = emptied left.roster now left.roster_emptied_at;
      } in
      (next, notify_roster next RosterEvent.unregistered gone)
]
