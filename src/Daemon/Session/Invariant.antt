-- ===== src/Daemon/Session/Invariant.antt =====
-- What holds between the parts of the state in crates/montre-daemon/src/state.rs.
use montre.Prelude.{
  ℕ, ◌<◌, ◌==◌, ==→≡, ==→≢, ◌≡◌, refl, sym, ap, ◌∙◌, subst, ◌⊎◌, inl, inr, arith, true, Bool-cases,
  not, Option, some, none, some-eq-some, List, [], ◌∷◌, ◌∈◌, keep,
}
use montre.Daemon.Protocol.{
  Coupler, ProcessInfo, Interest, interest_kind, Topic, contains, coupler_kind_compat,
}
use montre.Daemon.State.{State, find_process, update_process, is_registered}
use montre.Daemon.Couplers.Acyclic.{IsAcyclic}
use montre.Daemon.Couplers.WellFormed.{IsRegistered}

-- Both ends of the coupler are in the session, and its kind fits what they provide and consume.
abbrev pub Linked : List ProcessInfo → Coupler → Type 0
Linked roster c =
    (m : ProcessInfo) × (f : ProcessInfo) × (find_process c.master_id roster ≡ some m)
    × (find_process c.follower_id roster ≡ some f)
    × (coupler_kind_compat c.kind m.provides f.consumes ≡ true)

-- The interest of a process is of a kind that it provides.
abbrev pub HasProvided : ProcessInfo → Type 0
HasProvided p =
    (i : Interest) → p.current_interest ≡ some i → contains p.provides (interest_kind i) ≡ true

-- The time at which the roster became empty is known exactly while it is empty.
abbrev pub IdleMark : List ProcessInfo → Option ℕ → Type 0
IdleMark [] mark = (t : ℕ) × (mark ≡ some t)
IdleMark (p ∷ ps) mark = mark ≡ none

pub record Invariant (roster : List ProcessInfo) (couplers : List Coupler)
    (subscriptions : Topic → List ℕ) (mark : Option ℕ) (next_id : ℕ) : Type 0 where
  pub acyclic : IsAcyclic couplers
  pub linked : (c : Coupler) → c ∈ couplers → Linked roster c
  pub subscribed : (t : Topic) (pid : ℕ) → pid ∈ subscriptions t → IsRegistered roster pid
  pub provided : (k : ℕ) (p : ProcessInfo) → find_process k roster ≡ some p → HasProvided p
  pub below : (k : ℕ) (p : ProcessInfo) → find_process k roster ≡ some p → k < next_id
  pub idle : IdleMark roster mark

abbrev pub IsSession : State → Type 0
IsSession state =
    Invariant state.roster state.couplers state.subscriptions state.roster_emptied_at
      state.next_process_id

-- A change of the roster that keeps every process with what it provides and consumes.
abbrev pub Keeps : List ProcessInfo → List ProcessInfo → Type 0
Keeps roster roster' =
    (k : ℕ) (p : ProcessInfo)
    → find_process k roster ≡ some p
    → (q : ProcessInfo) × (find_process k roster' ≡ some q)
      × (q.provides ≡ p.provides)
      × (q.consumes ≡ p.consumes)

pub Linked-Keeps :
    (roster roster' : List ProcessInfo) (c : Coupler)
    → Keeps roster roster'
    → Linked roster c
    → Linked roster' c
Linked-Keeps roster roster' c keeps (m, f, e, g, fits) =
    let (m', e', same, _) = keeps c.master_id m e in
    let (f', g', _, same') = keeps c.follower_id f g in
    (
      m',
      f',
      e',
      g',
      ap (λ x. coupler_kind_compat c.kind x f'.consumes) same
          ∙ ap (λ x. coupler_kind_compat c.kind m.provides x) same'
          ∙ fits,
    )

pub IsRegistered-Keeps :
    (roster roster' : List ProcessInfo) (pid : ℕ)
    → Keeps roster roster'
    → IsRegistered roster pid
    → IsRegistered roster' pid
IsRegistered-Keeps roster roster' pid keeps (p, e) = let (q, f, _, _) = keeps pid p e in (q, f)

pub is_registered-IsRegistered :
    (pid : ℕ) (roster : List ProcessInfo)
    → is_registered pid roster ≡ true
    → IsRegistered roster pid
unfolding find_process
is_registered-IsRegistered pid [] h = cc
is_registered-IsRegistered pid (p ∷ roster) h = elim (Bool-cases (p.id == pid)) [
  | inl e ↦ (p, rw e refl)
  | inr e ↦ rw e (is_registered-IsRegistered pid roster (rw e at h))
]

-- A change of one process.
pub Keeps-update_process :
    (id : ℕ) (f : ProcessInfo → ProcessInfo) (roster : List ProcessInfo)
    → ((p : ProcessInfo)
        → ((f p).id ≡ p.id) × ((f p).provides ≡ p.provides) × ((f p).consumes ≡ p.consumes))
    → Keeps roster (update_process id f roster)
unfolding find_process
Keeps-update_process id f [] same k p e = absurd (cc)
Keeps-update_process id f (q ∷ roster) same k p e = elim (Bool-cases (q.id == id)) [
  | inl t ↦ elim (Bool-cases (q.id == k)) [
    | inl u ↦
        let here = some-eq-some (rw u at e) in
        (
          f q,
          rw (t, (same q).0, u) refl,
          (same q).1 ∙ ap (λ (x : ProcessInfo). x.provides) here,
          (same q).2 ∙ ap (λ (x : ProcessInfo). x.consumes) here,
        )
    | inr u ↦ (p, rw (t, (same q).0, u) (rw u at e), refl, refl)
  ]
  | inr t ↦ elim (Bool-cases (q.id == k)) [
    | inl u ↦
        let here = some-eq-some (rw u at e) in
        (
          q,
          rw (t, u) refl,
          ap (λ (x : ProcessInfo). x.provides) here,
          ap (λ (x : ProcessInfo). x.consumes) here,
        )
    | inr u ↦
        let (r, g, h, i) = Keeps-update_process id f roster same k p (rw u at e) in
        (r, rw (t, u) g, h, i)
  ]
]

-- Where the changed roster has a process, the roster had it, perhaps as it was before.
pub find_process-update_process :
    (id : ℕ) (f : ProcessInfo → ProcessInfo) (roster : List ProcessInfo) (k : ℕ) (q : ProcessInfo)
    → ((p : ProcessInfo) → (f p).id ≡ p.id)
    → find_process k (update_process id f roster) ≡ some q
    → (p : ProcessInfo) × (find_process k roster ≡ some p)
      × ((q ≡ p) ⊎ ((q ≡ f p) × (find_process id roster ≡ some p)))
unfolding find_process
find_process-update_process id f [] k q same e = absurd cc
find_process-update_process id f (p ∷ roster) k q same e = elim (Bool-cases (p.id == id)) [
  | inl t ↦ elim (Bool-cases (p.id == k)) [
    | inl u ↦
        let v = subst (λ n. (n == k) ≡ true) (sym (same p)) u in
        (p, rw u refl, inr (sym (some-eq-some (rw (t, v) at e)), rw t refl))
    | inr u ↦ (q, rw u (rw (t, same p, u) at e), inl refl)
  ]
  | inr t ↦ elim (Bool-cases (p.id == k)) [
    | inl u ↦ (p, rw u refl, inl (sym (some-eq-some (rw (t, u) at e))))
    | inr u ↦
        let (r, g, h) = find_process-update_process id f roster k q same (rw (t, u) at e) in
        (r, rw u g, elim h [ inl a ↦ inl a | inr (a, b) ↦ inr (a, rw t b) ])
  ]
]

pub IdleMark-update_process :
    (id : ℕ) (f : ProcessInfo → ProcessInfo) (roster : List ProcessInfo) (mark : Option ℕ)
    → IdleMark roster mark
    → IdleMark (update_process id f roster) mark
IdleMark-update_process id f [] mark h = h
IdleMark-update_process id f (p ∷ roster) mark h = elim (Bool-cases (p.id == id)) [
  | inl t ↦ rw t h
  | inr t ↦ rw t h
]

-- A process taken away.
pub find_process-keep_back :
    (k pid : ℕ) (roster : List ProcessInfo) (p : ProcessInfo)
    → (k ≡ pid → ⊥)
    → find_process k (keep (λ q. not (q.id == pid)) roster) ≡ some p
    → find_process k roster ≡ some p
unfolding find_process
find_process-keep_back k pid [] p other e = e
find_process-keep_back k pid (q ∷ roster) p other e = elim (Bool-cases (q.id == pid)) [
  | inl t ↦
      let same = ==→≡ q.id pid t in ground (arith, find_process-keep_back k pid roster p other)
  | inr t ↦ ground (arith, find_process-keep_back k pid roster p other)
]

find_process-gone :
    (pid : ℕ) (roster : List ProcessInfo)
    → find_process pid (keep (λ q. not (q.id == pid)) roster) ≡ none
unfolding find_process
find_process-gone pid [] = refl
find_process-gone pid (q ∷ roster) = ground (arith, find_process-gone pid roster)

pub find_process-left :
    (k pid : ℕ) (roster : List ProcessInfo) (p : ProcessInfo)
    → find_process k (keep (λ q. not (q.id == pid)) roster) ≡ some p
    → find_process k roster ≡ some p
find_process-left k pid roster p e = elim (Bool-cases (k == pid)) [
  | inl t ↦
      let at_pid =
        subst (λ n. find_process n (keep (λ q. not (q.id == pid)) roster) ≡ some p) (==→≡ k pid t)
          e in
      cc (at_pid, find_process-gone pid roster)
  | inr f ↦ find_process-keep_back k pid roster p (==→≢ k pid f) e
]

-- While a process is there, no time is marked.
pub IdleMark-found :
    (pid : ℕ) (roster : List ProcessInfo) (mark : Option ℕ) (p : ProcessInfo)
    → find_process pid roster ≡ some p
    → IdleMark roster mark
    → mark ≡ none
unfolding find_process
IdleMark-found pid [] mark p e h = cc
IdleMark-found pid (q ∷ roster) mark p e h = h
