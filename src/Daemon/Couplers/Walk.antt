-- ===== src/Daemon/Couplers/Walk.antt =====
-- The search for a cycle, against paths of couplers.
use montre.Prelude.{
  ℕ, zero, suc, ◌+◌, ◌<◌, ◌≡◌, refl, sym, ◌∙◌, ◌↔◌, ◌⊎◌, inl, inr, arith, ◌==◌, ==→≡, ==→≢,
  Bool-cases, true, false, List, [], ◌∷◌, ◌∈◌, length, subst, if◌then◌else◌,
}
use montre.Daemon.Protocol.{Coupler}
use montre.Daemon.Couplers.{push_followers, was_visited, walk, coupler_creates_cycle}

-- A coupler leads from `a` to `b`; a path of couplers does.
abbrev pub Edge : List Coupler → ℕ → ℕ → Type 0
Edge [] a b = ⊥
Edge (c ∷ cs) a b = (c.master_id ≡ a) × (c.follower_id ≡ b) ⊎ Edge cs a b

pub data Reach (cs : List Coupler) : ℕ → ℕ → Type 0 where
  here : {a b : ℕ} → a ≡ b → Reach cs a b
  along : {a b c : ℕ} → Edge cs a b → Reach cs b c → Reach cs a c

visited_iff : (visited : List ℕ) (p : ℕ) → (was_visited visited p ≡ true) ↔ (p ∈ visited)
visited_iff [] p = ground arith
visited_iff (q ∷ visited) p = ground (arith, visited_iff visited p)

mem-push_followers :
    (current p : ℕ) (cs : List Coupler) (stack : List ℕ)
    → (p ∈ push_followers current cs stack) ↔ (Edge cs current p ⊎ (p ∈ stack))
unfolding push_followers
mem-push_followers current p [] stack = ground arith
mem-push_followers current p (c ∷ cs) stack = ground (
  arith,
  mem-push_followers current p cs stack,
  mem-push_followers current p cs (c.follower_id ∷ stack),
)

-- The couplers that start at a process, and those that start at none of the visited ones.
abbrev count_from : ℕ → List Coupler → ℕ
count_from p [] = 0
count_from p (c ∷ cs) = (if c.master_id == p then 1 else 0) + count_from p cs

abbrev unvisited : List Coupler → List ℕ → ℕ
unvisited [] visited = 0
unvisited (c ∷ cs) visited =
    (if was_visited visited c.master_id then 0 else 1) + unvisited cs visited

length-push_followers :
    (current : ℕ) (cs : List Coupler) (stack : List ℕ)
    → length (push_followers current cs stack) ≡ length stack + count_from current cs
unfolding push_followers
length-push_followers current [] stack = omega arith
length-push_followers current (c ∷ cs) stack = ground (
  arith,
  length-push_followers current cs stack,
  length-push_followers current cs (c.follower_id ∷ stack),
)

unvisited-cons :
    (current : ℕ) (cs : List Coupler) (visited : List ℕ)
    → was_visited visited current ≡ false
    → unvisited cs (current ∷ visited) + count_from current cs ≡ unvisited cs visited
unvisited-cons current [] visited f = refl
unvisited-cons current (c ∷ cs) visited f = elim (Bool-cases (c.master_id == current)) [
  | inl t ↦
      let e = ==→≡ c.master_id current t in ground (arith, unvisited-cons current cs visited f)
  | inr t ↦ ground (arith, unvisited-cons current cs visited f)
]

unvisited-nil : (cs : List Coupler) → unvisited cs [] ≡ length cs
unvisited-nil [] = refl
unvisited-nil (c ∷ cs) = ground (arith, unvisited-nil cs)

module _ (cs : List Coupler) (master : ℕ) where
  walk_sound :
      (fuel : ℕ) (stack visited : List ℕ)
      → walk fuel cs master stack visited ≡ true
      → (s : ℕ) × (s ∈ stack) × Reach cs s master
  unfolding walk
  walk_sound zero stack visited e = absurd (ground arith)
  walk_sound (suc fuel) [] visited e = absurd (ground arith)
  walk_sound (suc fuel) (current ∷ stack) visited e =
      elim (Bool-cases (was_visited visited current)) [
        | inl t ↦ let (s, m, r) = walk_sound fuel stack visited (ground arith) in (s, inr m, r)
        | inr f ↦ elim (Bool-cases (current == master)) [
          | inl t ↦ (current, inl refl, here (==→≡ current master t))
          | inr t ↦
              let (s, m, r) =
                walk_sound fuel (push_followers current cs stack) (current ∷ visited)
                  (ground arith) in
              elim ((mem-push_followers current s cs stack).0 m) [
                | inl edge ↦ (current, inl refl, along edge r)
                | inr k ↦ (s, inr k, r)
              ]
        ]
      ]

  -- Where a visited process leads, the search has been or is going.
  abbrev Closed : List ℕ → List ℕ → Type 0
  Closed stack visited = (a b : ℕ) → a ∈ visited → Edge cs a b → (b ∈ visited) ⊎ (b ∈ stack)

  nothing_left :
      (visited : List ℕ) (a b : ℕ)
      → Closed [] visited
      → ¬ (master ∈ visited)
      → a ∈ visited
      → b ≡ master
      → ¬ Reach cs a b
  nothing_left visited a b closed absent m e (here same) =
      absent (subst (λ t. t ∈ visited) (same ∙ e) m)
  nothing_left visited a c closed absent m e (along {b = b} edge r) = elim (closed a b m edge) [
    | inl k ↦ nothing_left visited b c closed absent k e r
    | inr k ↦ k
  ]

  walk_complete :
      (fuel : ℕ) (stack visited : List ℕ) (p : ℕ)
      → length stack + unvisited cs visited < fuel
      → Closed stack visited
      → ¬ (master ∈ visited)
      → walk fuel cs master stack visited ≡ false
      → (p ∈ stack) ⊎ (p ∈ visited)
      → ¬ Reach cs p master
  unfolding walk
  walk_complete zero stack visited p h closed absent e m r = absurd (omega arith)
  walk_complete (suc fuel) [] visited p h closed absent e (inl m) r = m
  walk_complete (suc fuel) [] visited p h closed absent e (inr m) r =
      nothing_left visited p master closed absent m refl r
  walk_complete (suc fuel) (current ∷ stack) visited p h closed absent e m r =
      elim (Bool-cases (was_visited visited current)) [
        | inl t ↦
            let old = (visited_iff visited current).0 t in
            walk_complete fuel stack visited p (omega arith)
              (λ a b k edge. elim (closed a b k edge) [
                | inl n ↦ inl n
                | inr n ↦ elim n [
                  | inl same ↦ inl (subst (λ t. t ∈ visited) (sym same) old)
                  | inr n' ↦ inr n'
                ]
              ])
              absent (ground arith)
              (elim m [
                | inl n ↦ elim n [
                  | inl same ↦ inr (subst (λ t. t ∈ visited) (sym same) old)
                  | inr n' ↦ inl n'
                ]
                | inr n ↦ inr n
              ])
              r
        | inr f ↦ elim (Bool-cases (current == master)) [
          | inl t ↦ absurd (ground arith)
          | inr t ↦
              let next = push_followers current cs stack in
              let pushed = λ (b : ℕ). mem-push_followers current b cs stack in
              walk_complete fuel next (current ∷ visited) p
                (omega (
                  arith,
                  length-push_followers current cs stack,
                  unvisited-cons current cs visited f,
                ))
                (λ a b k edge. elim k [
                  | inl same ↦ inr ((pushed b).1 (inl (subst (λ t. Edge cs t b) same edge)))
                  | inr n ↦ elim (closed a b n edge) [
                    | inl v ↦ inl (inr v)
                    | inr s ↦ elim s [
                      | inl same ↦ inl (inl same)
                      | inr s' ↦ inr ((pushed b).1 (inr s'))
                    ]
                  ]
                ])
                (λ k. elim k [ inl same ↦ ==→≢ current master t (sym same) | inr n ↦ absent n ])
                (ground arith)
                (elim m [
                  | inl n ↦ elim n [
                    | inl same ↦ inr (inl same)
                    | inr n' ↦ inl ((pushed p).1 (inr n'))
                  ]
                  | inr n ↦ inr (inr n)
                ])
                r
        ]
      ]

-- `coupler_creates_cycle` answers whether the couplers lead from the follower to the master: exactly
-- when a new coupler from the master to the follower would close a cycle. The search ends.
pub coupler_creates_cycle-Reach :
    (cs : List Coupler) (master follower : ℕ)
    → (coupler_creates_cycle cs master follower ≡ true) ↔ Reach cs follower master
unfolding coupler_creates_cycle
coupler_creates_cycle-Reach cs master follower = elim (Bool-cases (master == follower)) [
  | inl t ↦ (λ e. here (sym (==→≡ master follower t)), λ r. rw t refl)
  | inr f ↦
      let fuel = length cs + 2 in
      (
        λ e.
            let (s, m, r) = walk_sound cs master fuel (follower ∷ []) [] (ground arith) in
            elim m [ inl same ↦ subst (λ t. Reach cs t master) same r | inr k ↦ absurd k ],
        λ r. elim (Bool-cases (walk fuel cs master (follower ∷ []) [])) [
          | inl t ↦ ground arith
          | inr n ↦ absurd (
              walk_complete cs master fuel (follower ∷ []) [] follower
                (omega (arith, unvisited-nil cs)) (λ a b k edge. absurd k) (λ k. k) n
                (inl (inl refl)) r)
        ],
      )
]
