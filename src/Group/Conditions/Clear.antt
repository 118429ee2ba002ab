-- ===== src/Group/Conditions/Clear.antt =====
-- What it means that the conditions of group/dlm_controld/cpg.c are there.
use dlm.Base.{
  ℕ, ◌<◌, ◌≡◌, Bool, true, false, Option, none, some, List, [], ◌∷◌, ◌==◌, All, arith, Bool-cases,
  ==→eq, ap, inl, inr,
}
use dlm.Group.Types.{Node, GroupEnv, GroupWorld, Space}
use dlm.Group.Conditions.{
  fenced_time, check_fencing, check_fencing_done, check_quorum, check_quorum_done, check_fs,
  check_fs_done, wait_conditions_done,
}

abbrev pub Fenced : Node → Type 0
Fenced n = n.check_fencing ≡ false

abbrev pub Quorate : Node → Type 0
Quorate n = n.check_quorum ≡ false

abbrev pub IsNotified : Node → Type 0
IsNotified n = n.check_fs ≡ false

-- Nothing in the history must be waited for, as far as the settings ask.
pub record IsClear (fencing quorum registered : Bool) (nodes : List Node) : Type 0 where
  pub fenced : fencing ≡ true → All Fenced nodes
  pub quorate : quorum ≡ true → All Quorate nodes
  pub notified : registered ≡ true → All IsNotified nodes

check_fencing-Fenced :
    (env : GroupEnv) (last : ℕ) (nodes : List Node)
    → let c = check_fencing env last nodes in c.wait_count ≡ 0 → All Fenced c.nodes
unfolding check_fencing
check_fencing-Fenced env last [] h = tt
check_fencing-Fenced env last (n ∷ rest) h = elim (Bool-cases n.check_fencing) [
  | inr e ↦
      rw (e, check_fencing) (e, check_fencing-Fenced env last rest (rw (e, check_fencing) at h))
  | inl e ↦
      rw (e, check_fencing)
        let h' = rw (e, check_fencing) at h in
          ground (arith, check_fencing-Fenced env (fenced_time env last n) rest)
]

check_quorum-Quorate :
    (env : GroupEnv) (nodes : List Node)
    → let c = check_quorum env nodes in c.wait_count ≡ 0 → All Quorate c.nodes
unfolding check_quorum
check_quorum-Quorate env [] h = tt
check_quorum-Quorate env (n ∷ rest) h = ground (arith, check_quorum-Quorate env rest)

check_fs-IsNotified :
    (nodes : List Node) → let c = check_fs nodes in c.wait_count ≡ 0 → All IsNotified c.nodes
unfolding check_fs
check_fs-IsNotified [] h = tt
check_fs-IsNotified (n ∷ rest) h = ground (arith, check_fs-IsNotified rest)

check_quorum-Fenced :
    (env : GroupEnv) (nodes : List Node)
    → All Fenced nodes
    → All Fenced (check_quorum env nodes).nodes
unfolding check_quorum
check_quorum-Fenced env [] h = tt
check_quorum-Fenced env (n ∷ rest) h = ground (arith, check_quorum-Fenced env rest)

check_fs-Fenced : (nodes : List Node) → All Fenced nodes → All Fenced (check_fs nodes).nodes
unfolding check_fs
check_fs-Fenced [] h = tt
check_fs-Fenced (n ∷ rest) h = ground (arith, check_fs-Fenced rest)

check_fs-Quorate : (nodes : List Node) → All Quorate nodes → All Quorate (check_fs nodes).nodes
unfolding check_fs
check_fs-Quorate [] h = tt
check_fs-Quorate (n ∷ rest) h = ground (arith, check_fs-Quorate rest)

check_fencing_done-Fenced :
    (env : GroupEnv) (nodes : List Node)
    → (check_fencing_done env nodes).1 ≡ true
    → env.enable_fencing ≡ true
    → All Fenced (check_fencing_done env nodes).0
unfolding check_fencing_done
check_fencing_done-Fenced env nodes h e =
    ground (arith, check_fencing-Fenced env env.stack_time nodes)

check_quorum_done-Quorate :
    (env : GroupEnv) (nodes : List Node)
    → (check_quorum_done env nodes).1 ≡ true
    → env.enable_quorum ≡ true
    → All Quorate (check_quorum_done env nodes).0 × (env.cluster_quorate ≡ true)
unfolding check_quorum_done
check_quorum_done-Quorate env nodes h e = ground (arith, check_quorum-Quorate env nodes)

check_quorum_done-Fenced :
    (env : GroupEnv) (nodes : List Node)
    → All Fenced nodes
    → All Fenced (check_quorum_done env nodes).0
unfolding check_quorum_done
check_quorum_done-Fenced env nodes h = ground (arith, check_quorum-Fenced env nodes)

check_fs_done-Fenced :
    (registered : Bool) (nodes : List Node)
    → All Fenced nodes
    → All Fenced (check_fs_done registered nodes).0
unfolding check_fs_done
check_fs_done-Fenced registered nodes h = ground (arith, check_fs-Fenced nodes)

check_fs_done-Quorate :
    (registered : Bool) (nodes : List Node)
    → All Quorate nodes
    → All Quorate (check_fs_done registered nodes).0
unfolding check_fs_done
check_fs_done-Quorate registered nodes h = ground (arith, check_fs-Quorate nodes)

check_fs_done-IsNotified :
    (registered : Bool) (nodes : List Node)
    → (check_fs_done registered nodes).1 ≡ true
    → registered ≡ true
    → All IsNotified (check_fs_done registered nodes).0
unfolding check_fs_done
check_fs_done-IsNotified registered nodes h e = ground (arith, check_fs-IsNotified nodes)

pub wait_conditions_done-IsClear :
    (env : GroupEnv) (ls : Space) (w : GroupWorld)
    → (wait_conditions_done env ls w).ready ≡ true
    → IsClear env.enable_fencing env.enable_quorum ls.fs_registered
        (wait_conditions_done env ls w).nodes
unfolding wait_conditions_done
wait_conditions_done-IsClear env ls w h =
    let fenced = check_fencing_done env ls.node_history in
    let quorate = check_quorum_done env fenced.0 in
    let notified = check_fs_done ls.fs_registered quorate.0 in
    elim (Bool-cases fenced.1) [
      | inr e ↦ ground arith
      | inl f ↦ elim (Bool-cases quorate.1) [
        | inr e ↦ ground arith
        | inl q ↦ elim (Bool-cases notified.1) [
          | inr e ↦ ground arith
          | inl n ↦
              rw (f, q, n)
                (record {
                  fenced = λ e. check_fs_done-Fenced ls.fs_registered quorate.0 (
                      check_quorum_done-Fenced env fenced.0
                        (check_fencing_done-Fenced env ls.node_history f e));
                  quorate = λ e.
                      check_fs_done-Quorate ls.fs_registered quorate.0
                        (check_quorum_done-Quorate env fenced.0 q e).0;
                  notified = λ e. check_fs_done-IsNotified ls.fs_registered quorate.0 n e;
                })
        ]
      ]
    ]

-- The fence domain has an answer, and it says that the node was fenced after it was added.
abbrev pub FencedSince : GroupEnv → Node → Type 0
FencedSince env n = (t : ℕ) × (env.fence_node_time n.nodeid ≡ some t) × (n.add_time < t)

check_fencing-FencedSince :
    (env : GroupEnv) (last : ℕ) (nodes : List Node)
    → ((m : ℕ) → (t : ℕ) × (env.fence_node_time m ≡ some t))
    → (check_fencing env last nodes).wait_count ≡ 0
    → All (λ n. n.check_fencing ≡ true → FencedSince env n) nodes
unfolding check_fencing
check_fencing-FencedSince env last [] known h = tt
check_fencing-FencedSince env last (n ∷ rest) known h = elim (Bool-cases n.check_fencing) [
  | inr e ↦ (
    λ t. ground arith,
    check_fencing-FencedSince env last rest known (rw (e, check_fencing) at h),
  )
  | inl e ↦
      let answer = known n.nodeid in
      let h' = rw (e, answer.1, check_fencing, fenced_time) at h in
      (
        λ t. (answer.0, answer.1, ground arith),
        check_fencing-FencedSince env (answer.0) rest known (ground arith),
      )
]

-- The last test of `check_fencing_done`.
abbrev no_fence_op : Option ℕ → Bool
no_fence_op none = false
no_fence_op (some count) = count == 0

no_victims : (o : Option ℕ) → no_fence_op o ≡ true → o ≡ some 0
no_victims none h = cc
no_victims (some count) h = ap some (==→eq count 0 h)

check_fencing_done-counts :
    (env : GroupEnv) (nodes : List Node)
    → env.enable_fencing ≡ true
    → (check_fencing_done env nodes).1 ≡ true
    → ((check_fencing env env.stack_time nodes).wait_count ≡ 0) × (env.fence_in_progress ≡ some 0)
unfolding check_fencing_done
check_fencing_done-counts env nodes on h =
    elim (Bool-cases ((check_fencing env env.stack_time nodes).wait_count == 0)) [
      | inr e ↦ ground arith
      | inl e ↦ (==→eq _ _ e, no_victims env.fence_in_progress (ground arith))
    ]

-- With fencing, and a fence domain that answers for each node, the conditions are met only if
-- each node of the history that had to be fenced was fenced after it had started, and no fencing
-- is in progress.
pub wait_conditions_done-FencedSince :
    (env : GroupEnv) (ls : Space) (w : GroupWorld)
    → env.enable_fencing ≡ true
    → ((m : ℕ) → (t : ℕ) × (env.fence_node_time m ≡ some t))
    → (wait_conditions_done env ls w).ready ≡ true
    → All (λ n. n.check_fencing ≡ true → FencedSince env n) ls.node_history
      × (env.fence_in_progress ≡ some 0)
unfolding wait_conditions_done
wait_conditions_done-FencedSince env ls w on known h =
    let counts = check_fencing_done-counts env ls.node_history on (ground arith) in
    (check_fencing-FencedSince env env.stack_time ls.node_history known counts.0, counts.1)
