-- ===== src/Group/Control.antt =====
-- When group/dlm_controld/cpg.c lets the kernel go on.
pub mod Added
pub mod Steps
pub mod Traces
use dlm.Base.{
  ℕ, ◌⊎◌, ◌≡◌, refl, sym, ap, ◌∙◌, Bool, true, false, Option, none, some, List, [], ◌∷◌, ◌==◌,
  if◌then◌else◌, All, arith, Bool-cases, inl, inr, is_empty,
}
use dlm.Group.Types.{
  Member, Node, CgState, wait_conditions, wait_messages, Change, LsInfo, Message, GroupEnv,
  GroupWorld, Space,
}
use dlm.Group.History.{change_node, node_history_start}
use dlm.Group.Conditions.{wait_conditions_done}
use dlm.Group.Conditions.Clear.{Fenced, Quorate, IsNotified, IsClear, wait_conditions_done-IsClear}
use dlm.Group.Start.{find_change, change_found, receive_start}
use dlm.Group.Changes.{
  all_started, start_kernel, store_if_added, set_plock_ckpt_node, prepare_plocks, cleanup_changes,
  apply_conditions, apply_messages, last_seq, apply_first, apply_changes,
}

-- The first change waits for start messages.
abbrev pub waits_for_messages : CgState → Bool
waits_for_messages wait_conditions = false
waits_for_messages wait_messages = true

abbrev pub conditions_met : List Change → Bool
conditions_met [] = false
conditions_met (cg ∷ rest) = waits_for_messages cg.state

-- The kernel is stopped while there are changes, and a change waits for messages only when nothing in
-- the history must be waited for.
pub record IsControlled (fencing quorum : Bool) (ls : Space) : Type 0 where
  pub stopped : is_empty ls.changes ≡ false → ls.kernel_stopped ≡ true
  pub clear :
      conditions_met ls.changes ≡ true → IsClear fencing quorum ls.fs_registered ls.node_history

abbrev pub HasStarted : Member → Type 0
HasStarted m = m.start ≡ true

-- The conditions under which the kernel is started: nothing in the history must be waited for, and
-- all members of the change have sent their start messages.
pub record MayStart (fencing quorum : Bool) (ls : Space) : Type 0 where
  pub clear : IsClear fencing quorum ls.fs_registered ls.node_history
  pub change : Change
  pub is_last : ls.started_change ≡ some change
  pub members : All HasStarted change.members

-- The kernel goes on only under them.
abbrev pub StartsWhen : Bool → Bool → Space → Space → Type 0
StartsWhen fencing quorum ls ls' =
    ls.kernel_stopped ≡ true → ls'.kernel_stopped ≡ false → MayStart fencing quorum ls'

-- The parts of a lockspace that the plock code leaves alone.
record SameGroup (ls ls' : Space) : Type 0 where
  pub kernel : ls'.kernel_stopped ≡ ls.kernel_stopped
  pub history : ls'.node_history ≡ ls.node_history
  pub registered : ls'.fs_registered ≡ ls.fs_registered

prepare_plocks-SameGroup :
    (env : GroupEnv) (cg : Change) (rest : List Change) (ls : Space) (w : GroupWorld)
    → SameGroup ls (prepare_plocks env cg rest ls w).0
unfolding prepare_plocks
prepare_plocks-SameGroup env cg rest ls w = ground arith

start_kernel-SameGroup :
    (ls : Space) (cg : Change) (rest : List Change) (w : GroupWorld)
    → let ls' = (start_kernel ls cg rest w).0 in
      (ls'.node_history ≡ ls.node_history) × (ls'.fs_registered ≡ ls.fs_registered)
unfolding start_kernel
start_kernel-SameGroup ls cg rest w = ground arith

all_started-HasStarted : (ms : List Member) → all_started ms ≡ true → All HasStarted ms
unfolding all_started
all_started-HasStarted [] h = tt
all_started-HasStarted (m ∷ rest) h = ground (arith, all_started-HasStarted rest)

pub true-ne-false : true ≡ false → ⊥
true-ne-false h = cc

IsClear-same :
    {f q r r' : Bool} {nodes nodes' : List Node}
    → r' ≡ r
    → nodes' ≡ nodes
    → IsClear f q r nodes
    → IsClear f q r' nodes'
IsClear-same a b h = rw (a, b) h

module _ (env : GroupEnv) (cg : Change) (rest : List Change) (ls : Space) (w : GroupWorld) where
  apply_messages-MayStart :
      ls.changes ≡ cg ∷ rest
      → cg.state ≡ wait_messages
      → IsControlled env.enable_fencing env.enable_quorum ls
      → let ls' = (apply_messages env cg rest ls w).0 in
        IsControlled env.enable_fencing env.enable_quorum ls'
        × StartsWhen env.enable_fencing env.enable_quorum ls ls'
  unfolding apply_messages cleanup_changes
  apply_messages-MayStart at s h = elim (Bool-cases (all_started cg.members)) [
    | inr e ↦ rw e (h, λ k k'. ground arith)
    | inl e ↦
        let run = start_kernel ls cg rest w in
        let same = start_kernel-SameGroup ls cg rest w in
        let kept = prepare_plocks-SameGroup env cg rest run.0 run.1 in
        rw e (
          record { stopped = λ k. cc; clear = λ k. cc },
          λ k k'. record {
            clear =
                IsClear-same (kept.registered ∙ same.1) (kept.history ∙ same.0)
                  (h.clear (ap conditions_met at ∙ ap waits_for_messages s));
            change = record cg { combined_seq = last_seq cg.seq rest };
            is_last = refl;
            members = all_started-HasStarted cg.members e;
          },
        )
  ]

  apply_conditions-IsControlled :
      ls.changes ≡ cg ∷ rest
      → cg.state ≡ wait_conditions
      → IsControlled env.enable_fencing env.enable_quorum ls
      → let ls' = (apply_conditions env cg rest ls w).0 in
        IsControlled env.enable_fencing env.enable_quorum ls'
        × (ls'.kernel_stopped ≡ ls.kernel_stopped)
  unfolding apply_conditions
  apply_conditions-IsControlled at s h = elim (Bool-cases (wait_conditions_done env ls w).ready) [
    | inr e ↦ rw e (
      record {
        stopped = h.stopped;
        clear =
            λ m. absurd (true-ne-false (sym m ∙ ap conditions_met at ∙ ap waits_for_messages s));
      },
      refl,
    )
    | inl e ↦ rw e (
      record {
        stopped = λ k. h.stopped (ap is_empty at);
        clear = λ k. wait_conditions_done-IsClear env ls w e;
      },
      refl,
    )
  ]

CgState-cases : (s : CgState) → (s ≡ wait_conditions) ⊎ (s ≡ wait_messages)
CgState-cases wait_conditions = inl refl
CgState-cases wait_messages = inr refl

apply_first-IsControlled :
    (env : GroupEnv) (cs : List Change) (ls : Space) (w : GroupWorld)
    → ls.changes ≡ cs
    → IsControlled env.enable_fencing env.enable_quorum ls
    → let ls' = (apply_first env cs ls w).0 in
      IsControlled env.enable_fencing env.enable_quorum ls'
      × StartsWhen env.enable_fencing env.enable_quorum ls ls'
unfolding apply_first
apply_first-IsControlled env [] ls w at h = (h, λ k k'. ground arith)
apply_first-IsControlled env (cg ∷ rest) ls w at h = elim (CgState-cases cg.state) [
  | inr s ↦ rw (s, apply_first) (apply_messages-MayStart env cg rest ls w at s h)
  | inl s ↦
      let out = apply_conditions-IsControlled env cg rest ls w at s h in
      rw (s, apply_first) (out.0, λ k k'. absurd (true-ne-false (sym (out.1 ∙ k) ∙ k')))
]

pub apply_changes-IsControlled :
    (env : GroupEnv) (ls : Space) (w : GroupWorld)
    → IsControlled env.enable_fencing env.enable_quorum ls
    → let ls' = (apply_changes env ls w).0 in
      IsControlled env.enable_fencing env.enable_quorum ls'
      × StartsWhen env.enable_fencing env.enable_quorum ls ls'
unfolding apply_changes
apply_changes-IsControlled env ls w h = apply_first-IsControlled env ls.changes ls w refl h

-- What a write to the nodes keeps.
change_node-All :
    (P : Node → Type 0) (f : Node → Node) (nodeid : ℕ) (nodes : List Node)
    → ((n : Node) → P n → P (f n))
    → All P nodes
    → All P (change_node f nodeid nodes)
unfolding change_node
change_node-All P f nodeid [] k h = tt
change_node-All P f nodeid (n ∷ rest) k h = elim (Bool-cases (n.nodeid == nodeid)) [
  | inl e ↦ rw (e, change_node) (k n h.0, h.1)
  | inr e ↦ rw (e, change_node) (h.0, change_node-All P f nodeid rest k h.1)
]

-- A write to the nodes that leaves what must be waited for as it is.
pub change_node-IsClear :
    (f : Node → Node) (nodeid : ℕ) (fencing quorum registered : Bool) (nodes : List Node)
    → ((n : Node)
        → ((f n).check_fencing ≡ n.check_fencing)
          × ((f n).check_quorum ≡ n.check_quorum)
          × ((f n).check_fs ≡ n.check_fs))
    → IsClear fencing quorum registered nodes
    → IsClear fencing quorum registered (change_node f nodeid nodes)
change_node-IsClear f nodeid fencing quorum registered nodes k h = record {
  fenced = λ e. change_node-All Fenced f nodeid nodes (λ n p. (k n).0 ∙ p) (h.fenced e);
  quorate = λ e. change_node-All Quorate f nodeid nodes (λ n p. (k n).1 ∙ p) (h.quorate e);
  notified = λ e. change_node-All IsNotified f nodeid nodes (λ n p. (k n).2 ∙ p) (h.notified e);
}

pub change_found-same :
    (matches : Change → Bool) (f : Change → Change) (cs : List Change)
    → ((cg : Change) → (f cg).state ≡ cg.state)
    → (is_empty (change_found matches f cs) ≡ is_empty cs)
      × (conditions_met (change_found matches f cs) ≡ conditions_met cs)
unfolding change_found
change_found-same matches f [] k = (refl, refl)
change_found-same matches f (cg ∷ rest) k = ground (arith, k cg, ap waits_for_messages (k cg))
