-- ===== src/Group/Control/Steps.antt =====
-- The steps of a lockspace (group/dlm_controld/cpg.c), and what holds after any of them.
use dlm.Base.{
  not, ◌||◌, ℕ, ◌≡◌, refl, sym, ap, ◌∙◌, Bool, true, false, Option, none, some, List, [], ◌∷◌, ◌==◌,
  if◌then◌else◌, arith, is_empty,
}
use dlm.Plock.Types.{Rv, ok}
use dlm.Group.Types.{
  Node, Body, start, plocks_stored, plocks, LsInfo, Message, Left, GroupEnv, GroupWorld, Space,
}
use dlm.Group.History.{node_history_start, set_fs_notified}
use dlm.Group.Start.{
  match_change, ls_info_in, ids_in, change_sender, mark_disallowed, mark_started, receive_start,
  read_plocks, receive_plocks_stored,
}
use dlm.Group.Changes.{stop_kernel}
use dlm.Group.Adding.{add_change}
use dlm.Group.Control.Added.{IsAdded, add_change-IsAdded}
use dlm.Group.Callbacks.{
  purge_space, receive_plocks, finish_change, purge_left, change_members, Detector, receive_message,
  deliver_cb,
}
use dlm.Group.Control.{
  true-ne-false, conditions_met, IsControlled, StartsWhen, apply_changes-IsControlled,
  change_node-IsClear, change_found-same,
}
use dlm.Group.Conditions.Clear.{IsClear}

-- A start message does not touch what the invariant speaks of.
node_history_start-IsClear :
    (time nodeid : ℕ) (f q registered : Bool) (nodes : List Node)
    → IsClear f q registered nodes
    → IsClear f q registered (node_history_start time nodeid nodes)
unfolding node_history_start
node_history_start-IsClear time nodeid f q registered nodes h =
    change_node-IsClear (λ n. record n { add_time = time }) nodeid f q registered nodes
      (λ n. (refl, refl, refl)) h

pub set_fs_notified-IsClear :
    (nodeid : ℕ) (f q registered : Bool) (nodes : List Node)
    → IsClear f q registered nodes
    → IsClear f q registered (set_fs_notified nodeid nodes).0
unfolding set_fs_notified
set_fs_notified-IsClear nodeid f q registered nodes h = ground (
  arith,
  change_node-IsClear (λ n. record n { fs_notified = true }) nodeid f q registered nodes
      (λ n. (refl, refl, refl)) h,
)

receive_start-IsControlled :
    (f q : Bool) (env : GroupEnv) (ls : Space) (hd : Message) (li : LsInfo) (ids : List ℕ)
    → IsControlled f q ls
    → IsControlled f q (receive_start env ls hd li ids)
      × ((receive_start env ls hd li ids).kernel_stopped ≡ ls.kernel_stopped)
unfolding receive_start
receive_start-IsControlled f q env ls hd li ids h =
    let matches =
      match_change env.plock.our_nodeid hd.nodeid (ls_info_in env.plock.big_endian li)
        (ids_in env.plock.big_endian ids) in
    ground (
      arith,
      change_found-same matches (change_sender (mark_disallowed hd) hd.nodeid) ls.changes
          (λ cg. refl),
      change_found-same matches (change_sender (mark_started hd) hd.nodeid) ls.changes (λ cg. refl),
      node_history_start-IsClear env.plock.time hd.nodeid f q ls.fs_registered ls.node_history,
    )

receive_plocks_stored-group :
    (env : GroupEnv) (ls : Space) (w : GroupWorld) (hd : Message) (li : LsInfo) (ids : List ℕ)
    → let ls' = (receive_plocks_stored env ls w hd li ids).0 in
      (ls'.changes ≡ ls.changes)
      × (ls'.kernel_stopped ≡ ls.kernel_stopped)
      × (ls'.fs_registered ≡ ls.fs_registered)
      × (ls'.node_history ≡ ls.node_history)
unfolding receive_plocks_stored read_plocks
receive_plocks_stored-group env ls w hd li ids = ground arith

purge_left-group :
    (env : GroupEnv) (left : List Left) (ls : Space) (w : GroupWorld)
    → let ls' = (purge_left env left ls w).0 in
      (ls'.changes ≡ ls.changes) × (ls'.kernel_stopped ≡ ls.kernel_stopped)
unfolding purge_left purge_space
purge_left-group env [] ls w = (refl, refl)
purge_left-group env (l ∷ rest) ls w =
    purge_left-group env rest (purge_space env l.nodeid false ls w).0
      (purge_space env l.nodeid false ls w).1

-- The kernel, the changes and the history are as before.
record SameChanges (ls ls' : Space) : Type 0 where
  pub changes : ls'.changes ≡ ls.changes
  pub kernel : ls'.kernel_stopped ≡ ls.kernel_stopped
  pub registered : ls'.fs_registered ≡ ls.fs_registered
  pub history : ls'.node_history ≡ ls.node_history

SameChanges-IsControlled :
    {f q : Bool} {ls ls' : Space} → SameChanges ls ls' → IsControlled f q ls → IsControlled f q ls'
SameChanges-IsControlled s h = record {
  stopped = λ k. s.kernel ∙ h.stopped (sym (ap is_empty s.changes) ∙ k);
  clear = λ k. rw (s.registered, s.history) (h.clear (sym (ap conditions_met s.changes) ∙ k));
}

if_both : {A : Type 0} (P : A → Type 0) (c : Bool) {x y : A} → P x → P y → P (if c then x else y)
if_both P true p q = p
if_both P false p q = q

-- What a step leaves.
abbrev pub After : GroupEnv → Space → Space → Type 0
After env ls ls' =
    IsControlled env.enable_fencing env.enable_quorum ls'
    × StartsWhen env.enable_fencing env.enable_quorum ls ls'

pub After-refl :
    (env : GroupEnv) (ls : Space)
    → IsControlled env.enable_fencing env.enable_quorum ls
    → After env ls ls
After-refl env ls h = (h, λ k k'. absurd (true-ne-false (sym k ∙ k')))

After-first :
    (env : GroupEnv) (ls ls' ls'' : Space)
    → ls'.kernel_stopped ≡ ls.kernel_stopped
    → After env ls' ls''
    → After env ls ls''
After-first env ls ls' ls'' same h = (h.0, λ k k'. h.1 (same ∙ k) k')

module _ (D : Detector) where
  open D use {State}

  receive_message-IsControlled :
      (f q : Bool) (env : GroupEnv) (hd : Message) (body : Body) (ls : Space) (d : State)
      (w : GroupWorld)
      → IsControlled f q ls
      → let ls' = (receive_message D env hd body ls d w).0 in
        IsControlled f q ls' × (ls'.kernel_stopped ≡ ls.kernel_stopped)
  unfolding receive_message receive_plocks
  receive_message-IsControlled f q env hd (start li ids) ls d w h =
      receive_start-IsControlled f q env ls hd li ids h
  receive_message-IsControlled f q env hd (plocks_stored li ids) ls d w h =
      let same = receive_plocks_stored-group env ls w hd li ids in
      (
        SameChanges-IsControlled
            (record { changes = same.0; kernel = same.1; registered = same.2; history = same.3 }) h,
        same.1,
      )
  receive_message-IsControlled f q env hd (plocks type payload) ls d w h =
      (record { stopped = h.stopped; clear = h.clear }, refl)
  receive_message-IsControlled f q env hd body ls d w h = (h, refl)

  pub deliver_cb-IsControlled :
      (env : GroupEnv) (nodeid : ℕ) (message : Option Message) (ls : Space) (d : State)
      (w : GroupWorld)
      → IsControlled env.enable_fencing env.enable_quorum ls
      → After env ls (deliver_cb D env nodeid message ls d w).0
  unfolding deliver_cb
  deliver_cb-IsControlled env nodeid none ls d w h = After-refl env ls h
  deliver_cb-IsControlled env nodeid (some hd) ls d w h =
      let same = After-refl env ls h in
      let P : Space × State × GroupWorld → Type 0 = λ r. After env ls r.0 in
      let out = receive_message D env hd hd.body ls d w in
      let received =
        receive_message-IsControlled env.enable_fencing env.enable_quorum env hd hd.body ls d w h in
      if_both P (not (hd.major == env.daemon_major) || not (hd.minor == env.daemon_minor)) same (
        if_both P (not (hd.nodeid == nodeid)) same (
          After-first env ls out.0 _ received.1
            (apply_changes-IsControlled env out.0 out.2 received.0)))

stop_kernel-changes :
    (ls : Space) (w : GroupWorld)
    → let ls' = (stop_kernel ls w).0 in (ls'.changes ≡ ls.changes) × (ls'.kernel_stopped ≡ true)
unfolding stop_kernel
stop_kernel-changes ls w = ground arith

finish_change-IsControlled :
    (env : GroupEnv) (left : List Left) (ls : Space) (out : Rv × Space × GroupWorld)
    → out.0 ≡ ok
    → IsAdded ls out.1
    → After env ls (finish_change env left out).1
unfolding finish_change
finish_change-IsControlled env left ls (ok, ls', w) h added =
    let stopped = stop_kernel-changes ls' w in
    let run = stop_kernel ls' w in
    let purged = purge_left-group env left run.0 run.1 in
    let next = purge_left env left run.0 run.1 in
    let same = purged.0 ∙ stopped.0 in
    let at_stop : IsControlled env.enable_fencing env.enable_quorum next.0 = record {
      stopped = λ k. purged.1 ∙ stopped.1;
      clear = λ k. absurd (true-ne-false (sym k ∙ ap conditions_met same ∙ added.waits));
    } in
    let done = apply_changes-IsControlled env next.0 next.1 at_stop in
    (done.0, λ k k'. done.1 (purged.1 ∙ stopped.1) k')
finish_change-IsControlled env left ls (rv, ls', w) h added = absurd cc

pub change_members-IsControlled :
    (env : GroupEnv) (members : List ℕ) (left : List Left) (joined : List ℕ) (ls : Space)
    (w : GroupWorld)
    → (add_change env ls members left joined w).0 ≡ ok
    → After env ls (change_members env members left joined ls w).1
unfolding change_members
change_members-IsControlled env members left joined ls w h =
    finish_change-IsControlled env left ls (add_change env ls members left joined w) h
      (add_change-IsAdded env ls members left joined w h)
