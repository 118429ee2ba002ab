-- ===== src/Group/Control/Traces.antt =====
-- Any number of steps of a lockspace, each a call of the daemon into group/dlm_controld/cpg.c.
use dlm.Base.{is_empty, ap, ◌∙◌, ℕ, ◌≡◌, sym, Bool, true, Option, List, []}
use dlm.Plock.Types.{Lockspace, ok}
use dlm.Group.Types.{Message, Left, GroupEnv, GroupWorld, Space}
use dlm.Group.History.{set_fs_notified}
use dlm.Group.Changes.{apply_changes}
use dlm.Group.Adding.{add_change}
use dlm.Group.Callbacks.{change_members, Detector, deliver_cb}
use dlm.Group.Control.{
  true-ne-false, conditions_met, IsControlled, StartsWhen, apply_changes-IsControlled,
}
use dlm.Group.Control.Steps.{
  After, set_fs_notified-IsClear, deliver_cb-IsControlled, change_members-IsControlled,
}

-- Each step has its own clock, allocator and cluster services, but the settings do not change:
-- a configuration change that is added, a message, another look at what is waited for, a request
-- on plocks, or the flag of a leave.
pub data Step (D : Detector) (fencing quorum : Bool) : Space → Space → Type 0 where
  changed :
      (env : GroupEnv) (members : List ℕ) (left : List Left) (joined : List ℕ) (ls : Space)
      (w : GroupWorld)
      → env.enable_fencing ≡ fencing
      → env.enable_quorum ≡ quorum
      → (add_change env ls members left joined w).0 ≡ ok
      → Step D fencing quorum ls (change_members env members left joined ls w).1
  delivered :
      (env : GroupEnv) (nodeid : ℕ) (message : Option Message) (ls : Space) (d : D.State)
      (w : GroupWorld)
      → env.enable_fencing ≡ fencing
      → env.enable_quorum ≡ quorum
      → Step D fencing quorum ls (deliver_cb D env nodeid message ls d w).0
  polled :
      (env : GroupEnv) (ls : Space) (w : GroupWorld)
      → env.enable_fencing ≡ fencing
      → env.enable_quorum ≡ quorum
      → Step D fencing quorum ls (apply_changes env ls w).0
  locked : (ls : Space) (fs : Lockspace) → Step D fencing quorum ls (record ls { plocks = fs })
  notified :
      (ls : Space) (nodeid : ℕ)
      → Step D fencing quorum ls
          (record ls { node_history = (set_fs_notified nodeid ls.node_history).0 })
  asked_to_leave : (ls : Space) → Step D fencing quorum ls (record ls { leaving = true })

pub data Reach (D : Detector) (fencing quorum : Bool) (ls : Space) : Space → Type 0 where
  here : Reach D fencing quorum ls ls
  next :
      {ls' ls'' : Space}
      → Reach D fencing quorum ls ls'
      → Step D fencing quorum ls' ls''
      → Reach D fencing quorum ls ls''

-- With the settings of the step for those of the whole run.
with_settings :
    {f q : Bool}
    → (env : GroupEnv) (ls ls' : Space) → env.enable_fencing ≡ f
    → env.enable_quorum ≡ q
    → (IsControlled env.enable_fencing env.enable_quorum ls → After env ls ls')
    → IsControlled f q ls
    → IsControlled f q ls' × StartsWhen f q ls ls'
with_settings env ls ls' a b h = rw⁻¹ (a, b) h

first-IsControlled : (f q : Bool) (ls : Space) → ls.changes ≡ [] → IsControlled f q ls
first-IsControlled f q ls h = record {
  stopped = λ k. absurd (true-ne-false (sym (ap is_empty h) ∙ k));
  clear = λ k. absurd (true-ne-false (sym k ∙ ap conditions_met h));
}

module _ {D : Detector} {f q : Bool} where
  Step-IsControlled :
      {ls ls' : Space}
      → Step D f q ls ls'
      → IsControlled f q ls
      → IsControlled f q ls' × StartsWhen f q ls ls'
  Step-IsControlled (changed env members left joined ls w a b h) =
      with_settings env ls _ a b (λ c. change_members-IsControlled env members left joined ls w h)
  Step-IsControlled (delivered env nodeid message ls d w a b) =
      with_settings env ls _ a b (deliver_cb-IsControlled D env nodeid message ls d w)
  Step-IsControlled (polled env ls w a b) =
      with_settings env ls _ a b (apply_changes-IsControlled env ls w)
  Step-IsControlled (locked ls fs) =
      λ h. (record { stopped = h.stopped; clear = h.clear }, λ k k'. absurd cc)
  Step-IsControlled (notified ls nodeid) = λ h. (
    record {
      stopped = h.stopped;
      clear = λ k. set_fs_notified-IsClear nodeid f q ls.fs_registered ls.node_history (h.clear k);
    },
    λ k k'. absurd cc,
  )
  Step-IsControlled (asked_to_leave ls) =
      λ h. (record { stopped = h.stopped; clear = h.clear }, λ k k'. absurd cc)

  -- After any steps from a lockspace without changes (added configuration changes, messages,
  -- polls of the conditions, work on plocks, notifications of the filesystem, a request to
  -- leave), each with its own clock, allocator and cluster services but the same settings for
  -- fencing and quorum, the kernel is stopped while there are changes, and while the first
  -- change waits for start messages no node of the history waits for fencing, quorum or the
  -- filesystem, as far as these are asked for.
  pub Reach-IsControlled :
      (ls ls' : Space) → ls.changes ≡ [] → Reach D f q ls ls' → IsControlled f q ls'
  Reach-IsControlled ls ls' h here = first-IsControlled f q ls h
  Reach-IsControlled ls ls' h (next {ls' = ls1} r s) =
      (Step-IsControlled s (Reach-IsControlled ls ls1 h r)).0
