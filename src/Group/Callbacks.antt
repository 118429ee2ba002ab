-- ===== src/Group/Callbacks.antt =====
-- group/dlm_controld/cpg.c: what the group communication service calls, and the lockspaces that
-- join and leave. The deadlock detection of group/dlm_controld/deadlock.c is an interface here.
use dlm.Base.{
  ℕ, Bool, true, false, not, ◌&&◌, ◌||◌, Option, none, some, List, [], ◌∷◌, ◌==◌, if◌then◌else◌,
}
use dlm.Plock.Types.{
  Info, MsgType, plock, plock_own, plock_drop, plock_sync_lock, plock_sync_waiter, unrelated,
  Header, Lockspace, Rv, ok, enomem, enoent, Mem, malloc, succ_u32,
}
use dlm.Plock.Types as PlockTypes
use dlm.Plock.Messages.{receive_plock, receive_own}
use dlm.Plock.Sync.{receive_sync, receive_drop}
use dlm.Plock.Purge.{purge_plocks}
use dlm.Group.Types.{
  Body, start, plocks_stored, plocks, unknown_type, Message, Left, GroupEnv, sysfs_event_done,
  configfs_members, finalize_cpg, dead_client, GroupWorld, Space, emit,
}
use dlm.Group.Adding.{add_change}
use dlm.Group.Start.{receive_start, receive_plocks_stored}
use dlm.Group.Changes.{stop_kernel, apply_changes}

unfoldable pub we_left : ℕ → List Left → Bool
we_left our_nodeid [] = false
we_left our_nodeid (l ∷ rest) = l.nodeid == our_nodeid || we_left our_nodeid rest

-- `purge_plocks` for a lockspace.
unfoldable pub purge_space : GroupEnv → ℕ → Bool → Space → GroupWorld → Space × GroupWorld
purge_space env nodeid unmount ls w =
    let (fs, w') = purge_plocks env.plock ls.plocks nodeid unmount w.plock in
    (record ls { plocks = fs }, record w { plock = w' })

unfoldable pub purge_left : GroupEnv → List Left → Space → GroupWorld → Space × GroupWorld
purge_left env [] ls w = (ls, w)
purge_left env (l ∷ rest) ls w =
    let (ls', w') = purge_space env l.nodeid false ls w in purge_left env rest ls' w'

-- `confchg_cb`, when this is the change in which the node leaves.
unfoldable pub finish_leave : GroupEnv → Space → GroupWorld → GroupWorld
finish_leave env ls w =
    let (ls1, w1) = stop_kernel ls w in
    let w2 = emit ls1 (configfs_members [] []) w1 in
    let w3 = emit ls1 (sysfs_event_done 0) w2 in
    let w4 = emit ls1 (finalize_cpg ls1.cpg_handle) w3 in
    let w5 = emit ls1 (dead_client ls1.cpg_client) w4 in
    (purge_space env env.plock.our_nodeid true ls1 w5).1

-- What `confchg_cb` does with the result of `add_change`, up to the call of `deadlk_confchg`.
unfoldable pub finish_change :
    GroupEnv → List Left → Rv × Space × GroupWorld → Rv × Space × GroupWorld
finish_change env left (ok, ls, w) =
    let (ls1, w1) = stop_kernel ls w in
    let (ls2, w2) = purge_left env left ls1 w1 in
    let (ls3, w3) = apply_changes env ls2 w2 in (ok, ls3, w3)
finish_change env left (failed, ls, w) = (failed, ls, w)

unfoldable pub change_members :
    GroupEnv → List ℕ → List Left → List ℕ → Space → GroupWorld → Rv × Space × GroupWorld
change_members env members left joined ls w =
    finish_change env left (add_change env ls members left joined w)

-- What the group code calls in the deadlock detection of a lockspace.
pub record Detector : Type 1 where
  pub State : Type 0
  pub confchg : List ℕ → List Left → List ℕ → Space → State → GroupWorld → State × GroupWorld
  pub receive : Message → Space → State → GroupWorld → State × GroupWorld

-- A message of plock.c, with the header that its handlers read.
unfoldable pub receive_plocks :
    GroupEnv → Space → GroupWorld → ℕ → MsgType → Info → Space × GroupWorld
receive_plocks env ls w from type payload =
    let hd : Header = record { nodeid = from; type = type } in
    let out : Lockspace × PlockTypes.World = elim type [
      | plock ↦ receive_plock env.plock ls.plocks w.plock hd payload
      | plock_own ↦ receive_own env.plock ls.plocks w.plock hd payload
      | plock_drop ↦ receive_drop env.plock ls.plocks w.plock hd payload
      | plock_sync_lock ↦ receive_sync env.plock ls.plocks w.plock hd payload
      | plock_sync_waiter ↦ receive_sync env.plock ls.plocks w.plock hd payload
      | unrelated ↦ (ls.plocks, w.plock)
    ] in
    (record ls { plocks = out.0 }, record w { plock = out.1 })

module _ (D : Detector) where
  open D use {State}

  -- `confchg_cb` for its lockspace; `none` when the lockspace is freed.
  unfoldable pub confchg_cb :
      GroupEnv
      → List ℕ
      → List Left
      → List ℕ
      → Space
      → State
      → GroupWorld
      → Option (Space × State) × GroupWorld
  confchg_cb env members left joined ls d w =
      if ls.leaving && we_left env.plock.our_nodeid left
      then (none, finish_leave env ls w)
      else (let (rv, ls', w') = change_members env members left joined ls w in
          elim rv [
            | ok ↦ let (d', w'') = D.confchg members left joined ls' d w' in (some (ls', d'), w'')
            | failed ↦ (some (ls', d), w')
          ])

  -- The `switch` of `deliver_cb`, on the body behind the header.
  unfoldable pub receive_message :
      GroupEnv → Message → Body → Space → State → GroupWorld → Space × State × GroupWorld
  receive_message env hd (start li ids) ls d w = (receive_start env ls hd li ids, d, w)
  receive_message env hd (plocks_stored li ids) ls d w =
      let (ls', w') = receive_plocks_stored env ls w hd li ids in (ls', d, w')
  receive_message env hd (plocks type payload) ls d w =
      let (ls', w') = receive_plocks env ls w hd.nodeid type payload in (ls', d, w')
  receive_message env hd unknown_type ls d w = (ls, d, w)
  receive_message env hd body ls d w = let (d', w') = D.receive hd ls d w in (ls, d', w')

  -- `deliver_cb` for its lockspace; `none` is a message that is shorter than a header.
  unfoldable pub deliver_cb :
      GroupEnv → ℕ → Option Message → Space → State → GroupWorld → Space × State × GroupWorld
  deliver_cb env nodeid message ls d w = elim message [
    | none ↦ (ls, d, w)
    | some hd ↦
        if not (hd.major == env.daemon_major) || not (hd.minor == env.daemon_minor)
        then (ls, d, w)
        else if not (hd.nodeid == nodeid)
        then (ls, d, w)
        else (let (ls', d', w') = receive_message env hd hd.body ls d w in
            let (ls'', w'') = apply_changes env ls' w' in (ls'', d', w''))
  ]
