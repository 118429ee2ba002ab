-- ===== src/Plock/Purge.antt =====
-- group/dlm_controld/plock.c: what a node that left held, waited for and owned is taken away.
pub mod Effect
use dlm.Base.{
  ℕ, ◌+◌, Bool, not, ◌&&◌, ◌||◌, Option, none, some, List, [], ◌∷◌, ◌==◌, if◌then◌else◌, is_empty,
}
use dlm.Plock.Types.{PosixLock, LockWaiter, Resource, Env, World, Lockspace, touch_plock_time}
use dlm.Plock.Grant.{do_waiters}
use dlm.Plock.Messages.{send_pending_plocks}

-- The first inner loop: the locks that stay, and how many go.
unfoldable pub purge_locks : ℕ → Bool → List PosixLock → List PosixLock × ℕ
purge_locks nodeid unmount [] = ([], 0)
purge_locks nodeid unmount (po ∷ rest) =
    let (rest', purged) = purge_locks nodeid unmount rest in
    if po.nodeid == nodeid || unmount then (rest', purged + 1) else (po ∷ rest', purged)

-- The second.
unfoldable pub purge_waiters : ℕ → Bool → List LockWaiter → List LockWaiter × ℕ
purge_waiters nodeid unmount [] = ([], 0)
purge_waiters nodeid unmount (q ∷ rest) =
    let (rest', purged) = purge_waiters nodeid unmount rest in
    if q.info.nodeid == nodeid || unmount then (rest', purged + 1) else (q ∷ rest', purged)

-- `if (r->owner == nodeid)`: the resource is not owned any more.
unfoldable pub disown : Env → ℕ → Resource → World → Resource × World
unfolding send_pending_plocks
disown env nodeid r w =
    if r.owner == nodeid then send_pending_plocks env (record r { owner = 0 }) w else (r, w)

-- `if (!list_empty(&r->waiters)) do_waiters(ls, r)`
abbrev pub wake : Env → Lockspace → Resource × World → Resource × World
wake env ls out = if is_empty (out.0).waiters then out else do_waiters env ls out.0 out.1

-- The outer loop at one resource: what is left of it, and how many locks and waiters went.
unfoldable pub purge_resource :
    Env → Lockspace → ℕ → Bool → Resource → World → Option Resource × World × ℕ
unfolding purge_locks purge_waiters disown
purge_resource env ls nodeid unmount r w =
    let locks = purge_locks nodeid unmount r.locks in
    let waiters = purge_waiters nodeid unmount r.waiters in
    let out =
      wake env ls (disown env nodeid (record r { locks = locks.0; waiters = waiters.0 }) w) in
    (
      if not env.plock_ownership && (is_empty (out.0).locks && is_empty (out.0).waiters)
          then none
          else some out.0,
      out.1,
      locks.1 + waiters.1,
    )

cons_some : Option Resource → List Resource → List Resource
cons_some none rs = rs
cons_some (some r) rs = r ∷ rs

-- The outer loop.
purge_pass : Env → Lockspace → ℕ → Bool → List Resource → World → List Resource × World × ℕ
unfolding purge_resource cons_some
purge_pass env ls nodeid unmount [] w = ([], w, 0)
purge_pass env ls nodeid unmount (r ∷ rest) w =
    let (left, w', purged) = purge_resource env ls nodeid unmount r w in
    let (rest', w'', more) = purge_pass env ls nodeid unmount rest w' in
    (cons_some left rest', w'', purged + more)

unfoldable pub purge_plocks : Env → Lockspace → ℕ → Bool → World → Lockspace × World
unfolding purge_pass
purge_plocks env ls nodeid unmount w =
    if not env.enable_plock
    then (ls, w)
    else (let (rs, w', purged) = purge_pass env ls nodeid unmount ls.plock_resources w in
        (
          record ls { plock_resources = rs },
          if purged == 0 then w' else touch_plock_time env ls w',
        ))
