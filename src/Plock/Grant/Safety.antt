-- ===== src/Plock/Grant/Safety.antt =====
-- The invariant of a resource (group/dlm_controld/plock.c), kept by the operations on it.
use dlm.Base.{
  ℕ, ◌≡◌, true, false, Option, none, some, List, [], ◌∷◌, All, All-append, Bool-cases, inl, inr,
  ◌==◌, ◌⊎◌, arith,
}
use dlm.Plock.Types.{
  OpType, lock, unlock, get, other, Info, PosixLock, LockWaiter, Resource, Rv, ok, einprogress, Mem,
  Env, World, Lockspace,
}
use dlm.Plock.Locks.{is_conflict}
use dlm.Plock.Locks.View.{IsRequest}
use dlm.Plock.Locks.Table.{IsSafe, lock_internal-IsSafe, unlock_internal-IsSafe}
use dlm.Plock.Grant.{
  add_waiter, waiters_pass, do_waiters, put_resource, settle, try_lock, do_lock, do_unlock,
  op_switch, apply_plock,
}

-- No two processes conflict, and every request in the queue has a range and a mode.
pub record IsSound (r : Resource) : Type 0 where
  pub safe : IsSafe r.locks
  pub queue : All (λ q. IsRequest (q.info)) r.waiters

-- What holds of a resource unless it was freed.
abbrev pub UnlessFreed {κ} : (Resource → Type κ) → Option Resource → Type κ
UnlessFreed P none = Unit
UnlessFreed P (some r) = P r

waiters_pass-IsSound :
    (env : Env) (ls : Lockspace) (queue : List LockWaiter) (locks : List PosixLock) (w : World)
    → All (λ q. IsRequest (q.info)) queue
    → IsSafe locks
    → let pass = waiters_pass env ls queue locks w in
      IsSafe pass.locks × All (λ q. IsRequest (q.info)) pass.waiters
unfolding waiters_pass
waiters_pass-IsSound env ls [] locks w valid safe = (safe, tt)
waiters_pass-IsSound env ls (q ∷ queue) locks w valid safe =
    elim (Bool-cases (is_conflict locks q.info)) [
      | inl hit ↦
          rw (hit, waiters_pass)
            (let rest = waiters_pass-IsSound env ls queue locks w valid.1 safe in
              (rest.0, (valid.0, rest.1)))
      | inr free ↦
          rw (free, waiters_pass)
            (waiters_pass-IsSound env ls queue _ _ valid.1
              (lock_internal-IsSafe w.mem locks q.info safe valid.0 free))
    ]

pub do_waiters-IsSound :
    (env : Env) (ls : Lockspace) (r : Resource) (w : World)
    → IsSound r
    → IsSound (do_waiters env ls r w).0
unfolding do_waiters
do_waiters-IsSound env ls r w s =
    let out = waiters_pass-IsSound env ls r.waiters r.locks w s.queue s.safe in
    record { safe = out.0; queue = out.1 }

put_resource_cases :
    (env : Env) (r : Resource) → (put_resource env r ≡ some r) ⊎ (put_resource env r ≡ none)
unfolding put_resource
put_resource_cases env r = ground arith

pub put_resource-UnlessFreed {κ} :
    (P : Resource → Type κ) (env : Env) (r : Resource) → P r → UnlessFreed P (put_resource env r)
put_resource-UnlessFreed P env r h = elim (put_resource_cases env r) [
  | inl stays ↦ rw stays h
  | inr freed ↦ rw freed tt
]

settle-IsSound :
    (env : Env) (ls : Lockspace) (r : Resource) (w : World)
    → IsSound r
    → UnlessFreed IsSound (settle env ls r w).0
settle-IsSound env ls r w s =
    put_resource-UnlessFreed IsSound env _ (do_waiters-IsSound env ls r w s)

add_waiter-requests :
    (env : Env) (mem : Mem) (waiters : List LockWaiter) (i : Info)
    → IsRequest i
    → All (λ q. IsRequest (q.info)) waiters
    → All (λ q. IsRequest (q.info)) (add_waiter env mem waiters i).0
unfolding add_waiter
add_waiter-requests env [] waiters i request valid = All-append _ waiters _ valid (request, tt)
add_waiter-requests env (true ∷ m) waiters i request valid =
    All-append _ waiters _ valid (request, tt)
add_waiter-requests env (false ∷ m) waiters i request valid = valid

queued-IsSound :
    (r : Resource) (i : Info) (mem mem' : Mem) (waiters : List LockWaiter) (rv : Rv)
    → IsSound r
    → All (λ q. IsRequest (q.info)) waiters
    → IsSound
        (elim rv as (λ _. Resource × Rv × Mem) [
          | ok ↦ (record r { waiters = waiters }, einprogress, mem')
          | failed ↦ (r, failed, mem')
        ]).0
queued-IsSound r i mem mem' waiters ok s v = record { safe = s.safe; queue = v }
queued-IsSound r i mem mem' waiters _ s v = s

try_lock-IsSound :
    (env : Env) (r : Resource) (i : Info) (mem : Mem)
    → IsSound r
    → IsRequest i
    → IsSound (try_lock env r i mem).0
unfolding try_lock
try_lock-IsSound env r i mem s request = elim (Bool-cases (is_conflict r.locks i)) [
  | inr free ↦
      rw free
        (record { safe = lock_internal-IsSafe mem r.locks i s.safe request free; queue = s.queue })
  | inl hit ↦ elim (Bool-cases (i.wait == 0)) [
    | inl now ↦ rw (hit, now) s
    | inr wait ↦
        rw (hit, wait)
          (queued-IsSound r i mem _ _ _ s (add_waiter-requests env mem r.waiters i request s.queue))
  ]
]

-- A lock request keeps the resource sound, whether it is granted, refused or queued, and also when
-- memory runs out.
pub do_lock-IsSound :
    (env : Env) (ls : Lockspace) (i : Info) (r : Resource) (w : World)
    → IsSound r
    → IsRequest i
    → UnlessFreed IsSound (do_lock env ls i r w).0
unfolding do_lock
do_lock-IsSound env ls i r w s request =
    settle-IsSound env ls _ _ (try_lock-IsSound env r i w.mem s request)

-- So does an unlock.
pub do_unlock-IsSound :
    (env : Env) (ls : Lockspace) (i : Info) (r : Resource) (w : World)
    → IsSound r
    → IsRequest i
    → UnlessFreed IsSound (do_unlock env ls i r w).0
unfolding do_unlock
do_unlock-IsSound env ls i r w s request =
    settle-IsSound env ls _ _
      (record { safe = unlock_internal-IsSafe w.mem r.locks i s.safe request; queue = s.queue })

op_switch-IsSound :
    (op : OpType) (env : Env) (ls : Lockspace) (i : Info) (from : ℕ) (r : Resource) (w : World)
    → IsSound r
    → IsRequest i
    → UnlessFreed IsSound (op_switch op env ls i from r w).0
unfolding op_switch
op_switch-IsSound lock env ls i from r w s request = do_lock-IsSound env ls i r _ s request
op_switch-IsSound unlock env ls i from r w s request = do_unlock-IsSound env ls i r _ s request
op_switch-IsSound get env ls i from r w s request = s
op_switch-IsSound (other n) env ls i from r w s request = s

-- On a resource with this property, every operation with a valid range and mode, granted,
-- refused, queued or unknown, and whatever the allocator answers, leaves a resource (unless it
-- frees it) where no byte is locked by two processes of which one writes, and every lock and
-- queued request is valid.
pub apply_plock-IsSound :
    (env : Env) (ls : Lockspace) (i : Info) (from : ℕ) (r : Resource) (w : World)
    → IsSound r
    → IsRequest i
    → UnlessFreed IsSound (apply_plock env ls i from r w).0
unfolding apply_plock
apply_plock-IsSound env ls i from r w = op_switch-IsSound i.optype env ls i from r w
