-- ===== src/Plock/Replica/Memory.antt =====
-- Where no allocation fails, the allocator of group/dlm_controld/plock.c stays that way.
use dlm.Base.{◌≡◌, arith}
use dlm.Plock.Types.{Info, Rv, Env, World, Lockspace}
use dlm.Plock.Grant.{write_result, reply}

pub reply-mem :
    (env : Env) (ls : Lockspace) (i : Info) (rv : Rv) (w : World)
    → (reply env ls i rv w).mem ≡ w.mem
unfolding reply write_result
reply-mem env ls i rv w = ground arith
