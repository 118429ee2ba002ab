-- ===== src/Plock/Device.antt =====
-- group/dlm_controld/plock.c: requests read from the kernel, and their rate. Also `find_ls` and
-- `find_ls_id` of group/dlm_controld/main.c and `set_associated_id` of group/dlm_controld/action.c.
use dlm.Base.{
  ℕ, ◌%◌, Bool, true, false, not, ◌&&◌, ◌||◌, Option, none, some, List, [], ◌∷◌, ◌++◌, ◌==◌, ltb,
  leb, if◌then◌else◌,
}
use dlm.Plock.Types.{
  Info, Resource, Rv, enosys, eexist, write, Env, World, Lockspace, Stats, succ_u32, time_diff_ms,
}
use dlm.Plock.Grant.{apply_plock}
use dlm.Plock.Resource.{find_resource, send_plock, send_own, save_pending_plock}
use dlm.Plock.Messages.{put, keep_some}
use dlm.Plock.Sync.{drop_resources}

-- Two names are the same string.
unfoldable pub same_name : List ℕ → List ℕ → Bool
same_name [] [] = true
same_name (a ∷ as') (b ∷ bs) = a == b && same_name as' bs
same_name _ _ = false

-- The first lockspace that passes a test.
unfoldable pub first_ls : (Lockspace → Bool) → List Lockspace → Option Lockspace
first_ls test [] = none
first_ls test (ls ∷ rest) = if test ls then some ls else first_ls test rest

-- Changes that lockspace.
unfoldable pub change_ls :
    (Lockspace → Bool) → (Lockspace → Lockspace) → List Lockspace → List Lockspace
change_ls test f [] = []
change_ls test f (ls ∷ rest) = if test ls then f ls ∷ rest else ls ∷ change_ls test f rest

unfoldable pub find_ls : List ℕ → List Lockspace → Option Lockspace
unfolding first_ls same_name
find_ls name = first_ls (λ ls. same_name ls.name name)

unfoldable pub find_ls_id : ℕ → List Lockspace → Option Lockspace
unfolding first_ls
find_ls_id id = first_ls (λ ls. ls.global_id == id)

unfoldable pub set_associated_id : Env → ℕ → List Lockspace → List Lockspace
unfolding find_ls change_ls same_name
set_associated_id env mg_id lss = elim (env.mountgroup_name mg_id) [
  | none ↦ lss
  | some name ↦ elim (find_ls name lss) [
    | none ↦ lss
    | some found ↦
        change_ls (λ ls. same_name ls.name name) (λ ls. record ls { associated_mg_id = mg_id }) lss
  ]
]

-- `mg_to_ls_id`: one search, and one more after `set_associated_id`.
unfoldable pub mg_to_ls_id : Env → ℕ → List Lockspace → ℕ × List Lockspace
unfolding first_ls set_associated_id
mg_to_ls_id env fsid lss = elim (first_ls (λ ls. ls.associated_mg_id == fsid) lss) [
  | some ls ↦ (ls.global_id, lss)
  | none ↦
      let lss' = set_associated_id env fsid lss in
      elim (first_ls (λ ls. ls.associated_mg_id == fsid) lss') [
        | some ls ↦ (ls.global_id, lss')
        | none ↦ (fsid, lss')
      ]
]

-- `message_flow_control_on`, now and after `update_flow_control_status` (group/dlm_controld/cpg.c).
pub record Flow : Type 0 where
  pub on : Bool
  pub updated : Bool

-- `limit_plocks`: 0 when a request may be read.
unfoldable pub limit_plocks : Env → Flow → Stats → ℕ × Stats
limit_plocks env flow s =
    if flow.on && flow.updated
    then (1, s)
    else if env.plock_rate_limit == 0 || s.read_count == 0
    then (0, s)
    else if s.read_count % env.plock_rate_limit == 0
    then (if ltb (time_diff_ms s.rate_last env.now) 1000
        then (2, record s { rate_delays = succ_u32 s.rate_delays })
        else (0, record s { rate_last = env.now; read_count = succ_u32 s.read_count }))
    else (0, s)

-- `plock_read_count++`, with the report of each thousandth.
unfoldable pub count_read : Env → Stats → Stats
count_read env s =
    let n = succ_u32 s.read_count in
    if n % 1000 == 0
    then record s { read_count = n; read_time = env.now; rate_delays = 0 }
    else record s { read_count = n }

-- `process_plocks` once the resource is found: the three kinds of owner.
unfoldable pub dispatch_local : Env → Lockspace → Info → Resource → World → Option Resource × World
dispatch_local env ls i r w =
    if r.owner == 0
    then (some r, send_plock env i w)
    else if r.owner == env.our_nodeid
    then apply_plock env ls i env.our_nodeid r w
    else keep_some (save_pending_plock env r i (send_own env r env.our_nodeid w))

-- The end of `process_plocks`.
unfoldable pub drop_if_due : Env → Lockspace × World → Lockspace × World
unfolding drop_resources
drop_if_due env out =
    if env.plock_ownership
      && leb env.drop_resources_time (time_diff_ms (out.0).drop_resources_last env.now)
    then drop_resources env (record (out.0) { drop_resources_last = env.now }) out.1
    else out

-- The label `fail` of `process_plocks`.
abbrev pub write_failure : Info → Rv → World → World
write_failure i rv w = record w { effects = w.effects ++ write i rv ∷ [] }

-- `process_plocks` in the lockspace of the request, from `find_resource` on.
unfoldable pub plock_in_ls : Env → Lockspace → Info → World → Lockspace × World
unfolding dispatch_local drop_if_due
plock_in_ls env ls i w =
    let found = find_resource env true i.number ls.plock_resources w.mem in
    let ls' = record ls { plock_resources = found.resources } in
    let w' = record w { mem = found.mem } in
    elim found.resource [
      | none ↦ (ls', write_failure i found.rv w')
      | some r ↦ drop_if_due env (put ls' i.number (dispatch_local env ls' i r w'))
    ]

-- What `process_plocks` leaves; `ignored` when it stops polling the device.
pub record Polled : Type 0 where
  pub lockspaces : List Lockspace
  pub world : World
  pub ignored : Bool

-- `process_plocks` once a request is read; it belongs to this node.
unfoldable pub plock_read : Env → List Lockspace → Info → World → Polled
unfolding mg_to_ls_id find_ls_id change_ls plock_in_ls
plock_read env lss read w =
    let i = record read { nodeid = env.our_nodeid } in
    if not env.enable_plock
    then record { lockspaces = lss; world = write_failure i enosys w; ignored = false }
    else (let (fsid, lss') =
          if env.need_fsid_translation then mg_to_ls_id env i.fsid lss else (i.fsid, lss) in
        let i' = record i { fsid = fsid } in
        elim (find_ls_id fsid lss') [
          | none ↦ record { lockspaces = lss'; world = write_failure i' eexist w; ignored = false }
          | some ls ↦
              let out = plock_in_ls env ls i' (record w { stats = count_read env w.stats }) in
              record {
                lockspaces = change_ls (λ l. l.global_id == fsid) (λ _. out.0) lss';
                world = out.1;
                ignored = false;
              }
        ])

-- `process_plocks`; the last argument is what `do_read` finds, if it succeeds.
unfoldable pub process_plocks : Env → Flow → List Lockspace → World → Option Info → Polled
unfolding limit_plocks plock_read
process_plocks env flow lss w read =
    let (limited, stats) = limit_plocks env flow w.stats in
    let w' = record w { stats = stats } in
    if not (limited == 0)
    then record { lockspaces = lss; world = w'; ignored = true }
    else elim read [
      | none ↦ record { lockspaces = lss; world = w'; ignored = false }
      | some i ↦ plock_read env lss i w'
    ]
