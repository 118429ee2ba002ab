-- ===== src/Plock/Replica/Nodes.antt =====
-- Without ownership, every node that handles the same messages of group/dlm_controld/plock.c has
-- the same locks and queues, whatever its own number, its clock and its other settings are.
use dlm.Base.{
  ℕ, ◌≡◌, refl, sym, ap, ◌∙◌, true, false, not, Option, none, some, List, [], ◌==◌, if◌then◌else◌,
  arith, Bool-cases, inl, inr, All, eq→==, ==→eq,
}
use mathlib.Core.Path.{subst}
use dlm.Plock.Types.{
  OpType, lock, unlock, get, other, Info, Resource, Mem, Env, World, Lockspace, touch_plock_time,
}
use dlm.Plock.Locks.{unlock_internal}
use dlm.Plock.Grant.{
  is_einprogress, reply, apply_plock, op_switch, do_lock, do_unlock, settle, do_waiters, try_lock,
}
use dlm.Plock.Grant.Safety.{UnlessFreed, put_resource-UnlessFreed}
use dlm.Plock.Resource.{search_resource, store, find_resource, new_resource, Found}
use dlm.Plock.Resource.Store.{
  Unique, Keeps, LeavesAll, IsFound, find_resource-IsFound, search-store, search-All, store-Unique,
  store-All,
}
use dlm.Plock.Messages.{put, dispatch_owner, plock_found}
use dlm.Plock.Replica.{View, operate}
use dlm.Plock.Replica.Grants.{view_of, view_opt, apply_plock-refines}

-- The locks and the queue of a resource, by its number.
abbrev pub view_at : List Resource → ℕ → View
view_at rs n = view_opt (search_resource rs n)

-- The table of a node where every resource is replicated.
pub record IsReplicated (env : Env) (ls : Lockspace) (w : World) : Type 0 where
  pub no_ownership : env.plock_ownership ≡ false
  pub unique : Unique ls.plock_resources
  pub unowned : All (λ r. r.owner ≡ 0) ls.plock_resources
  pub no_failure : w.mem ≡ []
  pub live : ls.save_plocks ≡ false

-- An operation leaves the number and the owner of the resource.
abbrev Same : Resource → Resource → Type 0
Same r r' = (r'.number ≡ r.number) × (r'.owner ≡ r.owner)

try_lock-Same : (env : Env) (r : Resource) (i : Info) (mem : Mem) → Same r (try_lock env r i mem).0
unfolding try_lock
try_lock-Same env r i mem = ground arith

settle-Same :
    (env : Env) (ls : Lockspace) (r q : Resource) (w : World)
    → Same r q
    → UnlessFreed (Same r) (settle env ls q w).0
unfolding do_waiters
settle-Same env ls r q w h = put_resource-UnlessFreed (Same r) env (do_waiters env ls q w).0 h

do_lock-Same :
    (env : Env) (ls : Lockspace) (i : Info) (r : Resource) (w : World)
    → UnlessFreed (Same r) (do_lock env ls i r w).0
unfolding do_lock
do_lock-Same env ls i r w =
    let t = try_lock env r i w.mem in
    let w' = record w { mem = t.2 } in
    settle-Same env ls r t.0 (if is_einprogress t.1 then w' else reply env ls i t.1 w')
      (try_lock-Same env r i w.mem)

do_unlock-Same :
    (env : Env) (ls : Lockspace) (i : Info) (r : Resource) (w : World)
    → UnlessFreed (Same r) (do_unlock env ls i r w).0
unfolding do_unlock
do_unlock-Same env ls i r w =
    let out = unlock_internal w.mem r.locks i in
    settle-Same env ls r (record r { locks = out.locks })
      (reply env ls i out.rv (record w { mem = out.mem })) (refl, refl)

op_switch-Same :
    (op : OpType) (env : Env) (ls : Lockspace) (i : Info) (from : ℕ) (r : Resource) (w : World)
    → UnlessFreed (Same r) (op_switch op env ls i from r w).0
unfolding op_switch
op_switch-Same lock env ls i from r w = do_lock-Same env ls i r (touch_plock_time env ls w)
op_switch-Same unlock env ls i from r w = do_unlock-Same env ls i r (touch_plock_time env ls w)
op_switch-Same get env ls i from r w = (refl, refl)
op_switch-Same (other n) env ls i from r w = (refl, refl)

apply_plock-Same :
    (env : Env) (ls : Lockspace) (i : Info) (from : ℕ) (r : Resource) (w : World)
    → UnlessFreed (Same r) (apply_plock env ls i from r w).0
unfolding apply_plock
apply_plock-Same env ls i from r w = op_switch-Same i.optype env ls i from r w

Keeps-Same :
    (n : ℕ) (r : Resource) (found : Option Resource)
    → r.number ≡ n
    → UnlessFreed (Same r) found
    → Keeps n found
Keeps-Same n r none k h = tt
Keeps-Same n r (some r') k h = h.0 ∙ k

unowned-Same :
    (r : Resource) (found : Option Resource)
    → r.owner ≡ 0
    → UnlessFreed (Same r) found
    → LeavesAll (λ q. q.owner ≡ 0) found
unowned-Same r none k h = tt
unowned-Same r (some r') k h = h.1 ∙ k

dispatch_owner-unowned :
    (env : Env) (ls : Lockspace) (i : Info) (from : ℕ) (r : Resource) (w : World)
    → r.owner ≡ 0
    → dispatch_owner env ls i from r w ≡ apply_plock env ls i from r w
unfolding dispatch_owner
dispatch_owner-unowned env ls i from r w h = rw (eq→== r.owner 0 h)

-- The view of the resource that `find_resource` gives.
found-view :
    (P : Resource → Type 0) (env : Env) (rs : List Resource) (n : ℕ) (found : Found)
    (f : IsFound P env rs n found)
    → view_of f.resource ≡ view_at rs n
unfolding new_resource
found-view P env rs n found f = elim (f.origin) [
  | inl (old, e, same) ↦ ap view_of same ∙ sym (ap view_opt e)
  | inr (e, same) ↦ ap view_of same ∙ sym (ap view_opt e)
]

-- One operation on the table.
abbrev pub Operates : Info → List Resource → List Resource → Type 0
Operates i before after =
    (n : ℕ)
    → view_at after n
      ≡ (if i.number == n then operate i.optype i (view_at before n) else view_at before n)

module _ (env : Env) (ls : Lockspace) (i : Info) (from : ℕ) (w : World)
    (h : IsReplicated env ls w) where
  abbrev Unowned : Resource → Type 0
  Unowned r = r.owner ≡ 0

  new-unowned : Unowned (new_resource env i.number)
  unfolding new_resource
  new-unowned = ground (arith, h.no_ownership)

  abbrev here : Found
  here = find_resource env (not env.plock_ownership) i.number ls.plock_resources w.mem

  here-IsFound : IsFound Unowned env ls.plock_resources i.number here
  here-IsFound =
      subst (IsFound Unowned env ls.plock_resources i.number)
        (sym (
          ap (λ b. find_resource env (not b) i.number ls.plock_resources w.mem) h.no_ownership
          ∙ ap (λ m. find_resource env true i.number ls.plock_resources m) h.no_failure))
        (find_resource-IsFound Unowned env ls.plock_resources i.number h.unique h.unowned (λ r k. k)
          new-unowned)

  abbrev ls_found : Lockspace
  ls_found = record ls { plock_resources = here.resources }

  abbrev applied : Resource → Option Resource × World
  applied r = apply_plock env ls_found i from r (record w { mem = here.mem })

  here-unowned : here-IsFound.resource.owner ≡ 0
  here-unowned =
      search-All Unowned here.resources i.number here-IsFound.resource here-IsFound.all
        here-IsFound.held

  -- After the first branch of the handler, all is said by what the operation leaves.
  plock_found-unowned :
      plock_found env ls i from w ≡ put ls_found i.number (applied here-IsFound.resource)
  unfolding plock_found
  plock_found-unowned =
      rw (here-IsFound.is_some, plock_found)
        (ap (put ls_found i.number) (
          dispatch_owner-unowned env ls_found i from here-IsFound.resource
            (record w { mem = here.mem }) here-unowned))

  stored-IsReplicated :
      let out = put ls_found i.number (applied here-IsFound.resource) in
      IsReplicated env out.0 out.1 × Operates i ls.plock_resources (out.0).plock_resources
  stored-IsReplicated = (
    record {
      no_ownership = h.no_ownership;
      unique = store-Unique here.resources i.number left here-IsFound.unique keeps;
      unowned =
          store-All Unowned here.resources i.number left here-IsFound.all
            (unowned-Same here-IsFound.resource left here-unowned same);
      no_failure = refined.1;
      live = h.live;
    },
    λ n. elim (Bool-cases (i.number == n)) [
      | inl e ↦
          at_store n
          ∙ rw e (
              refined.0
              ∙ ap (operate i.optype i) (
                  found-view Unowned env ls.plock_resources i.number here here-IsFound
                  ∙ ap (view_at ls.plock_resources) (==→eq i.number n e)))
      | inr e ↦ at_store n ∙ rw e (ap view_opt (here-IsFound.others n (λ same_n. ground arith)))
    ],
  )
    where
      left : Option Resource
      left = (applied here-IsFound.resource).0

      same : UnlessFreed (Same here-IsFound.resource) left
      same =
          apply_plock-Same env ls_found i from here-IsFound.resource (record w { mem = here.mem })

      keeps : Keeps i.number left
      keeps = Keeps-Same i.number here-IsFound.resource left here-IsFound.number same

      refined :
          (view_opt left ≡ operate i.optype i (view_of here-IsFound.resource))
          × ((applied here-IsFound.resource).1.mem ≡ [])
      refined =
          apply_plock-refines env ls_found i from here-IsFound.resource
            (record w { mem = here.mem }) here-IsFound.mem

      at_store :
          (n : ℕ)
          → view_at (store i.number left here.resources) n
            ≡ view_opt (if i.number == n then left else search_resource here.resources n)
      at_store n = ap view_opt (
          search-store here.resources i.number left here-IsFound.resource n here-IsFound.unique
            keeps here-IsFound.held)

pub plock_found-IsReplicated :
    (env : Env) (ls : Lockspace) (i : Info) (from : ℕ) (w : World)
    → IsReplicated env ls w
    → let out = plock_found env ls i from w in
      IsReplicated env out.0 out.1 × Operates i ls.plock_resources (out.0).plock_resources
plock_found-IsReplicated env ls i from w h =
    rw (plock_found-unowned env ls i from w h) (stored-IsReplicated env ls i from w h)
