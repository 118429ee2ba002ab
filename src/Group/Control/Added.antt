-- ===== src/Group/Control/Added.antt =====
-- group/dlm_controld/cpg.c: a change that `add_change` has added waits for its conditions.
use dlm.Base.{
  Option-cases, not, ℕ, ◌≡◌, refl, ap, ◌∙◌, Bool, true, false, List, [], ◌∷◌, ◌==◌, if◌then◌else◌,
  Bool-cases, inl, inr, is_empty,
}
use dlm.Plock.Types.{Rv, ok, enomem, malloc}
use dlm.Group.Types.{
  find_member, Member, CgState, wait_conditions, Change, Left, GroupEnv, GroupWorld, Space, crash,
  emit,
}
use dlm.Group.Adding.{
  put_change, next_seq, init_joined, joined_stage, removed_stage, first_adding, then_do, Adding,
  alloc, remove_member, init_history, add_members, add_removed, add_joined, init_all, build_change,
  add_change,
}
use dlm.Group.Control.{waits_for_messages, conditions_met}

add_members-state : (ids : List ℕ) (a : Adding) → (add_members ids a).1.cg.state ≡ a.cg.state
unfolding add_members
add_members-state [] a = refl
add_members-state (n ∷ rest) a = elim (Bool-cases (alloc a).0) [
  | inr e ↦ rw (e, add_members) refl
  | inl e ↦ rw (e, add_members) (add_members-state rest _)
]

remove_member-state :
    (env : GroupEnv) (ls : Space) (l : Left) (a : Adding)
    → (remove_member env ls l a).cg.state ≡ a.cg.state
unfolding remove_member
remove_member-state env ls l a = refl

add_removed-state :
    (env : GroupEnv) (ls : Space) (left : List Left) (a : Adding)
    → (add_removed env ls left a).1.cg.state ≡ a.cg.state
unfolding add_removed
add_removed-state env ls [] a = refl
add_removed-state env ls (l ∷ rest) a = elim (Bool-cases (alloc a).0) [
  | inr e ↦ rw (e, add_removed) refl
  | inl e ↦
      rw (e, add_removed)
        (add_removed-state env ls rest _ ∙ remove_member-state env ls l (alloc a).1)
]

init_history-state : (nodeid : ℕ) (a : Adding) → (init_history nodeid a).cg.state ≡ a.cg.state
unfolding init_history
init_history-state nodeid a = refl

-- The step of the third loop for a node that is a member.
joined_next :
    (our n : ℕ) (cg : Change) (a : Adding)
    → cg.state ≡ a.cg.state
    → (if n == our
        then record a { cg = record cg { we_joined = true } }
        else init_history n (record a { cg = cg })).cg.state
      ≡ a.cg.state
joined_next our n cg a h = elim (Bool-cases (n == our)) [
  | inl e ↦ rw e h
  | inr e ↦ rw e (init_history-state n (record a { cg = cg }) ∙ h)
]

add_joined-state :
    (our : ℕ) (ids : List ℕ) (a : Adding) → (add_joined our ids a).1.cg.state ≡ a.cg.state
unfolding add_joined
add_joined-state our [] a = refl
add_joined-state our (n ∷ rest) a = elim (Option-cases (find_member a.cg.members n)) [
  | inl e ↦ rw (e, add_joined) refl
  | inr (m, e) ↦ rw (e, add_joined) (add_joined-state our rest _ ∙ joined_next our n _ a refl)
]

init_all-state : (ms : List Member) (a : Adding) → (init_all ms a).cg.state ≡ a.cg.state
unfolding init_all
init_all-state [] a = refl
init_all-state (m ∷ rest) a = init_all-state rest _ ∙ init_history-state m.nodeid a

then_do-state :
    (s : CgState) (out : Rv × Adding) (f : Adding → Rv × Adding)
    → out.1.cg.state ≡ s
    → ((a : Adding) → (f a).1.cg.state ≡ a.cg.state)
    → (then_do out f).1.cg.state ≡ s
then_do-state s (ok, a) f h k = k a ∙ h
then_do-state s (rv, a) f h k = h

init_joined-state : (b : Bool) (a : Adding) → (init_joined b a).cg.state ≡ a.cg.state
unfolding init_joined
init_joined-state true a = init_all-state a.cg.members a
init_joined-state false a = refl

build_change-state :
    (env : GroupEnv) (ls : Space) (members : List ℕ) (left : List Left) (joined : List ℕ)
    (a : Adding)
    → (build_change env ls members left joined a).1.cg.state ≡ a.cg.state
unfolding build_change
build_change-state env ls members left joined a =
    then_do-state a.cg.state (add_members members a) (removed_stage env ls left joined)
      (add_members-state members a)
      (λ a1.
        then_do-state a1.cg.state (add_removed env ls left a1) (joined_stage env joined)
          (add_removed-state env ls left a1)
          (λ a2.
            then_do-state a2.cg.state (add_joined env.plock.our_nodeid joined a2)
              (λ a'. (ok, init_joined a'.cg.we_joined a'))
              (add_joined-state env.plock.our_nodeid joined a2)
              (λ a'. init_joined-state a'.cg.we_joined a')))

-- What an added change leaves: it is the first, and it waits for its conditions.
pub record IsAdded (ls ls' : Space) : Type 0 where
  pub kernel : ls'.kernel_stopped ≡ ls.kernel_stopped
  pub pending : is_empty ls'.changes ≡ false
  pub waits : conditions_met ls'.changes ≡ false

put_change-IsAdded :
    (ls : Space) (out : Rv × Adding)
    → out.1.cg.state ≡ wait_conditions
    → (put_change ls out).0 ≡ ok
    → IsAdded ls (put_change ls out).1
put_change-IsAdded ls (ok, a) s h = record {
  kernel = refl;
  pending = refl;
  waits = ap waits_for_messages s;
}
put_change-IsAdded ls (rv, a) s h = absurd cc

pub add_change-IsAdded :
    (env : GroupEnv) (ls : Space) (members : List ℕ) (left : List Left) (joined : List ℕ)
    (w : GroupWorld)
    → (add_change env ls members left joined w).0 ≡ ok
    → IsAdded ls (add_change env ls members left joined w).1
unfolding add_change
add_change-IsAdded env ls members left joined w =
    let w' = record w { plock = record (w.plock) { mem = (malloc w.plock.mem).1 } } in
    let ls' = record ls { change_seq = next_seq ls.change_seq } in
    let a = first_adding ls members left joined w' in
    let added =
      put_change-IsAdded ls' (build_change env ls members left joined a)
        (build_change-state env ls members left joined a) in
    elim (malloc w.plock.mem).0
      as (λ given.
        let out =
          if not given
          then (enomem, ls, emit ls crash w')
          else put_change ls' (build_change env ls members left joined a) in
        out.0 ≡ ok → IsAdded ls out.1) [
          | true ↦ λ h.
              let b = added h in record { kernel = b.kernel; pending = b.pending; waits = b.waits }
          | false ↦ λ h. absurd cc
        ]
