-- ===== src/Group/Added.antt =====
-- group/dlm_controld/cpg.c: the result of `add_change`, and what a failed one leaves.
use dlm.Base.{
  ℕ, ◌≡◌, ◌≢◌, refl, sym, ap, ◌∙◌, true, false, not, List, ◌∷◌, if◌then◌else◌, length, All,
}
use dlm.Plock.Types.{malloc_ok, Rv, ok, enomem, malloc}
use dlm.Group.Types.{Change, Left, crash, GroupEnv, GroupWorld, Space, emit}
use dlm.Group.Changes.{nodeids}
use dlm.Group.Adding.{Adding, build_change, put_change, first_adding, next_seq, add_change}
use dlm.Group.Callbacks.{finish_change, change_members}
use dlm.Group.Matching.{In, length-nodeids}
use dlm.Group.Stages.{NeverFails, build_change-Succeeds}

-- A change that cannot be added.
change_failed :
    (env : GroupEnv) (left : List Left) (ls : Space) (rv : Rv) (ls' : Space) (w : GroupWorld)
    → rv ≢ ok
    → finish_change env left (rv, ls', w) ≡ (rv, ls', w)
unfolding finish_change
change_failed env left ls ok ls' w h = absurd (h refl)
change_failed env left ls rv ls' w h = refl

-- But for the number of the change and the history, the lockspace is as before.
abbrev pub IsUnchanged : Space → Space → Type 0
IsUnchanged ls ls' =
    ls' ≡ record ls { change_seq = ls'.change_seq; node_history = ls'.node_history }

put_change-IsUnchanged :
    (ls : Space) (seq : ℕ) (out : Rv × Adding)
    → (put_change (record ls { change_seq = seq }) out).0 ≢ ok
    → IsUnchanged ls (put_change (record ls { change_seq = seq }) out).1
put_change-IsUnchanged ls seq (ok, a) h = absurd (h refl)
put_change-IsUnchanged ls seq (rv, a) h = refl

add_change-IsUnchanged :
    (env : GroupEnv) (members : List ℕ) (left : List Left) (joined : List ℕ) (ls : Space)
    (w : GroupWorld)
    → (malloc w.plock.mem).0 ≡ true
    → (add_change env ls members left joined w).0 ≢ ok
    → IsUnchanged ls (add_change env ls members left joined w).1
unfolding add_change
add_change-IsUnchanged env members left joined ls w given =
    let w' = record w { plock = record (w.plock) { mem = (malloc w.plock.mem).1 } } in
    let ls' = record ls { change_seq = next_seq ls.change_seq } in
    let built = build_change env ls members left joined (first_adding ls members left joined w') in
    rw given (λ h. put_change-IsUnchanged ls (next_seq ls.change_seq) built h)

-- A configuration change for which the struct change itself can be allocated, but that cannot be
-- added, for lack of memory or because a node joins that is no member, leaves the lockspace as
-- it is but for the number of the last change and the history of the nodes: the kernel goes on,
-- and nothing is purged.
pub change_members-IsUnchanged :
    (env : GroupEnv) (members : List ℕ) (left : List Left) (joined : List ℕ) (ls : Space)
    (w : GroupWorld)
    → (malloc w.plock.mem).0 ≡ true
    → (add_change env ls members left joined w).0 ≢ ok
    → IsUnchanged ls (change_members env members left joined ls w).1
unfolding change_members
change_members-IsUnchanged env members left joined ls w given h =
    let out = add_change env ls members left joined w in
    rw (change_failed env left ls out.0 out.1 out.2 h)
      (add_change-IsUnchanged env members left joined ls w given h)

-- The change that the configuration describes.
pub record IsChangeOf (members : List ℕ) (left : List Left) (joined : List ℕ) (seq : ℕ)
    (cg : Change) : Type 0 where
  pub members_of : nodeids cg.members ≡ members
  pub member_count : cg.member_count ≡ length cg.members
  pub joined_count : cg.joined_count ≡ length joined
  pub remove_count : cg.remove_count ≡ length left
  pub seq_of : cg.seq ≡ seq

put_change-ok :
    (ls : Space) (out : Rv × Adding)
    → out.0 ≡ ok
    → ((put_change ls out).0 ≡ ok)
      × ((put_change ls out).1
          ≡ record ls { node_history = out.1.nodes; changes = out.1.cg ∷ ls.changes })
put_change-ok ls (ok, a) h = (refl, refl)
put_change-ok ls (rv, a) h = absurd cc

-- Where no allocation fails and the nodes that join are members, a configuration change is added
-- in front of the others, with its members in order, the lengths of its lists as counts, and the
-- new number of the lockspace.
pub add_change-IsChangeOf :
    (env : GroupEnv) (members : List ℕ) (left : List Left) (joined : List ℕ) (ls : Space)
    (w : GroupWorld)
    → NeverFails w
    → All (In members) joined
    → let out = add_change env ls members left joined w in
      (out.0 ≡ ok)
      × ((cg : Change) × (out.1.changes ≡ cg ∷ ls.changes)
          × IsChangeOf members left joined out.1.change_seq cg)
unfolding add_change
add_change-IsChangeOf env members left joined ls w h k =
    let given = malloc_ok w.plock.mem h in
    let w' = record w { plock = record (w.plock) { mem = (malloc w.plock.mem).1 } } in
    let ls' = record ls { change_seq = next_seq ls.change_seq } in
    let built = build_change env ls members left joined (first_adding ls members left joined w') in
    let done = build_change-Succeeds env ls members left joined w' given.1 k in
    let put = put_change-ok ls' built done.0 in
    elim (malloc w.plock.mem).0
        as (λ b.
          b ≡ true
          → let out = if not b then (enomem, ls, emit ls crash w') else put_change ls' built in
            (out.0 ≡ ok)
            × ((cg : Change) × (out.1.changes ≡ cg ∷ ls.changes)
                × IsChangeOf members left joined out.1.change_seq cg)) [
                  | false ↦ λ e. absurd cc
                  | true ↦ λ e. (
                    put.0,
                    (
                      built.1.cg,
                      ap (λ s. s.changes) put.1,
                      record {
                        members_of = done.1.members;
                        member_count =
                            done.1.counts.0
                            ∙ ap length (sym done.1.members)
                            ∙ length-nodeids built.1.cg.members;
                        joined_count = done.1.counts.1;
                        remove_count = done.1.counts.2;
                        seq_of = done.1.seq ∙ sym (ap (λ s. s.change_seq) put.1);
                      },
                    ),
                  )
                ]
      given.0
