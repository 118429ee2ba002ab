-- ===== src/Group/Stages.antt =====
-- group/dlm_controld/cpg.c: the loops of `add_change` when no allocation fails.
use dlm.Base.{
  Option-cases, ℕ, ◌≡◌, refl, sym, ap, ◌∙◌, Bool, true, false, some, List, [], ◌∷◌, ◌++◌, ◌==◌,
  if◌then◌else◌, All, arith, Bool-cases, inl, inr,
}
use dlm.Plock.Types.{malloc_ok, Rv, ok}
use dlm.Group.History.{get_node_history, node_history_init}
use dlm.Group.Types.{
  Member, new_member, Node, Change, Left, GroupEnv, GroupWorld, Space, find_member, change_member,
}
use dlm.Group.Start.{get_id_struct}
use dlm.Group.Changes.{nodeids}
use dlm.Group.Adding.{
  then_do, Adding, alloc, add_members, remove_member, add_removed, init_history, add_joined,
  init_all, init_joined, joined_stage, removed_stage, build_change, first_adding,
}
use dlm.Group.Matching.{In}

-- No allocation fails.
abbrev pub NeverFails : GroupWorld → Type 0
NeverFails w = w.plock.mem ≡ []

-- What the loops keep.
pub record Kept (ids : List ℕ) (a b : Adding) : Type 0 where
  pub mem : NeverFails b.world
  pub members : nodeids b.cg.members ≡ ids
  pub seq : b.cg.seq ≡ a.cg.seq
  pub counts :
      (b.cg.member_count ≡ a.cg.member_count)
      × (b.cg.joined_count ≡ a.cg.joined_count)
      × (b.cg.remove_count ≡ a.cg.remove_count)

Kept-refl :
    (ids : List ℕ) (a : Adding) → NeverFails a.world → nodeids a.cg.members ≡ ids → Kept ids a a
Kept-refl ids a h m = record { mem = h; members = m; seq = refl; counts = (refl, refl, refl) }

Kept-trans : (ids ids' : List ℕ) (a b c : Adding) → Kept ids a b → Kept ids' b c → Kept ids' a c
Kept-trans ids ids' a b c h k = record {
  mem = k.mem;
  members = k.members;
  seq = k.seq ∙ h.seq;
  counts = (k.counts.0 ∙ h.counts.0, k.counts.1 ∙ h.counts.1, k.counts.2 ∙ h.counts.2);
}

-- A stage that succeeds.
abbrev pub Succeeds : List ℕ → Adding → Rv × Adding → Type 0
Succeeds ids a out = (out.0 ≡ ok) × Kept ids a out.1

alloc_lem :
    (ids : List ℕ) (a : Adding)
    → NeverFails a.world
    → nodeids a.cg.members ≡ ids
    → ((alloc a).0 ≡ true) × Kept ids a (alloc a).1
alloc_lem ids a h m =
    let p = malloc_ok a.world.plock.mem h in
    (p.0, record { mem = p.1; members = m; seq = refl; counts = (refl, refl, refl) })

nodeids-append : (ms ms' : List Member) → nodeids (ms ++ ms') ≡ nodeids ms ++ nodeids ms'
nodeids-append [] ms' = refl
nodeids-append (m ∷ rest) ms' = ap (◌∷◌ m.nodeid) (nodeids-append rest ms')

append_assoc : (xs : List ℕ) (y : ℕ) (zs : List ℕ) → (xs ++ y ∷ []) ++ zs ≡ xs ++ y ∷ zs
append_assoc [] y zs = refl
append_assoc (x ∷ xs) y zs = ap (◌∷◌ x) (append_assoc xs y zs)

append_nil : (xs : List ℕ) → xs ++ [] ≡ xs
append_nil [] = refl
append_nil (x ∷ xs) = ap (◌∷◌ x) (append_nil xs)

add_members-Succeeds :
    (ids : List ℕ) (a : Adding)
    → NeverFails a.world
    → Succeeds (nodeids a.cg.members ++ ids) a (add_members ids a)
unfolding add_members
add_members-Succeeds [] a h = (refl, Kept-refl _ a h (sym (append_nil (nodeids a.cg.members))))
add_members-Succeeds (n ∷ rest) a h =
    let given = alloc_lem (nodeids a.cg.members) a h refl in
    let cg = record (a.cg) { members = a.cg.members ++ new_member n ∷ [] } in
    let ih = add_members-Succeeds rest (record ((alloc a).1) { cg = cg }) given.1.mem in
    let ids = nodeids-append a.cg.members (new_member n ∷ []) in
    rw (given.0, add_members)
      (
        ih.0,
        record {
          mem = ih.1.mem;
          members =
              ih.1.members ∙ ap (λ xs. xs ++ rest) ids ∙ append_assoc (nodeids a.cg.members) n rest;
          seq = ih.1.seq;
          counts = ih.1.counts;
        },
      )

remove_member-mem :
    (env : GroupEnv) (ls : Space) (l : Left) (a : Adding)
    → (remove_member env ls l a).world.plock ≡ a.world.plock
unfolding remove_member
remove_member-mem env ls l a = ground arith

add_removed-Succeeds :
    (env : GroupEnv) (ls : Space) (left : List Left) (ids : List ℕ) (a : Adding)
    → NeverFails a.world
    → nodeids a.cg.members ≡ ids
    → Succeeds ids a (add_removed env ls left a)
unfolding add_removed remove_member
add_removed-Succeeds env ls [] ids a h m = (refl, Kept-refl ids a h m)
add_removed-Succeeds env ls (l ∷ rest) ids a h m =
    let given = alloc_lem ids a h m in
    let a' = remove_member env ls l (alloc a).1 in
    let ih =
      add_removed-Succeeds env ls rest ids a'
        (ap (λ p. p.mem) (remove_member-mem env ls l (alloc a).1) ∙ given.1.mem) m in
    rw (given.0, add_removed)
      (
        ih.0,
        record { mem = ih.1.mem; members = ih.1.members; seq = ih.1.seq; counts = ih.1.counts },
      )

node_history_init-mem :
    (n seq : ℕ) (nodes : List Node) (mem : List Bool)
    → mem ≡ []
    → (node_history_init n seq nodes mem).1 ≡ []
unfolding node_history_init
node_history_init-mem n seq nodes mem h =
    let p = malloc_ok mem h in
    elim (Option-cases (get_node_history nodes n)) [
      | inl e ↦ rw (e, p.0, node_history_init) p.1
      | inr (node, e) ↦ rw (e, node_history_init) h
    ]

init_history-Kept :
    (n : ℕ) (ids : List ℕ) (a : Adding)
    → NeverFails a.world
    → nodeids a.cg.members ≡ ids
    → Kept ids a (init_history n a)
unfolding init_history
init_history-Kept n ids a h m = record {
  mem = node_history_init-mem n a.cg.seq a.nodes a.world.plock.mem h;
  members = m;
  seq = refl;
  counts = (refl, refl, refl);
}

init_all-Kept :
    (ms : List Member) (ids : List ℕ) (a : Adding)
    → NeverFails a.world
    → nodeids a.cg.members ≡ ids
    → Kept ids a (init_all ms a)
unfolding init_all
init_all-Kept [] ids a h m = Kept-refl ids a h m
init_all-Kept (n ∷ rest) ids a h m =
    let first = init_history-Kept n.nodeid ids a h m in
    Kept-trans ids ids a (init_history n.nodeid a) _ first
      (init_all-Kept rest ids (init_history n.nodeid a) first.mem first.members)

change_member-nodeids :
    (f : Member → Member) (n : ℕ) (ms : List Member)
    → ((m : Member) → (f m).nodeid ≡ m.nodeid)
    → nodeids (change_member f n ms) ≡ nodeids ms
unfolding change_member
change_member-nodeids f n [] k = refl
change_member-nodeids f n (m ∷ rest) k = elim (Bool-cases (m.nodeid == n)) [
  | inl e ↦ rw (e, change_member) (ap (λ x. x ∷ nodeids rest) (k m))
  | inr e ↦ rw (e, change_member) (ap (◌∷◌ m.nodeid) (change_member-nodeids f n rest k))
]

find_member-In :
    (ms : List Member) (n : ℕ) → In (nodeids ms) n → (m : Member) × (find_member ms n ≡ some m)
unfolding find_member get_id_struct
find_member-In [] n h = absurd cc
find_member-In (m ∷ rest) n h = elim (Bool-cases (m.nodeid == n)) [
  | inl e ↦ (m, rw (e, find_member) refl)
  | inr e ↦
      let found = find_member-In rest n (rw (e, get_id_struct) at h) in
      (found.0, rw (e, find_member) found.1)
]

-- A member that joined, and what follows it in the third loop.
joined_next-Kept :
    (our n : ℕ) (ids : List ℕ) (a : Adding) (cg : Change)
    → NeverFails a.world
    → Kept ids a (record a { cg = cg })
    → Kept ids a (
        if n == our
        then record a { cg = record cg { we_joined = true } }
        else init_history n (record a { cg = cg }))
joined_next-Kept our n ids a cg h k = elim (Bool-cases (n == our)) [
  | inl e ↦ rw e (record { mem = k.mem; members = k.members; seq = k.seq; counts = k.counts })
  | inr e ↦ rw e (
      Kept-trans ids ids a (record a { cg = cg }) _ k
        (init_history-Kept n ids (record a { cg = cg }) h k.members))
]

add_joined-Succeeds :
    (our : ℕ) (joined ids : List ℕ) (a : Adding)
    → NeverFails a.world
    → nodeids a.cg.members ≡ ids
    → All (In ids) joined
    → Succeeds ids a (add_joined our joined a)
unfolding add_joined
add_joined-Succeeds our [] ids a h m k = (refl, Kept-refl ids a h m)
add_joined-Succeeds our (n ∷ rest) ids a h m k =
    let found = find_member-In a.cg.members n (ap (λ xs. get_id_struct xs n) m ∙ k.0) in
    let cg = record (a.cg) {
      members = change_member (λ m'. record m' { added = true }) n a.cg.members;
    } in
    let marked =
      change_member-nodeids (λ m'. record m' { added = true }) n a.cg.members (λ m'. refl) in
    let kept : Kept ids a (record a { cg = cg }) = record {
      mem = h;
      members = marked ∙ m;
      seq = refl;
      counts = (refl, refl, refl);
    } in
    let next =
      if n == our
      then record a { cg = record cg { we_joined = true } }
      else init_history n (record a { cg = cg }) in
    let done = joined_next-Kept our n ids a cg h kept in
    let ih = add_joined-Succeeds our rest ids next done.mem done.members k.1 in
    rw (found.1, add_joined) (ih.0, Kept-trans ids ids a next _ done ih.1)

init_joined-Kept :
    (b : Bool) (ids : List ℕ) (a : Adding)
    → NeverFails a.world
    → nodeids a.cg.members ≡ ids
    → Kept ids a (init_joined b a)
unfolding init_joined
init_joined-Kept false ids a h m = Kept-refl ids a h m
init_joined-Kept true ids a h m = init_all-Kept a.cg.members ids a h m

then_do-Succeeds :
    (ids : List ℕ) (a : Adding) (out : Rv × Adding) (f : Adding → Rv × Adding)
    → Succeeds ids a out
    → Succeeds ids out.1 (f out.1)
    → Succeeds ids a (then_do out f)
then_do-Succeeds ids a (ok, a') f h k = (k.0, Kept-trans ids ids a a' _ h.1 k.1)
then_do-Succeeds ids a (rv, a') f h k = absurd (let e = h.0 in cc)

joined_stage-Succeeds :
    (env : GroupEnv) (joined ids : List ℕ) (a : Adding)
    → NeverFails a.world
    → nodeids a.cg.members ≡ ids
    → All (In ids) joined
    → Succeeds ids a (joined_stage env joined a)
joined_stage-Succeeds env joined ids a h m k =
    let out = add_joined env.plock.our_nodeid joined a in
    let done = add_joined-Succeeds env.plock.our_nodeid joined ids a h m k in
    then_do-Succeeds ids a out (λ a'. (ok, init_joined a'.cg.we_joined a')) done
      (refl, init_joined-Kept out.1.cg.we_joined ids out.1 done.1.mem done.1.members)

removed_stage-Succeeds :
    (env : GroupEnv) (ls : Space) (left : List Left) (joined ids : List ℕ) (a : Adding)
    → NeverFails a.world
    → nodeids a.cg.members ≡ ids
    → All (In ids) joined
    → Succeeds ids a (removed_stage env ls left joined a)
removed_stage-Succeeds env ls left joined ids a h m k =
    let out = add_removed env ls left a in
    let done = add_removed-Succeeds env ls left ids a h m in
    then_do-Succeeds ids a out (joined_stage env joined) done
      (joined_stage-Succeeds env joined ids out.1 done.1.mem done.1.members k)

pub build_change-Succeeds :
    (env : GroupEnv) (ls : Space) (members : List ℕ) (left : List Left) (joined : List ℕ)
    (w : GroupWorld)
    → NeverFails w
    → All (In members) joined
    → let a = first_adding ls members left joined w in
      Succeeds members a (build_change env ls members left joined a)
unfolding build_change
build_change-Succeeds env ls members left joined w h k =
    let a = first_adding ls members left joined w in
    let out = add_members members a in
    let done = add_members-Succeeds members a h in
    then_do-Succeeds members a out (removed_stage env ls left joined) done
      (removed_stage-Succeeds env ls left joined members out.1 done.1.mem done.1.members k)
