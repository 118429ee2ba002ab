-- ===== src/Deadlock/Edges.antt =====
-- group/dlm_controld/deadlock.c: every pointer in the graph stands for two locks in conflict.
use dlm.Base.{
  ℕ, ◌≡◌, refl, sym, ◌∙◌, false, Option, none, some, List, [], ◌∷◌, if◌then◌else◌, All, Bool-cases,
  Option-cases, inl, inr,
}
use mathlib.Core.Path.{subst}
use dlm.Plock.Types.{Mem, malloc}
use dlm.Deadlock.{Trans}
use dlm.Deadlock.Locks.{Lkb, Rsb, is_waiting, is_granted}
use dlm.Deadlock.Graph.{
  find_trans, change_trans, get_trans, add_lkb_trans, create_trans, create_trans_list, Building,
  add_waitfor, wait_on_locks, locks_of, wait_for_locks, graph_pass, create_waitfor_graph,
}
use dlm.Deadlock.Standing.{
  IsIn, at_head, in_tail, IsOn, on_first, on_later, change-every, Stands, IsSound, Sound,
  add_waitfor-Sound,
}

module _ (rs : List Rsb) (ts0 : List Trans) where
  Sound-next :
      (w w' : Lkb) (o : Option (Building × Lkb))
      → w'.lock ≡ w.lock
      → w'.rsb ≡ w.rsb
      → Sound rs ts0 w' o
      → Sound rs ts0 w o
  Sound-next w w' none a b h = tt
  Sound-next w w' (some out) a b h = (h.0, h.1 ∙ a, h.2 ∙ b)

  wait_on_locks-Sound :
      (gs : List Lkb) (b : Building) (w0 w : Lkb)
      → w.lock ≡ w0.lock
      → w.rsb ≡ w0.rsb
      → IsOn w0 ts0
      → is_granted w0.lock.status ≡ false
      → ((g : Lkb) → IsIn g gs → IsIn g (locks_of rs w0.rsb))
      → All (IsSound rs ts0) b.transactions
      → Sound rs ts0 w (wait_on_locks gs b w)
  unfolding wait_on_locks
  wait_on_locks-Sound [] b w0 w same at on ng k h = (h, refl, refl)
  wait_on_locks-Sound (g ∷ rest) b w0 w same at on ng k h =
      elim (Bool-cases (is_waiting g.lock.status)) [
        | inl e ↦
            rw (e, wait_on_locks)
              (wait_on_locks-Sound rest b w0 w same at on ng (λ g' i. k g' (in_tail g rest i)) h)
        | inr e ↦
            let step = add_waitfor-Sound rs ts0 b w0 w g same at on ng (k g (at_head rest)) e h in
            elim (Option-cases (add_waitfor b w g)) [
              | inl z ↦ rw (e, z, wait_on_locks) tt
              | inr (out, z) ↦
                  let step' = subst (Sound rs ts0 w) z step in
                  let later =
                    wait_on_locks-Sound rest out.0 w0 out.1 (step'.1 ∙ same) (step'.2 ∙ at) on ng
                      (λ g' i. k g' (in_tail g rest i)) step'.0 in
                  rw (e, z, wait_on_locks)
                    (Sound-next w out.1 (wait_on_locks rest out.0 out.1) step'.1 step'.2 later)
            ]
      ]

  abbrev SoundList : Option (Building × List Lkb) → Type 0
  SoundList none = Unit
  SoundList (some out) = All (IsSound rs ts0) out.0.transactions

  wait_for_locks-Sound :
      (lkbs : List Lkb) (b : Building)
      → ((l : Lkb) → IsIn l lkbs → IsOn l ts0)
      → All (IsSound rs ts0) b.transactions
      → SoundList (wait_for_locks rs lkbs b)
  unfolding wait_for_locks
  wait_for_locks-Sound [] b k h = h
  wait_for_locks-Sound (lkb ∷ rest) b k h =
      let step : Sound rs ts0 lkb (
          if is_granted lkb.lock.status
          then some (b, lkb)
          else wait_on_locks (locks_of rs lkb.rsb) b lkb) =
        elim (Bool-cases (is_granted lkb.lock.status)) [
          | inl e ↦ rw e (h, refl, refl)
          | inr e ↦ rw e (
              wait_on_locks-Sound (locks_of rs lkb.rsb) b lkb lkb refl refl (k lkb (at_head rest)) e
                (λ g i. i) h)
        ] in
      elim (Option-cases (
        if is_granted lkb.lock.status
        then some (b, lkb)
        else wait_on_locks (locks_of rs lkb.rsb) b lkb)) [
          | inl z ↦ rw (z, wait_for_locks) tt
          | inr (out, z) ↦
              let later =
                wait_for_locks-Sound rest out.0 (λ l i. k l (in_tail lkb rest i))
                  (subst (Sound rs ts0 lkb) z step).0 in
              elim (Option-cases (wait_for_locks rs rest out.0)) [
                | inl z' ↦ rw (z, z', wait_for_locks) tt
                | inr (out', z') ↦ rw (z, z', wait_for_locks) (subst SoundList z' later)
              ]
        ]

  abbrev SoundGraph : Option Building → Type 0
  SoundGraph none = Unit
  SoundGraph (some b) = All (IsSound rs ts0) b.transactions

  graph_pass-Sound :
      (trs : List Trans) (b : Building)
      → ((l : Lkb) → IsOn l trs → IsOn l ts0)
      → All (IsSound rs ts0) b.transactions
      → SoundGraph (graph_pass rs trs b)
  unfolding graph_pass
  graph_pass-Sound [] b k h = h
  graph_pass-Sound (tr ∷ rest) b k h =
      let step = wait_for_locks-Sound tr.locks b (λ l i. k l (on_first tr rest i)) h in
      elim (Option-cases (wait_for_locks rs tr.locks b)) [
        | inl z ↦ rw (z, graph_pass) tt
        | inr (out, z) ↦
            let f : Trans → Trans = λ t. record t { locks = out.1 } in
            let b' = record (out.0) { transactions = change_trans f tr.xid out.0.transactions } in
            let put =
              change-every (IsSound rs ts0) f tr.xid out.0.transactions (λ t p. p)
                (subst SoundList z step) in
            rw (z, graph_pass) (graph_pass-Sound rest b' (λ l i. k l (on_later tr rest i)) put)
      ]

-- The transactions wait for nothing yet.
abbrev IsFresh : Trans → Type 0
IsFresh tr = tr.waitfor ≡ []

get_trans-IsFresh :
    (ts : List Trans) (xid : ℕ) (mem : Mem) → All IsFresh ts → All IsFresh (get_trans ts xid mem).1
unfolding get_trans
get_trans-IsFresh ts xid mem h = elim (Option-cases (find_trans ts xid)) [
  | inr (tr, e) ↦ rw (e, get_trans) h
  | inl e ↦ elim (Bool-cases (malloc mem).0) [
    | inl g ↦ rw (e, g, get_trans) (refl, h)
    | inr g ↦ rw (e, g, get_trans) h
  ]
]

create_trans-IsFresh :
    (lkbs : List Lkb) (ts : List Trans) (mem : Mem)
    → All IsFresh ts
    → All IsFresh (create_trans lkbs ts mem).1
unfolding create_trans
create_trans-IsFresh [] ts mem h = h
create_trans-IsFresh (lkb ∷ rest) ts mem h =
    let out = get_trans ts lkb.lock.xid mem in
    let got = get_trans-IsFresh ts lkb.lock.xid mem h in
    elim (Bool-cases out.0) [
      | inr e ↦ rw (e, create_trans) got
      | inl e ↦
          rw (e, create_trans)
            (create_trans-IsFresh rest (change_trans (add_lkb_trans lkb) lkb.lock.xid out.1) out.2
              (change-every IsFresh (add_lkb_trans lkb) lkb.lock.xid out.1 (λ t p. p) got))
    ]

create_trans_list-IsFresh :
    (rs : List Rsb) (ts : List Trans) (mem : Mem)
    → All IsFresh ts
    → All IsFresh (create_trans_list rs ts mem).0
unfolding create_trans_list
create_trans_list-IsFresh [] ts mem h = h
create_trans_list-IsFresh (r ∷ rest) ts mem h =
    let out = create_trans r.locks ts mem in
    let got = create_trans-IsFresh r.locks ts mem h in
    elim (Bool-cases out.0) [
      | inr e ↦ rw (e, create_trans_list) got
      | inl e ↦ rw (e, create_trans_list) (create_trans_list-IsFresh rest out.1 out.2 got)
    ]

fresh-IsSound : (rs : List Rsb) (ts0 ts : List Trans) → All IsFresh ts → All (IsSound rs ts0) ts
fresh-IsSound rs ts0 [] h = tt
fresh-IsSound rs ts0 (tr ∷ rest) h =
    (subst (All (Stands rs ts0 tr.xid)) (sym h.0) tt, fresh-IsSound rs ts0 rest h.1)

-- Whatever the allocator answers, when the graph is built to the end from locks without earlier
-- transactions, every slot in it stands for two locks: one on a transaction, which is not
-- granted and has the xid of the transaction that waits, and one on the resource of the first,
-- which is not waiting, has the xid in the slot, another than the first, and is held in a mode
-- that conflicts with the requested one.
pub create_waitfor_graph-IsSound :
    (rs : List Rsb) (mem : Mem) (b : Building)
    → let (ts, mem') = create_trans_list rs [] mem in
      create_waitfor_graph rs ts mem' ≡ some b → All (IsSound rs ts) b.transactions
unfolding create_waitfor_graph
create_waitfor_graph-IsSound rs mem b e =
    let ts = (create_trans_list rs [] mem).0 in
    let first = fresh-IsSound rs ts ts (create_trans_list-IsFresh rs [] mem tt) in
    subst (SoundGraph rs ts) e (
      graph_pass-Sound rs ts ts
        (record { transactions = ts; mem = (create_trans_list rs [] mem).1 }) (λ l i. i) first)
