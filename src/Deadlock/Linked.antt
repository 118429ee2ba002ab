-- ===== src/Deadlock/Linked.antt =====
-- group/dlm_controld/deadlock.c: the pointers that the graph gets when it is built.
use dlm.Base.{
  ℕ, ◌+◌, ◌≤◌, ◌≡◌, ◌≢◌, refl, sym, ap, ◌∙◌, true, false, Option, some, List, [], ◌∷◌, ◌++◌, ◌==◌,
  if◌then◌else◌, arith, Bool-cases, eq→==, inl, inr, some-inj,
}
use mathlib.Core.Path.{subst}
use dlm.Plock.Types.{malloc_ok, malloc}
use dlm.Deadlock.{Trans, in_waitfor}
use dlm.Deadlock.Locks.{modes_compat, Lkb, is_waiting}
use dlm.Deadlock.Pointers.{pointers, named}
use dlm.Deadlock.Graph.{
  find_trans, change_trans, locks_compat, Building, empty_slots, point_to, pointed_to, link, attach,
  is_known, add_waitfor,
}
use dlm.Deadlock.Filling.{set_slot-pointers, find-All, find-xid, find-named, some-same, IsFilled}
use dlm.Deadlock.Linking.{HasRoom}
use dlm.Deadlock.Build.{IsGood, grow-HasRoom, same-HasRoom}

-- The slots of transaction `a` that point to `x`.
abbrev pub edges : ℕ → ℕ → List Trans → ℕ
edges a x [] = 0
edges a x (t ∷ rest) = if t.xid == a then pointers x t.waitfor + edges a x rest else edges a x rest

abbrev pub MoreEdges : List Trans → List Trans → Type 0
MoreEdges ts ts' = (a x : ℕ) → edges a x ts ≤ edges a x ts'

change-edges :
    (f : Trans → Trans) (xid a x : ℕ) (ts : List Trans) (tr : Trans)
    → find_trans ts xid ≡ some tr
    → (f tr).xid ≡ tr.xid
    → edges a x (change_trans f xid ts) + (if tr.xid == a then pointers x tr.waitfor else 0)
      ≡ edges a x ts + (if tr.xid == a then pointers x (f tr).waitfor else 0)
unfolding find_trans change_trans
change-edges f xid a x [] tr h k = absurd cc
change-edges f xid a x (t ∷ rest) tr h k = elim (Bool-cases (t.xid == xid)) [
  | inl e ↦
      let same = some-same t tr (rw (e, find_trans) at h) in
      let k' = rw same at k in rw (e, change_trans, same) (ground (arith, k'))
  | inr e ↦
      let ih = change-edges f xid a x rest tr (rw (e, find_trans) at h) k in
      rw (e, change_trans) (ground (arith, ih))
]

-- A write that leaves the name and the slots.
pub same-edges :
    (f : Trans → Trans) (xid a x : ℕ) (ts : List Trans)
    → ((t : Trans) → ((f t).xid ≡ t.xid) × ((f t).waitfor ≡ t.waitfor))
    → edges a x (change_trans f xid ts) ≡ edges a x ts
unfolding change_trans
same-edges f xid a x [] k = refl
same-edges f xid a x (t ∷ rest) k = elim (Bool-cases (t.xid == xid)) [
  | inl e ↦ rw (e, change_trans, (k t).0, (k t).1) refl
  | inr e ↦ rw (e, change_trans) (ground (arith, same-edges f xid a x rest k))
]

find-edges :
    (a x : ℕ) (ts : List Trans) (tr : Trans)
    → find_trans ts a ≡ some tr
    → pointers x tr.waitfor ≤ edges a x ts
unfolding find_trans
find-edges a x [] tr h = absurd cc
find-edges a x (t ∷ rest) tr h = elim (Bool-cases (t.xid == a)) [
  | inl e ↦ let same = some-same t tr (rw (e, find_trans) at h) in rw (e, same) (omega arith)
  | inr e ↦ let ih = find-edges a x rest tr (rw (e, find_trans) at h) in rw e ih
]

in_waitfor-pointers :
    (x : ℕ) (slots : List (Option ℕ)) → in_waitfor slots x ≡ true → 1 ≤ pointers x slots
unfolding in_waitfor
in_waitfor-pointers x [] h = absurd cc
in_waitfor-pointers x (Option.none ∷ rest) h = in_waitfor-pointers x rest h
in_waitfor-pointers x (some y ∷ rest) h = ground (arith, in_waitfor-pointers x rest)

link-edges :
    (b : Building) (tr tr' : Trans) (xid x : ℕ) (w : Lkb) (a y : ℕ)
    → find_trans b.transactions xid ≡ some tr
    → HasRoom tr tr'
    → edges a y (link tr' x b w).0.transactions
      ≡ edges a y b.transactions + (if tr.xid == a then (if x == y then 1 else 0) else 0)
unfolding link
link-edges b tr tr' xid x w a y found room =
    let own = room.xid ∙ find-xid xid b.transactions tr found in
    let f = λ (t : Trans). point_to x tr' in
    let ts1 = change_trans f tr'.xid b.transactions in
    let e =
      change-edges f tr'.xid a y b.transactions tr (ap (find_trans b.transactions) own ∙ found)
        room.xid in
    let more = set_slot-pointers x y tr'.waitfor_count tr'.waitfor room.filled.slots room.room in
    let same = same-edges pointed_to x a y ts1 (λ t. (refl, refl)) in
    same ∙ ground (arith, e, more, room.pointers_of y)

-- A step leaves the pointers that there are, and the lock.
pub record Gains (b : Building) (w : Lkb) (out : Building × Lkb) : Type 0 where
  pub more : MoreEdges b.transactions out.0.transactions
  pub lock : out.1.lock ≡ w.lock
  pub rsb : out.1.rsb ≡ w.rsb

-- Two locks of different transactions, the second of which is not waiting and is held in a mode that
-- conflicts with the one that the first asks for.
abbrev pub Conflicts : Lkb → Lkb → Type 0
Conflicts w g =
    (is_waiting g.lock.status ≡ false)
    × (w.lock.xid ≢ g.lock.xid)
    × (modes_compat g.lock.grmode w.lock.rqmode ≡ false)

-- The transaction of the first lock points to that of the second.
abbrev pub Points : List Trans → Lkb → Lkb → Type 0
Points ts w g = 1 ≤ edges w.lock.xid g.lock.xid ts

conflict-compat : (w g : Lkb) → Conflicts w g → locks_compat w g ≡ false
unfolding locks_compat
conflict-compat w g h = ground (arith, h)

-- Where no allocation fails, a pointer is added.
attach-links :
    (ts : List Trans) (b : Building) (tr : Trans) (xid x : ℕ) (w : Lkb)
    → IsGood ts b
    → find_trans b.transactions xid ≡ some tr
    → (tr' : Trans) × (b' : Building) × (attach tr x b w ≡ some (link tr' x b' w))
      × (b'.transactions ≡ b.transactions)
      × HasRoom tr tr'
unfolding attach
attach-links ts b tr xid x w h found =
    let filled = find-All IsFilled xid b.transactions tr found h.built.filled in
    let given = malloc_ok b.mem h.mem in
    elim (Bool-cases (tr.waitfor_count == tr.waitfor_alloc)) [
      | inr e ↦ (
        tr,
        b,
        rw (e, eq→== _ _ (sym filled.alloc)) refl,
        refl,
        same-HasRoom tr filled (λ k. ground arith),
      )
      | inl e ↦ (
        record tr { waitfor_alloc = tr.waitfor_alloc + 4; waitfor = tr.waitfor ++ empty_slots },
        record b { mem = (malloc b.mem).1 },
        rw (e, given.0) refl,
        refl,
        grow-HasRoom tr filled,
      )
    ]

abbrev pub Waits : Building → Lkb → Lkb → Building × Lkb → Type 0
Waits b w g out = Gains b w out × (Conflicts w g → Points out.0.transactions w g)

pub stays-Gains : (b : Building) (w : Lkb) → Gains b w (b, w)
stays-Gains b w = record { more = λ a x. omega arith; lock = refl; rsb = refl }

link-Waits :
    (b b' : Building) (tr tr' : Trans) (w g : Lkb)
    → find_trans b.transactions w.lock.xid ≡ some tr
    → b'.transactions ≡ b.transactions
    → HasRoom tr tr'
    → Waits b w g (link tr' g.lock.xid b' w)
link-Waits b b' tr tr' w g found same room =
    let more : (a y : ℕ)
        → edges a y (link tr' g.lock.xid b' w).0.transactions
          ≡ edges a y b.transactions
            + (if tr.xid == a then (if g.lock.xid == y then 1 else 0) else 0) =
      λ a y.
        link-edges b' tr tr' w.lock.xid g.lock.xid w a y
          (ap (λ l. find_trans l w.lock.xid) same ∙ found) room
        ∙ ap (λ l. edges a y l + (if tr.xid == a then (if g.lock.xid == y then 1 else 0) else 0))
            same in
    let own = eq→== _ _ (find-xid w.lock.xid b.transactions tr found) in
    (
      unfold link in record { more = λ a y. omega (arith, more a y); lock = refl; rsb = refl },
      λ k.
          let e = more w.lock.xid g.lock.xid in
          ground (arith, e, own, eq→== g.lock.xid g.lock.xid refl),
    )

is_known-slot :
    (tr : Trans) (x : ℕ) → tr.xid ≢ x → is_known tr x ≡ true → in_waitfor tr.waitfor x ≡ true
unfolding is_known
is_known-slot tr x ne h = ground (arith, ne)

pub add_waitfor-Waits :
    (ts : List Trans) (b : Building) (w g : Lkb) (out : Building × Lkb)
    → IsGood ts b
    → named w.lock.xid ts ≡ 1
    → add_waitfor b w g ≡ some out
    → Waits b w g out
unfolding add_waitfor
add_waitfor-Waits ts b w g out h there eq =
    let (tr, e) = find-named w.lock.xid b.transactions (omega (arith, h.names w.lock.xid, there)) in
    let own = find-xid w.lock.xid b.transactions tr e in
    elim (Bool-cases (locks_compat w g)) [
      | inl c ↦
          subst (Waits b w g) (some-inj (rw (e, c, add_waitfor) at eq))
            (stays-Gains b w, λ k. let n = conflict-compat w g k in absurd (cc))
      | inr c ↦ elim (Bool-cases (is_known tr g.lock.xid)) [
        | inl k ↦ subst (Waits b w g) (some-inj (rw (e, c, k, add_waitfor) at eq)) (
          stays-Gains b w,
          λ conflict.
              let old =
                in_waitfor-pointers g.lock.xid tr.waitfor
                  (is_known-slot tr g.lock.xid (λ z. conflict.1 (sym own ∙ z)) k) in
              omega (arith, old, find-edges w.lock.xid g.lock.xid b.transactions tr e),
        )
        | inr k ↦
            let (tr', b', at, trans, room) = attach-links ts b tr w.lock.xid g.lock.xid w h e in
            subst (Waits b w g) (some-inj (sym at ∙ (rw (e, c, k, add_waitfor) at eq)))
              (link-Waits b b' tr tr' w g e trans room)
      ]
    ]
