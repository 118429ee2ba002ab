-- ===== src/Deadlock/Standing.antt =====
-- group/dlm_controld/deadlock.c: what a pointer in the graph stands for, when it is added.
use dlm.Base.{
  ℕ, zero, suc, ◌+◌, ◌≡◌, ◌≢◌, refl, sym, ap, ◌∙◌, Bool, true, false, not, Option, none, some, List,
  [], ◌∷◌, ◌++◌, ◌==◌, if◌then◌else◌, length, All, All-append, arith, Bool-cases, Option-cases, inl,
  inr,
}
use mathlib.Core.Path.{subst}
use dlm.Plock.Types.{malloc}
use dlm.Deadlock.{Trans}
use dlm.Deadlock.Locks.{modes_compat, Lkb, Rsb, is_waiting, is_granted}
use dlm.Deadlock.Graph.{
  find_trans, change_trans, locks_compat, Building, set_slot, empty_slots, point_to, pointed_to,
  link, attach, is_known, add_waitfor, locks_of,
}
use dlm.Deadlock.Filling.{find-All, find-xid, change-All}

pub data IsIn (lkb : Lkb) : List Lkb → Type 0 where
  at_head : (rest : List Lkb) → IsIn lkb (lkb ∷ rest)
  in_tail : (other : Lkb) (rest : List Lkb) → IsIn lkb rest → IsIn lkb (other ∷ rest)

-- The lock is on a transaction.
pub data IsOn (lkb : Lkb) : List Trans → Type 0 where
  on_first : (tr : Trans) (rest : List Trans) → IsIn lkb tr.locks → IsOn lkb (tr ∷ rest)
  on_later : (tr : Trans) (rest : List Trans) → IsOn lkb rest → IsOn lkb (tr ∷ rest)

-- A lock of the first transaction waits for one of the second.
pub record Blocks (rs : List Rsb) (ts : List Trans) (a x : ℕ) : Type 0 where
  pub waiting_lkb : Lkb
  pub granted_lkb : Lkb
  pub on_trans : IsOn waiting_lkb ts
  pub on_rsb : IsIn granted_lkb (locks_of rs waiting_lkb.rsb)
  pub not_granted : is_granted waiting_lkb.lock.status ≡ false
  pub not_waiting : is_waiting granted_lkb.lock.status ≡ false
  pub conflict : modes_compat granted_lkb.lock.grmode waiting_lkb.lock.rqmode ≡ false
  pub from : waiting_lkb.lock.xid ≡ a
  pub to : granted_lkb.lock.xid ≡ x
  pub distinct : a ≢ x

pub change-every :
    (P : Trans → Type 0) (f : Trans → Trans) (xid : ℕ) (ts : List Trans)
    → ((t : Trans) → P t → P (f t))
    → All P ts
    → All P (change_trans f xid ts)
unfolding change_trans
change-every P f xid [] k h = tt
change-every P f xid (t ∷ rest) k h = elim (Bool-cases (t.xid == xid)) [
  | inl e ↦ rw (e, change_trans) (k t h.0, h.1)
  | inr e ↦ rw (e, change_trans) (h.0, change-every P f xid rest k h.1)
]

is_known-other : (tr : Trans) (a x : ℕ) → tr.xid ≡ a → is_known tr x ≡ false → a ≢ x
unfolding is_known
is_known-other tr a x e k same = ground (arith, e ∙ same)

compat-conflict :
    (w g : Lkb)
    → w.lock.xid ≢ g.lock.xid
    → locks_compat w g ≡ false
    → modes_compat g.lock.grmode w.lock.rqmode ≡ false
unfolding locks_compat
compat-conflict w g k h = ground arith

module _ (rs : List Rsb) (ts0 : List Trans) where
  abbrev pub Stands : ℕ → Option ℕ → Type 0
  Stands a none = Unit
  Stands a (some x) = Blocks rs ts0 a x

  -- Each slot stands for two locks.
  abbrev pub IsSound : Trans → Type 0
  IsSound tr = All (Stands tr.xid) tr.waitfor

  set_slot-Stands :
      (a x n : ℕ) (slots : List (Option ℕ))
      → Blocks rs ts0 a x
      → All (Stands a) slots
      → All (Stands a) (set_slot x n slots)
  unfolding set_slot
  set_slot-Stands a x n [] b h = tt
  set_slot-Stands a x zero (s ∷ rest) b h = (b, h.1)
  set_slot-Stands a x (suc n) (s ∷ rest) b h = (h.0, set_slot-Stands a x n rest b h.1)

  -- The result of a step, unless it is an access to a NULL array. The lock stays as it is.
  abbrev pub Sound : Lkb → Option (Building × Lkb) → Type 0
  Sound lkb none = Unit
  Sound lkb (some out) =
      All IsSound out.0.transactions × (out.1.lock ≡ lkb.lock) × (out.1.rsb ≡ lkb.rsb)

  if_Sound :
      (c : Bool) (lkb : Lkb) (x y : Option (Building × Lkb))
      → Sound lkb x
      → Sound lkb y
      → Sound lkb (if c then x else y)
  if_Sound true lkb x y p q = p
  if_Sound false lkb x y p q = q

  link-Sound :
      (tr tr' : Trans) (xid x : ℕ) (b : Building) (lkb : Lkb)
      → find_trans b.transactions xid ≡ some tr
      → tr'.xid ≡ xid
      → All (Stands xid) tr'.waitfor
      → Blocks rs ts0 xid x
      → All IsSound b.transactions
      → Sound lkb (some (link tr' x b lkb))
  unfolding link
  link-Sound tr tr' xid x b lkb found own slots bl h =
      let f : Trans → Trans = λ t. point_to x tr' in
      let slots' = set_slot-Stands xid x tr'.waitfor_count tr'.waitfor bl slots in
      let put =
        change-All f tr'.xid IsSound b.transactions tr (ap (find_trans b.transactions) own ∙ found)
          (subst (λ a. All (Stands a) (set_slot x tr'.waitfor_count tr'.waitfor)) (sym own) slots')
          h in
      (
        change-every IsSound pointed_to x (change_trans f tr'.xid b.transactions) (λ t k. k) put,
        refl,
        refl,
      )

  attach-Sound :
      (tr : Trans) (xid x : ℕ) (b : Building) (lkb : Lkb)
      → find_trans b.transactions xid ≡ some tr
      → Blocks rs ts0 xid x
      → All IsSound b.transactions
      → Sound lkb (attach tr x b lkb)
  unfolding attach
  attach-Sound tr xid x b lkb found bl h =
      let own = find-xid xid b.transactions tr found in
      let slots : All (Stands xid) tr.waitfor =
        subst (λ a. All (Stands a) tr.waitfor) own
          (find-All IsSound xid b.transactions tr found h) in
      let tr' = record tr {
        waitfor_alloc = tr.waitfor_alloc + 4;
        waitfor = tr.waitfor ++ empty_slots;
      } in
      let b' = record b { mem = (malloc b.mem).1 } in
      let plain = link-Sound tr tr xid x b lkb found own slots bl h in
      let grown =
        link-Sound tr tr' xid x b' lkb found own
          (All-append (Stands xid) tr.waitfor empty_slots slots (tt, (tt, (tt, (tt, tt))))) bl h in
      let nulled : All IsSound (
          change_trans (λ t. record tr { waitfor_alloc = tr.waitfor_alloc + 4 }) tr.xid
            b.transactions) =
        change-All (λ t. record tr { waitfor_alloc = tr.waitfor_alloc + 4 }) tr.xid IsSound
          b.transactions tr (ap (find_trans b.transactions) own ∙ found)
          (find-All IsSound xid b.transactions tr found h) h in
      let failed =
        if tr.waitfor_count == 0
        then some (
          record {
            transactions =
                change_trans (λ t. record tr { waitfor_alloc = tr.waitfor_alloc + 4 }) tr.xid
                  b.transactions;
            mem = (malloc b.mem).1;
          },
          lkb,
        )
        else none in
      let fresh = if (malloc b.mem).0 then some (link tr' x b' lkb) else failed in
      let room = if length tr.waitfor == tr.waitfor_alloc then some (link tr x b lkb) else none in
      if_Sound (not (tr.waitfor_count == tr.waitfor_alloc)) lkb room fresh
        (if_Sound (length tr.waitfor == tr.waitfor_alloc) lkb (some (link tr x b lkb)) none plain
          tt)
        (if_Sound (malloc b.mem).0 lkb (some (link tr' x b' lkb)) failed grown
          (if_Sound (tr.waitfor_count == 0) lkb _ none (nulled, refl, refl) tt))

  pub add_waitfor-Sound :
      (b : Building) (w0 w g : Lkb)
      → w.lock ≡ w0.lock
      → w.rsb ≡ w0.rsb
      → IsOn w0 ts0
      → is_granted w0.lock.status ≡ false
      → IsIn g (locks_of rs w0.rsb)
      → is_waiting g.lock.status ≡ false
      → All IsSound b.transactions
      → Sound w (add_waitfor b w g)
  unfolding add_waitfor locks_compat
  add_waitfor-Sound b w0 w g same at on ng there nw h =
      elim (Option-cases (find_trans b.transactions w.lock.xid)) [
        | inl e ↦ rw (e, add_waitfor) (h, refl, refl)
        | inr (tr, e) ↦ elim (Bool-cases (locks_compat w g)) [
          | inl c ↦ rw (e, c, add_waitfor) (h, refl, refl)
          | inr c ↦ elim (Bool-cases (is_known tr g.lock.xid)) [
            | inl k ↦ rw (e, c, k, add_waitfor) (h, refl, refl)
            | inr k ↦
                let known =
                  is_known-other tr w.lock.xid g.lock.xid (find-xid w.lock.xid b.transactions tr e)
                    k in
                rw (e, c, k, add_waitfor)
                  (attach-Sound tr w.lock.xid g.lock.xid b w e
                    (record {
                      waiting_lkb = w0;
                      granted_lkb = g;
                      on_trans = on;
                      on_rsb = there;
                      not_granted = ng;
                      not_waiting = nw;
                      conflict =
                          ap (λ l. modes_compat g.lock.grmode l.rqmode) (sym same)
                          ∙ compat-conflict w g known c;
                      from = ap (λ l. l.xid) (sym same);
                      to = refl;
                      distinct = known;
                    })
                    h)
          ]
        ]
      ]
