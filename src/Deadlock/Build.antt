-- ===== src/Deadlock/Build.antt =====
-- group/dlm_controld/deadlock.c: the counts of the graph that is built agree with its slots.
use dlm.Base.{
  ℕ, ◌+◌, ◌<◌, ◌≡◌, ◌≢◌, refl, sym, ◌∙◌, Bool, true, false, Option, some, List, [], ◌∷◌, ◌++◌, ◌==◌,
  if◌then◌else◌, length-append, All, arith, Bool-cases, Option-cases, ==→eq, eq→==, inl, inr,
}
use mathlib.Core.Path.{subst}
use dlm.Plock.Types.{malloc_ok, malloc}
use dlm.Deadlock.{Trans}
use dlm.Deadlock.Locks.{Lkb, Rsb, is_waiting, is_granted, find_rsb, is_rsb}
use dlm.Deadlock.Pointers.{pointers, pointers_in, named, awaited, IsCounted}
use dlm.Deadlock.Exact.{IsConsistent}
use dlm.Deadlock.Graph.{
  find_trans, change_trans, locks_compat, Building, empty_slots, link, attach, is_known,
  add_waitfor, wait_on_locks, locks_in, locks_of, wait_for_locks, graph_pass,
}
use dlm.Deadlock.Filling.{
  IsPrefix, IsFilled, IsPrefix-in_use, IsPrefix-grow, pointers-grow, pointers-none,
  pointers-in_waitfor, IsPrefix-length, find-All, pointers_in-length, change-length,
}
use dlm.Deadlock.Linking.{IsBuilt, SameNames, HasRoom, link-IsBuilt}

-- The state of the loops that build the graph: the transactions have the names of those at the
-- start, and no allocation fails.
pub record IsGood (ts : List Trans) (b : Building) : Type 0 where
  pub built : IsBuilt b.transactions
  pub names : SameNames ts b.transactions
  pub mem : b.mem ≡ []

link-mem :
    (tr : Trans) (x : ℕ) (b : Building) (waiting_lkb : Lkb)
    → (link tr x b waiting_lkb).0.mem ≡ b.mem
unfolding link
link-mem tr x b waiting_lkb = refl

pub grow-HasRoom :
    (tr : Trans)
    → IsFilled tr
    → HasRoom tr
        (record tr { waitfor_alloc = tr.waitfor_alloc + 4; waitfor = tr.waitfor ++ empty_slots })
grow-HasRoom tr h =
    let more = length-append tr.waitfor empty_slots in
    record {
      filled = record {
        slots = IsPrefix-grow tr.waitfor_count tr.waitfor h.slots;
        alloc = omega (arith, more, h.alloc);
        once = λ y. omega (arith, h.once y, pointers-grow y tr.waitfor);
      };
      room = omega (arith, more, IsPrefix-length tr.waitfor_count tr.waitfor h.slots);
      xid = refl;
      others = refl;
      pointers_of = λ y. pointers-grow y tr.waitfor;
    }

pub same-HasRoom : (tr : Trans) → IsFilled tr → tr.waitfor_count ≢ tr.waitfor_alloc → HasRoom tr tr
same-HasRoom tr h k = record {
  filled = h;
  room =
      let le = IsPrefix-length tr.waitfor_count tr.waitfor h.slots in
      let e = h.alloc in omega arith;
  xid = refl;
  others = refl;
  pointers_of = λ y. refl;
}

is_known-free :
    (tr : Trans) (x : ℕ) → IsFilled tr → is_known tr x ≡ false → pointers x tr.waitfor ≡ 0
unfolding is_known
is_known-free tr x h k = elim (Bool-cases (tr.waitfor_count == 0)) [
  | inl e ↦ pointers-none x tr.waitfor (subst (λ n. IsPrefix n tr.waitfor) (==→eq _ _ e) h.slots)
  | inr e ↦ pointers-in_waitfor x tr.waitfor (ground arith)
]

-- The result of a step that does not fail.
abbrev pub Goes : List Trans → Option (Building × Lkb) → Type 0
Goes ts o = (out : Building × Lkb) × (o ≡ some out) × IsGood ts out.0

module _ (ts : List Trans) where
  attach-Goes :
      (b : Building) (tr : Trans) (xid x : ℕ) (waiting_lkb : Lkb)
      → IsGood ts b
      → find_trans b.transactions xid ≡ some tr
      → is_known tr x ≡ false
      → named x ts ≡ 1
      → Goes ts (attach tr x b waiting_lkb)
  unfolding attach
  attach-Goes b tr xid x waiting_lkb h found new there =
      let filled = find-All IsFilled xid b.transactions tr found h.built.filled in
      let free = is_known-free tr x filled new in
      let given = malloc_ok b.mem h.mem in
      let there' = h.names x ∙ there in
      elim (Bool-cases (tr.waitfor_count == tr.waitfor_alloc)) [
        | inr e ↦
            let done =
              link-IsBuilt b tr tr xid x waiting_lkb h.built found
                (same-HasRoom tr filled (λ k. ground arith)) free there' in
            (
              link tr x b waiting_lkb,
              rw (e, eq→== _ _ (sym filled.alloc)) refl,
              record {
                built = done.0;
                names = λ y. done.1 y ∙ h.names y;
                mem = link-mem tr x b waiting_lkb ∙ h.mem;
              },
            )
        | inl e ↦
            let tr' = record tr {
              waitfor_alloc = tr.waitfor_alloc + 4;
              waitfor = tr.waitfor ++ empty_slots;
            } in
            let b' = record b { mem = (malloc b.mem).1 } in
            let done =
              link-IsBuilt b' tr tr' xid x waiting_lkb h.built found (grow-HasRoom tr filled) free
                there' in
            (
              link tr' x b' waiting_lkb,
              rw (e, given.0) refl,
              record {
                built = done.0;
                names = λ y. done.1 y ∙ h.names y;
                mem = link-mem tr' x b' waiting_lkb ∙ given.1;
              },
            )
      ]

  pub add_waitfor-Goes :
      (b : Building) (waiting_lkb granted_lkb : Lkb)
      → IsGood ts b
      → named granted_lkb.lock.xid ts ≡ 1
      → Goes ts (add_waitfor b waiting_lkb granted_lkb)
  unfolding add_waitfor
  add_waitfor-Goes b waiting_lkb granted_lkb h there =
      elim (Option-cases (find_trans b.transactions waiting_lkb.lock.xid)) [
        | inl e ↦ ((b, waiting_lkb), rw (e, add_waitfor) refl, h)
        | inr (tr, e) ↦ elim (Bool-cases (locks_compat waiting_lkb granted_lkb)) [
          | inl c ↦ ((b, waiting_lkb), rw (e, c, add_waitfor) refl, h)
          | inr c ↦ elim (Bool-cases (is_known tr granted_lkb.lock.xid)) [
            | inl k ↦ ((b, waiting_lkb), rw (e, c, k, add_waitfor) refl, h)
            | inr k ↦
                rw (e, c, k, add_waitfor)
                  (attach-Goes b tr waiting_lkb.lock.xid granted_lkb.lock.xid waiting_lkb h e k
                    there)
          ]
        ]
      ]

  abbrev pub IsNamed : Lkb → Type 0
  IsNamed lkb = named lkb.lock.xid ts ≡ 1

  pub wait_on_locks-Goes :
      (gs : List Lkb) (b : Building) (waiting_lkb : Lkb)
      → IsGood ts b
      → All IsNamed gs
      → Goes ts (wait_on_locks gs b waiting_lkb)
  unfolding wait_on_locks
  wait_on_locks-Goes [] b waiting_lkb h all = ((b, waiting_lkb), refl, h)
  wait_on_locks-Goes (g ∷ rest) b waiting_lkb h all = elim (Bool-cases (is_waiting g.lock.status)) [
    | inl e ↦ rw (e, wait_on_locks) (wait_on_locks-Goes rest b waiting_lkb h all.1)
    | inr e ↦
        let step = add_waitfor-Goes b waiting_lkb g h all.0 in
        rw (e, step.1, wait_on_locks) (wait_on_locks-Goes rest step.0.0 step.0.1 step.2 all.1)
  ]

  locks_in-All :
      (c : Bool) (r : Rsb) (o : Option Rsb)
      → All IsNamed r.locks
      → All IsNamed (locks_in o)
      → All IsNamed (locks_in (if c then some r else o))
  locks_in-All true r o h k = h
  locks_in-All false r o h k = k

  pub locks_of-All :
      (rs : List Rsb) (name : List ℕ)
      → All (λ r. All IsNamed r.locks) rs
      → All IsNamed (locks_of rs name)
  unfolding find_rsb
  locks_of-All [] name all = tt
  locks_of-All (r ∷ rest) name all =
      locks_in-All (is_rsb name r) r (find_rsb rest name) all.0 (locks_of-All rest name all.1)

  pub wait_for_locks-Goes :
      (rs : List Rsb) (lkbs : List Lkb) (b : Building)
      → IsGood ts b
      → All (λ r. All IsNamed r.locks) rs
      → (out : Building × List Lkb) × (wait_for_locks rs lkbs b ≡ some out) × IsGood ts out.0
  unfolding wait_for_locks
  wait_for_locks-Goes rs [] b h all = ((b, []), refl, h)
  wait_for_locks-Goes rs (lkb ∷ rest) b h all = elim (Bool-cases (is_granted lkb.lock.status)) [
    | inl e ↦
        let later = wait_for_locks-Goes rs rest b h all in
        ((later.0.0, lkb ∷ later.0.1), rw (e, later.1, wait_for_locks) refl, later.2)
    | inr e ↦
        let step = wait_on_locks-Goes (locks_of rs lkb.rsb) b lkb h (locks_of-All rs lkb.rsb all) in
        let later = wait_for_locks-Goes rs rest step.0.0 step.2 all in
        ((later.0.0, step.0.1 ∷ later.0.1), rw (e, step.1, later.1, wait_for_locks) refl, later.2)
  ]

-- A write to the locks of a transaction.
pub change_locks-same :
    (g : List Lkb → List Lkb) (xid y : ℕ) (ts : List Trans)
    → let ts' = change_trans (λ t. record t { locks = g t.locks }) xid ts in
      (named y ts' ≡ named y ts)
      × (awaited y ts' ≡ awaited y ts)
      × (pointers_in y ts' ≡ pointers_in y ts)
unfolding change_trans
change_locks-same g xid y [] = (refl, refl, refl)
change_locks-same g xid y (t ∷ rest) = ground (arith, change_locks-same g xid y rest)

pub change_locks-IsFilled :
    (g : List Lkb → List Lkb) (xid : ℕ) (ts : List Trans)
    → All IsFilled ts
    → All IsFilled (change_trans (λ t. record t { locks = g t.locks }) xid ts)
unfolding change_trans
change_locks-IsFilled g xid [] h = tt
change_locks-IsFilled g xid (t ∷ rest) h = elim (Bool-cases (t.xid == xid)) [
  | inl e ↦
      rw (e, change_trans) (record { slots = h.0.slots; alloc = h.0.alloc; once = h.0.once }, h.1)
  | inr e ↦ rw (e, change_trans) (h.0, change_locks-IsFilled g xid rest h.1)
]

change_locks-IsBuilt :
    (g : List Lkb → List Lkb) (xid : ℕ) (ts : List Trans)
    → IsBuilt ts
    → IsBuilt (change_trans (λ t. record t { locks = g t.locks }) xid ts)
change_locks-IsBuilt g xid ts h = record {
  filled = change_locks-IsFilled g xid ts h.filled;
  unique = λ y. let same = change_locks-same g xid y ts in omega (arith, same.0, h.unique y);
  agree = λ y. let same = change_locks-same g xid y ts in same.1 ∙ h.agree y ∙ sym same.2;
  size = omega (arith, change-length (λ t. record t { locks = g t.locks }) xid ts, h.size);
}

pub change_locks-IsGood :
    (ts : List Trans) (lkbs : List Lkb) (xid : ℕ) (b : Building)
    → IsGood ts b
    → IsGood ts (record b {
      transactions = change_trans (λ t. record t { locks = lkbs }) xid b.transactions;
    })
change_locks-IsGood ts lkbs xid b h = record {
  built = change_locks-IsBuilt (λ l. lkbs) xid b.transactions h.built;
  names = λ y. (change_locks-same (λ l. lkbs) xid y b.transactions).0 ∙ h.names y;
  mem = h.mem;
}

pub graph_pass-IsGood :
    (ts : List Trans) (rs : List Rsb) (trs : List Trans) (b : Building)
    → IsGood ts b
    → All (λ r. All (IsNamed ts) r.locks) rs
    → (out : Building) × (graph_pass rs trs b ≡ some out) × IsGood ts out
unfolding graph_pass
graph_pass-IsGood ts rs [] b h all = (b, refl, h)
graph_pass-IsGood ts rs (tr ∷ rest) b h all =
    let step = wait_for_locks-Goes ts rs tr.locks b h all in
    let out = step.0 in
    let b' = record (out.0) {
      transactions = change_trans (λ t. record t { locks = out.1 }) tr.xid out.0.transactions;
    } in
    let later =
      graph_pass-IsGood ts rs rest b' (change_locks-IsGood ts out.1 tr.xid out.0 step.2) all in
    (later.0, rw (step.1, graph_pass) later.1, later.2)

filled-IsCounted :
    (ts : List Trans) → All IsFilled ts → ((y : ℕ) → awaited y ts < 4294967296) → All IsCounted ts
filled-IsCounted [] h k = tt
filled-IsCounted (t ∷ rest) h k = (
  (IsPrefix-in_use t.waitfor_count t.waitfor h.0.slots, (let bound = k t.xid in ground arith)),
  filled-IsCounted rest h.1 (λ y. (let bound = k y in ground arith)),
)

pub IsBuilt-IsConsistent : (ts : List Trans) → IsBuilt ts → IsConsistent ts
IsBuilt-IsConsistent ts h = record {
  counted =
      filled-IsCounted ts h.filled
        (λ y. omega (arith, h.agree y, pointers_in-length y ts h.filled, h.size));
  unique = h.unique;
  agree = h.agree;
}
