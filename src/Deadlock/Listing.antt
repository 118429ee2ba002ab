-- ===== src/Deadlock/Listing.antt =====
-- group/dlm_controld/deadlock.c: the transactions of the locks, and the graph that is built from them.
use dlm.Base.{
  ℕ, ◌≤◌, ◌<◌, ◌≡◌, refl, sym, ◌∙◌, Bool, true, none, some, List, [], ◌∷◌, length, All, arith,
  Option-cases, inl, inr,
}
use mathlib.Core.Path.{subst}
use dlm.Plock.Types.{malloc_ok, Mem}
use dlm.Deadlock.{Trans}
use dlm.Deadlock.Locks.{Lkb, Rsb}
use dlm.Deadlock.Pointers.{pointers_in, named, awaited}
use dlm.Deadlock.Exact.{IsConsistent}
use dlm.Deadlock.Graph.{
  find_trans, change_trans, get_trans, add_lkb_trans, create_trans, create_trans_list, Building,
  create_waitfor_graph,
}
use dlm.Deadlock.Filling.{IsFilled}
use dlm.Deadlock.{reduce_waitfor_graph_loop}
use dlm.Deadlock.Reduce.{IsStuck}
use dlm.Deadlock.Exact.{is_listed, reduce_waitfor_graph_loop-IsStuck}
use dlm.Deadlock.Linking.{SameNames}
use dlm.Deadlock.Listed.{find-some, create_trans_list-back}
use dlm.Deadlock.Complete.{IsLinked, graph_pass-Linked}
use dlm.Deadlock.Build.{
  IsGood, IsNamed, graph_pass-IsGood, change_locks-same, change_locks-IsFilled,
  IsBuilt-IsConsistent,
}

-- `create_trans_list`: transactions that wait for nothing yet, one for each xid of a lock.
record IsListed (ts : List Trans) : Type 0 where
  pub filled : All IsFilled ts
  pub unique : (y : ℕ) → named y ts ≤ 1
  pub idle : (y : ℕ) → (awaited y ts ≡ 0) × (pointers_in y ts ≡ 0)

-- More transactions than before.
abbrev MoreNames : List Trans → List Trans → Type 0
MoreNames ts ts' = (y : ℕ) → named y ts ≤ named y ts'

find-none : (x : ℕ) (ts : List Trans) → find_trans ts x ≡ none → named x ts ≡ 0
unfolding find_trans
find-none x [] h = refl
find-none x (t ∷ rest) h = ground (arith, find-none x rest)

get_trans-IsListed :
    (ts : List Trans) (xid : ℕ) (mem : Mem)
    → mem ≡ []
    → IsListed ts
    → let out = get_trans ts xid mem in
      (out.0 ≡ true) × IsListed out.1 × MoreNames ts out.1 × (1 ≤ named xid out.1) × (out.2 ≡ [])
unfolding get_trans
get_trans-IsListed ts xid mem m h = elim (Option-cases (find_trans ts xid)) [
  | inr (tr, e) ↦ rw (e, get_trans) (refl, h, λ y. omega arith, find-some xid ts tr e, m)
  | inl e ↦
      let given = malloc_ok mem m in
      let absent = find-none xid ts e in
      rw (e, given.0, get_trans)
        (
          refl,
          record {
            filled = (record { slots = refl; alloc = refl; once = λ y. omega arith }, h.filled);
            unique = λ y. (let u = h.unique y in ground arith);
            idle = λ y. (let u = h.idle y in ground arith);
          },
          λ y. ground arith,
          ground arith,
          given.1,
        )
]

-- A write of a lock to a transaction.
add_lkb-IsListed :
    (lkb : Lkb) (xid : ℕ) (ts : List Trans)
    → IsListed ts
    → let ts' = change_trans (add_lkb_trans lkb) xid ts in IsListed ts' × SameNames ts ts'
add_lkb-IsListed lkb xid ts h =
    let g : List Lkb → List Lkb = λ l. lkb ∷ l in
    (
      record {
        filled = change_locks-IsFilled g xid ts h.filled;
        unique = λ y. let same = change_locks-same g xid y ts in omega (arith, same.0, h.unique y);
        idle = λ y.
            let same = change_locks-same g xid y ts in
            (same.1 ∙ (h.idle y).0, same.2 ∙ (h.idle y).1);
      },
      λ y. (change_locks-same g xid y ts).0,
    )

-- The list has a transaction for the lock.
abbrev pub HasTrans : List Trans → Lkb → Type 0
HasTrans ts lkb = 1 ≤ named lkb.lock.xid ts

abbrev Created : List Lkb → List Trans → Bool × List Trans × Mem → Type 0
Created lkbs ts out =
    (out.0 ≡ true) × IsListed out.1 × MoreNames ts out.1 × All (HasTrans out.1) lkbs × (out.2 ≡ [])

create_trans-Created :
    (lkbs : List Lkb) (ts : List Trans) (mem : Mem)
    → mem ≡ []
    → IsListed ts
    → Created lkbs ts (create_trans lkbs ts mem)
unfolding create_trans
create_trans-Created [] ts mem m h = (refl, h, λ y. omega arith, tt, m)
create_trans-Created (lkb ∷ rest) ts mem m h =
    let xid = lkb.lock.xid in
    let out = get_trans ts xid mem in
    let got = get_trans-IsListed ts xid mem m h in
    let put = add_lkb-IsListed lkb xid out.1 got.1 in
    let ts' = change_trans (add_lkb_trans lkb) xid out.1 in
    let ih = create_trans-Created rest ts' out.2 got.4 put.0 in
    let eq : create_trans (lkb ∷ rest) ts mem ≡ create_trans rest ts' out.2 =
      rw (got.0, create_trans) refl in
    subst (Created (lkb ∷ rest) ts) (sym eq) (
      ih.0,
      ih.1,
      λ y. omega (arith, got.2 y, put.1 y, ih.2 y),
      (omega (arith, got.3, put.1 xid, ih.2 xid), ih.3),
      ih.4,
    )

HasTrans-more :
    (ts ts' : List Trans) (lkbs : List Lkb)
    → MoreNames ts ts'
    → All (HasTrans ts) lkbs
    → All (HasTrans ts') lkbs
HasTrans-more ts ts' [] k h = tt
HasTrans-more ts ts' (l ∷ rest) k h =
    (omega (arith, k l.lock.xid, h.0), HasTrans-more ts ts' rest k h.1)

abbrev AllCreated : List Rsb → List Trans → List Trans × Mem → Type 0
AllCreated rs ts out =
    IsListed out.0 × MoreNames ts out.0 × All (λ r. All (HasTrans out.0) r.locks) rs × (out.1 ≡ [])

create_trans_list-AllCreated :
    (rs : List Rsb) (ts : List Trans) (mem : Mem)
    → mem ≡ []
    → IsListed ts
    → AllCreated rs ts (create_trans_list rs ts mem)
unfolding create_trans_list
create_trans_list-AllCreated [] ts mem m h = (h, λ y. omega arith, tt, m)
create_trans_list-AllCreated (r ∷ rest) ts mem m h =
    let out = create_trans r.locks ts mem in
    let got = create_trans-Created r.locks ts mem m h in
    let ih = create_trans_list-AllCreated rest out.1 out.2 got.4 got.1 in
    let eq : create_trans_list (r ∷ rest) ts mem ≡ create_trans_list rest out.1 out.2 =
      rw (got.0, create_trans_list) refl in
    subst (AllCreated (r ∷ rest) ts) (sym eq) (
      ih.0,
      λ y. omega (arith, got.2 y, ih.1 y),
      (HasTrans-more out.1 (create_trans_list rest out.1 out.2).0 r.locks ih.1 got.3, ih.2),
      ih.3,
    )

HasTrans-IsNamed :
    (ts : List Trans) (lkbs : List Lkb)
    → ((y : ℕ) → named y ts ≤ 1)
    → All (HasTrans ts) lkbs
    → All (IsNamed ts) lkbs
HasTrans-IsNamed ts [] u h = tt
HasTrans-IsNamed ts (l ∷ rest) u h =
    (omega (arith, u l.lock.xid, h.0), HasTrans-IsNamed ts rest u h.1)

all-IsNamed :
    (ts : List Trans) (rs : List Rsb)
    → ((y : ℕ) → named y ts ≤ 1)
    → All (λ r. All (HasTrans ts) r.locks) rs
    → All (λ r. All (IsNamed ts) r.locks) rs
all-IsNamed ts [] u h = tt
all-IsNamed ts (r ∷ rest) u h = (HasTrans-IsNamed ts r.locks u h.0, all-IsNamed ts rest u h.1)

all-HasTrans :
    (ts ts' : List Trans) (rs : List Rsb)
    → MoreNames ts ts'
    → All (λ r. All (HasTrans ts) r.locks) rs
    → All (λ r. All (HasTrans ts') r.locks) rs
all-HasTrans ts ts' [] k h = tt
all-HasTrans ts ts' (r ∷ rest) k h =
    (HasTrans-more ts ts' r.locks k h.0, all-HasTrans ts ts' rest k h.1)

-- The graph of the locks, when it is reduced.
pub record IsSolved (rs : List Rsb) (ts : List Trans) (b : Building) : Type 0 where
  pub consistent : IsConsistent b.transactions
  pub names : SameNames ts b.transactions
  pub listed : All (λ r. All (HasTrans b.transactions) r.locks) rs
  pub linked : All (λ r. All (IsLinked rs b.transactions) r.locks) rs
  pub stuck :
      let left = reduce_waitfor_graph_loop b.transactions in All (IsStuck (is_listed left)) left

-- Where no allocation fails and the locks have fewer than 2 ^ 32 transactions, the graph of any
-- locks is built to the end, with the xids that create_trans_list gives and a transaction for
-- the xid of every lock. Each lock that is not granted has a pointer, from its transaction to
-- the other, for every lock on its resource that is not waiting, has another transaction and is
-- held in a mode that conflicts with the requested one. No xid occurs twice, each count is the
-- number of slots in use, and each others_waiting_on_us is the number of slots that point to the
-- transaction; so after the reduction every transaction that is left waits for one that is left.
pub create_waitfor_graph-IsSolved :
    (rs : List Rsb)
    → let (ts, mem) = create_trans_list rs [] [] in
      length ts < 4294967296
      → (b : Building) × (create_waitfor_graph rs ts mem ≡ some b) × IsSolved rs ts b
unfolding create_waitfor_graph
create_waitfor_graph-IsSolved rs small =
    let listed =
      create_trans_list-AllCreated rs [] [] refl
        (record { filled = tt; unique = λ y. omega arith; idle = λ y. (refl, refl) }) in
    let ts = (create_trans_list rs [] []).0 in
    let good : IsGood ts (record { transactions = ts; mem = (create_trans_list rs [] []).1 }) =
      record {
        built = record {
          filled = listed.0.filled;
          unique = listed.0.unique;
          agree = λ y. (listed.0.idle y).0 ∙ sym (listed.0.idle y).1;
          size = small;
        };
        names = λ y. refl;
        mem = listed.3;
      } in
    let named_locks = all-IsNamed ts rs listed.0.unique listed.2 in
    let on_trans = (create_trans_list-back (IsNamed ts) rs [] [] refl).1 named_locks tt in
    let out =
      graph_pass-IsGood ts rs ts
        (record { transactions = ts; mem = (create_trans_list rs [] []).1 }) good named_locks in
    let links =
      graph_pass-Linked ts rs named_locks ts
        (record { transactions = ts; mem = (create_trans_list rs [] []).1 }) out.0 good on_trans
        out.1 in
    let consistent = IsBuilt-IsConsistent out.0.transactions out.2.built in
    (
      out.0,
      out.1,
      record {
        consistent = consistent;
        names = out.2.names;
        listed = all-HasTrans ts out.0.transactions rs (λ y. omega (arith, out.2.names y)) listed.2;
        linked =
            ((create_trans_list-back (IsLinked rs out.0.transactions) rs [] [] refl).0 links.1).0;
        stuck = reduce_waitfor_graph_loop-IsStuck out.0.transactions consistent;
      },
    )
