-- ===== src/Deadlock/Exact.antt =====
-- What group/dlm_controld/deadlock.c leaves of the graph when its counts agree with its slots.
use dlm.Base.{
  ℕ, zero, suc, ◌+◌, ◌≤◌, ◌≡◌, ◌≢◌, refl, sym, ap, ◌∙◌, Bool, true, not, Option, none, some, List,
  [], ◌∷◌, ◌++◌, ◌==◌, length, All, All-append, arith, Bool-cases, ==→eq, inl, inr,
}
use mathlib.Core.List.{append-nil}
use mathlib.Core.Path.{subst}
use dlm.Deadlock.{
  Trans, remove_loop, remove_trans, reduce_pass, reduce_waitfor_graph, reduce_loop,
  reduce_waitfor_graph_loop,
}
use dlm.Deadlock.Ending.{IsBlocked, reduce_waitfor_graph_loop-IsBlocked}
use dlm.Deadlock.Reduce.{in_use, waits_in, IsStuck, remove_loop-xid}
use dlm.Deadlock.Pointers.{
  pointers, pointers_in, named, awaited, IsCounted, remove_loop-clears, remove_loop-IsCounted,
  remove_loop-pointers, remove_loop-named, remove_loop-awaited, pointers_in-append, named-append,
  awaited-append, awaited-named, pointers-in_use,
}

pub record IsConsistent (ts : List Trans) : Type 0 where
  pub counted : All IsCounted ts
  pub unique : (y : ℕ) → named y ts ≤ 1
  pub agree : (y : ℕ) → awaited y ts ≡ pointers_in y ts

-- The same of a list in two parts.
record AreConsistent (before after : List Trans) : Type 0 where
  pub before_counted : All IsCounted before
  pub after_counted : All IsCounted after
  pub unique : (y : ℕ) → named y before + named y after ≤ 1
  pub agree :
      (y : ℕ) → awaited y before + awaited y after ≡ pointers_in y before + pointers_in y after

joined : (before after : List Trans) → AreConsistent before after → IsConsistent (before ++ after)
joined before after h = record {
  counted = All-append IsCounted before after h.before_counted h.after_counted;
  unique = λ y. omega (arith, h.unique y, named-append y before after);
  agree = λ y.
      omega (arith, h.agree y, awaited-append y before after, pointers_in-append y before after);
}

moved :
    (before : List Trans) (tr : Trans) (after : List Trans)
    → AreConsistent before (tr ∷ after)
    → AreConsistent (before ++ tr ∷ []) after
moved before tr after h = record {
  before_counted = All-append IsCounted before (tr ∷ []) h.before_counted (h.after_counted.0, tt);
  after_counted = h.after_counted.1;
  unique = λ y. ground (arith, h.unique y, named-append y before (tr ∷ []));
  agree = λ y.
      ground (
        arith,
        h.agree y,
        awaited-append y before (tr ∷ []),
        pointers_in-append y before (tr ∷ []),
      );
}

-- What the transaction that goes is waited for by.
gone-others :
    (before : List Trans) (tr : Trans) (after : List Trans)
    → AreConsistent before (tr ∷ after)
    → tr.waitfor_count ≡ 0
    → tr.others_waiting_on_us ≡ pointers_in tr.xid before + pointers_in tr.xid after
gone-others before tr after h e = ground (
  arith,
  h.agree tr.xid,
  h.unique tr.xid,
  h.after_counted.0.0,
  pointers-in_use tr.xid tr.waitfor,
  awaited-named tr.xid before,
  awaited-named tr.xid after,
)

remove_trans-AreConsistent :
    (before : List Trans) (tr : Trans) (after : List Trans)
    → AreConsistent before (tr ∷ after)
    → tr.waitfor_count ≡ 0
    → let out = remove_trans before tr after in AreConsistent out.0 out.1
unfolding remove_trans
remove_trans-AreConsistent before tr after h e =
    let gone = (remove_loop before tr).1 in
    let same = remove_loop-xid before tr in
    let moved_name : pointers_in gone.xid after ≡ pointers_in tr.xid after =
      ap (λ x. pointers_in x after) same in
    let left =
      remove_loop-clears before tr (pointers_in tr.xid after) h.before_counted
        (gone-others before tr after h e) h.after_counted.0.1 in
    let right =
      remove_loop-clears after gone 0 h.after_counted.1 (omega (arith, left.1, moved_name))
        (omega (arith, left.1, gone-others before tr after h e, h.after_counted.0.1)) in
    let none_after : pointers_in tr.xid (remove_loop after gone).0 ≡ 0 =
      sym (ap (λ x. pointers_in x (remove_loop after gone).0) same) ∙ right.0 in
    record {
      before_counted = remove_loop-IsCounted before tr h.before_counted;
      after_counted = remove_loop-IsCounted after gone h.after_counted.1;
      unique = λ y.
          ground (arith, h.unique y, remove_loop-named before tr y, remove_loop-named after gone y);
      agree = λ y. elim (Bool-cases (tr.xid == y)) [
        | inl hit ↦
            subst
              (λ y.
                awaited y (remove_loop before tr).0 + awaited y (remove_loop after gone).0
                ≡ pointers_in y (remove_loop before tr).0
                  + pointers_in y (remove_loop after gone).0)
              (==→eq tr.xid y hit)
              (ground (
                arith,
                h.unique tr.xid,
                left.0,
                none_after,
                remove_loop-awaited before tr tr.xid,
                remove_loop-awaited after gone tr.xid,
                awaited-named tr.xid before,
                awaited-named tr.xid after,
              ))
        | inr miss ↦
            let ne : tr.xid ≢ y = λ p. ground arith in
            ground (
              arith,
              h.agree y,
              h.after_counted.0.0,
              pointers-in_use y tr.waitfor,
              remove_loop-awaited before tr y,
              remove_loop-awaited after gone y,
              remove_loop-pointers before tr y ne,
              remove_loop-pointers after gone y (λ p. ne (sym same ∙ p)),
            )
      ];
    }

reduce_pass-IsConsistent :
    (n : ℕ) (before after : List Trans) (removed : ℕ)
    → AreConsistent before after
    → IsConsistent (reduce_pass n before after removed).0
unfolding reduce_pass
reduce_pass-IsConsistent zero before after removed h = joined before after h
reduce_pass-IsConsistent (suc n) before [] removed h =
    subst IsConsistent (append-nil before) (joined before [] h)
reduce_pass-IsConsistent (suc n) before (tr ∷ after) removed h =
    elim (Bool-cases (tr.waitfor_count == 0)) [
      | inr e ↦
          rw (e, reduce_pass)
            (reduce_pass-IsConsistent n (before ++ tr ∷ []) after removed (moved before tr after h))
      | inl e ↦
          let out = remove_trans before tr after in
          rw (e, reduce_pass)
            (reduce_pass-IsConsistent n out.0 out.1 (removed + 1)
              (remove_trans-AreConsistent before tr after h (==→eq tr.waitfor_count 0 e)))
    ]

reduce_loop-IsConsistent :
    (n : ℕ) (ts : List Trans) → IsConsistent ts → IsConsistent (reduce_loop n ts)
unfolding reduce_loop
reduce_loop-IsConsistent zero ts h = h
reduce_loop-IsConsistent (suc n) ts h =
    let once = reduce_pass-IsConsistent (length ts) [] ts 0 (record {
      before_counted = tt;
      after_counted = h.counted;
      unique = λ y. omega (arith, h.unique y);
      agree = λ y. omega (arith, h.agree y);
    }) in
    elim (Bool-cases ((reduce_waitfor_graph ts).1 == 0)) [
      | inl e ↦ rw (e, reduce_loop) once
      | inr e ↦ rw (e, reduce_loop) (reduce_loop-IsConsistent n (reduce_waitfor_graph ts).0 once)
    ]

-- Some transaction has this xid.
abbrev pub is_listed : List Trans → ℕ → Bool
is_listed ts y = not (named y ts == 0)

awaited-is_listed : (ts : List Trans) (y : ℕ) → 1 ≤ awaited y ts → is_listed ts y ≡ true
awaited-is_listed ts y h = ground (arith, awaited-named y ts)

listed-waits :
    (ts : List Trans) (slots : List (Option ℕ))
    → ((y : ℕ) → 1 ≤ pointers y slots → is_listed ts y ≡ true)
    → 1 ≤ in_use slots
    → waits_in (is_listed ts) slots ≡ true
listed-waits ts [] k h = ground arith
listed-waits ts (none ∷ rest) k h = listed-waits ts rest k h
listed-waits ts (some x ∷ rest) k h = rw (k x (ground arith)) refl

rest-IsStuck :
    (all ts : List Trans)
    → ((y : ℕ) → 1 ≤ pointers_in y ts → is_listed all y ≡ true)
    → All IsCounted ts
    → All IsBlocked ts
    → All (IsStuck (is_listed all)) ts
rest-IsStuck all [] k c b = tt
rest-IsStuck all (tr ∷ rest) k c b = (
  record {
    counted = c.0.0;
    waits = λ h. listed-waits all tr.waitfor (λ y p. k y (omega arith)) (omega (arith, c.0.0, b.0));
  },
  rest-IsStuck all rest (λ y p. k y (omega arith)) c.1 b.1,
)

-- Where no xid occurs twice, each count is the number of slots in use, and each
-- others_waiting_on_us is an int that is the number of slots that point to the transaction,
-- every transaction that the reduction leaves waits for one that it leaves, and its count is
-- right: none is left that could run once the removed ones are done.
pub reduce_waitfor_graph_loop-IsStuck :
    (ts : List Trans)
    → IsConsistent ts
    → let left = reduce_waitfor_graph_loop ts in All (IsStuck (is_listed left)) left
unfolding reduce_waitfor_graph_loop
reduce_waitfor_graph_loop-IsStuck ts h =
    let left = reduce_waitfor_graph_loop ts in
    let done = reduce_loop-IsConsistent (length ts + 1) ts h in
    rest-IsStuck left left (λ y p. awaited-is_listed left y (omega (arith, done.agree y)))
      done.counted (reduce_waitfor_graph_loop-IsBlocked ts)
