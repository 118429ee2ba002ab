-- ===== src/Deadlock/Reduce.antt =====
-- What the reduction of group/dlm_controld/deadlock.c keeps and when it ends.
use dlm.Base.{
  ℕ, zero, suc, ◌+◌, ◌-◌, ◌≡◌, ◌≢◌, refl, sym, ap, ◌∙◌, Bool, true, false, ◌||◌, Option, none, some,
  List, [], ◌∷◌, ◌++◌, ◌==◌, if◌then◌else◌, length, All, All-append, arith, Bool-cases, ==→eq, inl,
  inr,
}
use mathlib.Core.List.{append-nil, append_assoc}
use dlm.Deadlock.{
  Trans, remove_slots, remove_waitfor, remove_loop, remove_trans, reduce_pass, reduce_waitfor_graph,
  reduce_loop, reduce_waitfor_graph_loop,
}

-- The slots in use.
abbrev pub in_use : List (Option ℕ) → ℕ
in_use [] = 0
in_use (none ∷ rest) = in_use rest
in_use (some x ∷ rest) = suc (in_use rest)

-- Some slot holds a member of the set.
abbrev pub waits_in : (ℕ → Bool) → List (Option ℕ) → Bool
waits_in s [] = false
waits_in s (none ∷ rest) = waits_in s rest
waits_in s (some x ∷ rest) = s x || waits_in s rest

-- The count is right, and a member of the set waits for a member of the set.
pub record IsStuck (s : ℕ → Bool) (tr : Trans) : Type 0 where
  pub counted : tr.waitfor_count ≡ in_use tr.waitfor
  pub waits : s tr.xid ≡ true → waits_in s tr.waitfor ≡ true

-- The transactions of the set, in the order of the list.
abbrev pub members : (ℕ → Bool) → List Trans → List ℕ
members s [] = []
members s (tr ∷ rest) = if s tr.xid then tr.xid ∷ members s rest else members s rest

pub remove_slots-count :
    (slots : List (Option ℕ)) (x k count others : ℕ)
    → count ≡ k + in_use slots
    → let out = remove_slots slots x count others in out.count ≡ k + in_use out.waitfor
unfolding remove_slots
remove_slots-count [] x k count others h = h
remove_slots-count (none ∷ rest) x k count others h =
    ground (arith, remove_slots-count rest x k count others h)
remove_slots-count (some y ∷ rest) x k count others h = elim (Bool-cases (count == 0)) [
  | inl e ↦ rw (e, remove_slots) h
  | inr e ↦ elim (Bool-cases (y == x)) [
    | inl hit ↦ rw (e, hit, remove_slots) (remove_slots-count rest x k (count - 1) _ (omega arith))
    | inr miss ↦
        rw (e, miss, remove_slots)
          (omega (arith, remove_slots-count rest x (suc k) count others (omega arith)))
  ]
]

remove_slots-waits :
    (s : ℕ → Bool) (slots : List (Option ℕ)) (x count others : ℕ)
    → s x ≡ false
    → waits_in s (remove_slots slots x count others).waitfor ≡ waits_in s slots
unfolding remove_slots
remove_slots-waits s [] x count others h = refl
remove_slots-waits s (none ∷ rest) x count others h =
    ground (arith, remove_slots-waits s rest x count others h)
remove_slots-waits s (some y ∷ rest) x count others h = elim (Bool-cases (count == 0)) [
  | inl e ↦ rw (e, remove_slots) refl
  | inr e ↦ elim (Bool-cases (y == x)) [
    | inl hit ↦
        let gone : s y ≡ false = ap s (==→eq y x hit) ∙ h in
        rw (e, hit, gone, remove_slots) (remove_slots-waits s rest x (count - 1) _ h)
    | inr miss ↦
        rw (e, miss, remove_slots) (ap (λ b. s y || b) (remove_slots-waits s rest x count others h))
  ]
]

-- What a list of transactions becomes while nothing of the set leaves.
record Kept (s : ℕ → Bool) (ts ts' : List Trans) : Type 0 where
  pub stuck : All (IsStuck s) ts'
  pub same : members s ts' ≡ members s ts
  pub length : length ts' ≡ length ts

remove_waitfor-IsStuck :
    (s : ℕ → Bool) (tr gone : Trans)
    → s gone.xid ≡ false
    → IsStuck s tr
    → IsStuck s (remove_waitfor tr gone).0
unfolding remove_waitfor
remove_waitfor-IsStuck s tr gone h k = record {
  counted = omega (
    arith,
    remove_slots-count tr.waitfor gone.xid 0 tr.waitfor_count gone.others_waiting_on_us
        (omega (arith, k.counted)),
  );
  waits = λ m.
      remove_slots-waits s tr.waitfor gone.xid tr.waitfor_count gone.others_waiting_on_us h
      ∙ k.waits m;
}

remove_loop-Kept :
    (s : ℕ → Bool) (ts : List Trans) (gone : Trans)
    → s gone.xid ≡ false
    → All (IsStuck s) ts
    → Kept s ts (remove_loop ts gone).0
unfolding remove_loop remove_waitfor
remove_loop-Kept s [] gone h k = record { stuck = tt; same = refl; length = refl }
remove_loop-Kept s (tr ∷ rest) gone h k = elim (Bool-cases (gone.others_waiting_on_us == 0)) [
  | inl e ↦ rw (e, remove_loop) (record { stuck = k; same = refl; length = refl })
  | inr e ↦
      let pair = remove_waitfor tr gone in
      let ih = remove_loop-Kept s rest pair.1 h k.1 in
      rw (e, remove_loop)
        (record {
          stuck = (remove_waitfor-IsStuck s tr gone h k.0, ih.stuck);
          same = ap (λ (m : List ℕ). if s tr.xid then tr.xid ∷ m else m) ih.same;
          length = ap suc ih.length;
        })
]

pub remove_loop-xid : (ts : List Trans) (gone : Trans) → (remove_loop ts gone).1.xid ≡ gone.xid
unfolding remove_loop
remove_loop-xid [] gone = refl
remove_loop-xid (tr ∷ rest) gone = ground (arith, remove_loop-xid rest (remove_waitfor tr gone).1)

members-append :
    (s : ℕ → Bool) (xs ys : List Trans) → members s (xs ++ ys) ≡ members s xs ++ members s ys
members-append s [] ys = refl
members-append s (x ∷ xs) ys = ground (arith, members-append s xs ys)

waits_in-in_use :
    (s : ℕ → Bool) (slots : List (Option ℕ)) → in_use slots ≡ 0 → waits_in s slots ≡ false
waits_in-in_use s [] h = refl
waits_in-in_use s (none ∷ rest) h = waits_in-in_use s rest h
waits_in-in_use s (some x ∷ rest) h = ground arith

-- A transaction that waits for nothing is not in the set.
removed-outside :
    (s : ℕ → Bool) (tr : Trans) → IsStuck s tr → tr.waitfor_count ≡ 0 → s tr.xid ≡ false
removed-outside s tr k h = ground (arith, k.waits, waits_in-in_use s tr.waitfor (sym k.counted ∙ h))

abbrev IsBlocked : Trans → Type 0
IsBlocked tr = tr.waitfor_count ≢ 0

members-outside :
    (s : ℕ → Bool) (tr : Trans) (rest : List Trans)
    → s tr.xid ≡ false
    → members s (tr ∷ rest) ≡ members s rest
members-outside s tr rest h = rw h refl

members-shift :
    (s : ℕ → Bool) (before : List Trans) (tr : Trans) (after : List Trans)
    → members s (before ++ tr ∷ []) ++ members s after ≡ members s before ++ members s (tr ∷ after)
members-shift s before tr after =
    sym (members-append s (before ++ tr ∷ []) after)
    ∙ ap (members s) (append_assoc before (tr ∷ []) after)
    ∙ members-append s before (tr ∷ after)

reduce_pass-Keeps :
    (s : ℕ → Bool) (n : ℕ) (before after : List Trans) (removed : ℕ)
    → All (IsStuck s) before
    → All (IsStuck s) after
    → let out = (reduce_pass n before after removed).0 in
      All (IsStuck s) out × (members s out ≡ members s before ++ members s after)
unfolding reduce_pass remove_trans
reduce_pass-Keeps s zero before after removed b a =
    (All-append (IsStuck s) before after b a, members-append s before after)
reduce_pass-Keeps s (suc n) before [] removed b a = (b, sym (append-nil _))
reduce_pass-Keeps s (suc n) before (tr ∷ after) removed b a =
    elim (Bool-cases (tr.waitfor_count == 0)) [
      | inr e ↦
          let ih =
            reduce_pass-Keeps s n (before ++ tr ∷ []) after removed
              (All-append (IsStuck s) before (tr ∷ []) b (a.0, tt)) a.1 in
          rw (e, reduce_pass) (ih.0, ih.1 ∙ members-shift s before tr after)
      | inl e ↦
          let out = removed-outside s tr a.0 (==→eq tr.waitfor_count 0 e) in
          let left = remove_loop-Kept s before tr out b in
          let gone = (remove_loop before tr).1 in
          let right = remove_loop-Kept s after gone (ap s (remove_loop-xid before tr) ∙ out) a.1 in
          let ih =
            reduce_pass-Keeps s n (remove_loop before tr).0 (remove_loop after gone).0 (removed + 1)
              left.stuck right.stuck in
          rw (e, reduce_pass)
            (
              ih.0,
              ih.1
                  ∙ ap (λ (m : List ℕ). m ++ members s (remove_loop after gone).0) left.same
                  ∙ ap (λ (m : List ℕ). members s before ++ m)
                      (right.same ∙ sym (members-outside s tr after out)),
            )
    ]

-- After any number of rounds the stuck transactions are there, in the same order.
reduce_loop-Keeps :
    (s : ℕ → Bool) (n : ℕ) (ts : List Trans)
    → All (IsStuck s) ts
    → All (IsStuck s) (reduce_loop n ts) × (members s (reduce_loop n ts) ≡ members s ts)
unfolding reduce_loop
reduce_loop-Keeps s zero ts h = (h, refl)
reduce_loop-Keeps s (suc n) ts h =
    let once = reduce_pass-Keeps s (length ts) [] ts 0 tt h in
    elim (Bool-cases ((reduce_waitfor_graph ts).1 == 0)) [
      | inl e ↦ rw (e, reduce_loop) once
      | inr e ↦
          let ih = reduce_loop-Keeps s n (reduce_waitfor_graph ts).0 once.0 in
          rw (e, reduce_loop) (ih.0, ih.1 ∙ once.1)
    ]

-- Take any set of transactions each of which, if it is in the list, waits for a member of the
-- set, in a list where each count is the number of slots in use. The reduction keeps all members
-- that are in the list, in the same order: no deadlocked transaction is taken for one that can
-- run.
pub reduce_waitfor_graph_loop-members :
    (s : ℕ → Bool) (ts : List Trans)
    → All (IsStuck s) ts
    → members s (reduce_waitfor_graph_loop ts) ≡ members s ts
unfolding reduce_waitfor_graph_loop
reduce_waitfor_graph_loop-members s ts h = (reduce_loop-Keeps s (length ts + 1) ts h).1
