-- ===== src/Deadlock/Ending.antt =====
-- The end of the loop of group/dlm_controld/deadlock.c that reduces the graph.
use dlm.Base.{
  ℕ, zero, suc, ◌+◌, ◌<◌, ◌≤◌, ◌≡◌, ◌≢◌, refl, sym, ◌∙◌, List, [], ◌∷◌, ◌++◌, ◌==◌, length,
  length-append, All, arith, Bool-cases, ==→eq, inl, inr,
}
use mathlib.Core.List.{append-nil, append_assoc}
use mathlib.Core.Path.{subst}
use dlm.Deadlock.{
  Trans, remove_waitfor, remove_loop, remove_trans, reduce_pass, reduce_waitfor_graph, reduce_loop,
  reduce_waitfor_graph_loop,
}

abbrev pub IsBlocked : Trans → Type 0
IsBlocked tr = tr.waitfor_count ≢ 0

remove_loop-length : (ts : List Trans) (gone : Trans) → length (remove_loop ts gone).0 ≡ length ts
unfolding remove_loop
remove_loop-length [] gone = refl
remove_loop-length (tr ∷ rest) gone =
    ground (arith, remove_loop-length rest (remove_waitfor tr gone).1)

reduce_pass-length :
    (n : ℕ) (before after : List Trans) (removed : ℕ)
    → let out = reduce_pass n before after removed in
      length out.0 + out.1 ≡ length before + length after + removed
unfolding reduce_pass remove_trans
reduce_pass-length zero before after removed = omega (arith, length-append before after)
reduce_pass-length (suc n) before [] removed = omega arith
reduce_pass-length (suc n) before (tr ∷ after) removed = elim (Bool-cases (tr.waitfor_count == 0)) [
  | inr e ↦
      rw (e, reduce_pass)
        (omega (
          arith,
          reduce_pass-length n (before ++ tr ∷ []) after removed,
          length-append before (tr ∷ []),
        ))
  | inl e ↦
      let gone = (remove_loop before tr).1 in
      let ih =
        reduce_pass-length n (remove_loop before tr).0 (remove_loop after gone).0 (removed + 1) in
      rw (e, reduce_pass)
        (omega (arith, ih, remove_loop-length before tr, remove_loop-length after gone))
]

reduce_pass-least :
    (n : ℕ) (before after : List Trans) (removed : ℕ)
    → removed ≤ (reduce_pass n before after removed).1
unfolding reduce_pass remove_trans
reduce_pass-least zero before after removed = omega arith
reduce_pass-least (suc n) before [] removed = omega arith
reduce_pass-least (suc n) before (tr ∷ after) removed = elim (Bool-cases (tr.waitfor_count == 0)) [
  | inr e ↦ rw (e, reduce_pass) (reduce_pass-least n (before ++ tr ∷ []) after removed)
  | inl e ↦
      let out = remove_trans before tr after in
      rw (e, reduce_pass) (omega (arith, reduce_pass-least n out.0 out.1 (removed + 1)))
]

-- A pass that removes nothing leaves the list as it is, and all of it is blocked.
reduce_pass-IsBlocked :
    (n : ℕ) (before after : List Trans) (removed : ℕ)
    → length after ≤ n
    → (reduce_pass n before after removed).1 ≡ removed
    → ((reduce_pass n before after removed).0 ≡ before ++ after) × All IsBlocked after
unfolding reduce_pass
reduce_pass-IsBlocked zero before [] removed l h = (refl, tt)
reduce_pass-IsBlocked zero before (tr ∷ after) removed l h = ground arith
reduce_pass-IsBlocked (suc n) before [] removed l h = (sym (append-nil before), tt)
reduce_pass-IsBlocked (suc n) before (tr ∷ after) removed l h =
    elim (Bool-cases (tr.waitfor_count == 0)) [
      | inr e ↦
          let ih =
            reduce_pass-IsBlocked n (before ++ tr ∷ []) after removed (omega arith)
              (rw (e, reduce_pass) at h) in
          rw (e, reduce_pass) (ih.0 ∙ append_assoc before (tr ∷ []) after, (ground arith, ih.1))
      | inl e ↦
          let out = remove_trans before tr after in
          let more = reduce_pass-least n out.0 out.1 (removed + 1) in ground arith
    ]

reduce_loop-IsBlocked : (n : ℕ) (ts : List Trans) → length ts < n → All IsBlocked (reduce_loop n ts)
unfolding reduce_loop
reduce_loop-IsBlocked zero ts h = ground arith
reduce_loop-IsBlocked (suc n) ts h = elim (Bool-cases ((reduce_waitfor_graph ts).1 == 0)) [
  | inl e ↦
      let done = reduce_pass-IsBlocked (length ts) [] ts 0 (omega arith) (==→eq _ _ e) in
      rw (e, reduce_loop) (subst (All IsBlocked) (sym done.0) done.1)
  | inr e ↦
      let size = reduce_pass-length (length ts) [] ts 0 in
      rw (e, reduce_loop)
        (reduce_loop-IsBlocked n (reduce_waitfor_graph ts).0 (ground (arith, size)))
]

-- One round more than there are transactions is enough for the loop that reduces the graph, and
-- each transaction that it leaves waits for something.
pub reduce_waitfor_graph_loop-IsBlocked :
    (ts : List Trans) → All IsBlocked (reduce_waitfor_graph_loop ts)
unfolding reduce_waitfor_graph_loop
reduce_waitfor_graph_loop-IsBlocked ts = reduce_loop-IsBlocked (length ts + 1) ts (omega arith)
