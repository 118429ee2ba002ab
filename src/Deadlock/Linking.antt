-- ===== src/Deadlock/Linking.antt =====
-- group/dlm_controld/deadlock.c: one more pointer in the graph.
use dlm.Base.{
  ℕ, ◌+◌, ◌≤◌, ◌<◌, ◌≡◌, refl, sym, ap, ◌∙◌, some, List, ◌==◌, if◌then◌else◌, length, All, arith,
  ==→eq,
}
use mathlib.Core.Path.{subst}
use dlm.Deadlock.{Trans}
use dlm.Deadlock.Locks.{Lkb}
use dlm.Deadlock.Pointers.{pointers, pointers_in, named, awaited}
use dlm.Deadlock.Graph.{find_trans, change_trans, Building, set_slot, point_to, pointed_to, link}
use dlm.Deadlock.Filling.{
  IsPrefix, IsFilled, set_slot-pointers, set_slot-IsPrefix, set_slot-length, find-All, find-xid,
  find-named, find-awaited, pointers_in-length, change-pointers, change-awaited, change-named,
  change-All, change-length,
}

-- A graph in the making.
pub record IsBuilt (ts : List Trans) : Type 0 where
  pub filled : All IsFilled ts
  pub unique : (y : ℕ) → named y ts ≤ 1
  pub agree : (y : ℕ) → awaited y ts ≡ pointers_in y ts
  pub size : length ts < 4294967296

-- The transactions have the names of those before.
abbrev pub SameNames : List Trans → List Trans → Type 0
SameNames ts ts' = (y : ℕ) → named y ts' ≡ named y ts

-- A transaction that can take one more pointer.
pub record HasRoom (tr tr' : Trans) : Type 0 where
  pub filled : IsFilled tr'
  pub room : tr'.waitfor_count < length tr'.waitfor
  pub xid : tr'.xid ≡ tr.xid
  pub others : tr'.others_waiting_on_us ≡ tr.others_waiting_on_us
  pub pointers_of : (y : ℕ) → pointers y tr'.waitfor ≡ pointers y tr.waitfor

point_to-IsFilled :
    (x : ℕ) (tr tr' : Trans)
    → HasRoom tr tr'
    → pointers x tr.waitfor ≡ 0
    → IsFilled (point_to x tr')
point_to-IsFilled x tr tr' h free = record {
  slots =
      subst (λ n. IsPrefix n (set_slot x tr'.waitfor_count tr'.waitfor)) (omega arith)
        (set_slot-IsPrefix x tr'.waitfor_count tr'.waitfor h.filled.slots h.room);
  alloc = h.filled.alloc ∙ sym (set_slot-length x tr'.waitfor_count tr'.waitfor);
  once = λ y.
      let more = set_slot-pointers x y tr'.waitfor_count tr'.waitfor h.filled.slots h.room in
      let old = h.filled.once y in
      let same = h.pointers_of y in ground (arith, h.pointers_of x, ==→eq x y);
}

pointed_to-IsFilled : (tr : Trans) → IsFilled tr → IsFilled (pointed_to tr)
pointed_to-IsFilled tr h = record { slots = h.slots; alloc = h.alloc; once = h.once }

one_more : (x p q : ℕ) → p ≡ q + (if x == x then 1 else 0) → p ≡ q + 1
one_more x p q h = ground arith

module _ (b : Building) (tr tr' : Trans) (xid x : ℕ) (waiting_lkb : Lkb) where
  pub link-IsBuilt :
      IsBuilt b.transactions
      → find_trans b.transactions xid ≡ some tr
      → HasRoom tr tr'
      → pointers x tr.waitfor ≡ 0
      → named x b.transactions ≡ 1
      → let ts = (link tr' x b waiting_lkb).0.transactions in
        IsBuilt ts × SameNames b.transactions ts
  unfolding link
  link-IsBuilt h found room free there =
      let own = find-xid xid b.transactions tr found in
      let own' = room.xid ∙ own in
      let found' = ap (find_trans b.transactions) own' ∙ found in
      let f = λ (t : Trans). point_to x tr' in
      let ts1 = change_trans f tr'.xid b.transactions in
      let filled1 =
        change-All f tr'.xid IsFilled b.transactions tr found'
          (point_to-IsFilled x tr tr' room free) h.filled in
      let names1 : SameNames b.transactions ts1 =
        λ y. change-named f tr'.xid y b.transactions (λ t k. refl) in
      let target = find-named x ts1 (omega (arith, names1 x, there)) in
      let names2 : SameNames ts1 (change_trans pointed_to x ts1) =
        λ y. change-named pointed_to x y ts1 (λ t k. k) in
      let agree1 : (y : ℕ) → awaited y ts1 ≡ awaited y b.transactions = λ y.
        let e = change-awaited f tr'.xid y b.transactions tr found' room.xid in
        ground (arith, e, room.others) in
      let pointers1 : (y : ℕ)
          → pointers_in y ts1 ≡ pointers_in y b.transactions + (if x == y then 1 else 0) =
        λ y.
          let e = change-pointers f tr'.xid y b.transactions tr found' in
          let more =
            set_slot-pointers x y tr'.waitfor_count tr'.waitfor room.filled.slots room.room in
          omega (arith, e, more, room.pointers_of y) in
      let bound = find-awaited x ts1 target.0 target.1 in
      let most = pointers_in-length x ts1 filled1 in
      let px = one_more x (pointers_in x ts1) (pointers_in x b.transactions) (pointers1 x) in
      let small : target.0.others_waiting_on_us + 1 < 4294967296 = omega (
        arith,
        bound,
        most,
        px,
        agree1 x,
        h.agree x,
        change-length f tr'.xid b.transactions,
        h.size,
      ) in
      (
        record {
          filled =
              change-All pointed_to x IsFilled ts1 target.0 target.1
                (pointed_to-IsFilled target.0 (find-All IsFilled x ts1 target.0 target.1 filled1))
                filled1;
          unique = λ y. omega (arith, names2 y, names1 y, h.unique y);
          agree = λ y.
              let a = change-awaited pointed_to x y ts1 target.0 target.1 refl in
              let p = change-pointers pointed_to x y ts1 target.0 target.1 in
              let named_x = find-xid x ts1 target.0 target.1 in
              ground (arith, a, p, named_x, small, agree1 y, pointers1 y, h.agree y);
          size = omega (
            arith,
            change-length pointed_to x ts1,
            change-length f tr'.xid b.transactions,
            h.size,
          );
        },
        λ y. names2 y ∙ names1 y,
      )
