-- ===== src/Plock/Names.antt =====
-- group/dlm_controld/main.c: names that compare as equal are equal.
use dlm.Base.{ℕ, ◌≡◌, refl, true, List, [], ◌∷◌, arith}
use dlm.Plock.Device.{same_name}

pub same_name_self : (n : List ℕ) → same_name n n ≡ true
unfolding same_name
same_name_self [] = refl
same_name_self (a ∷ as') = ground (arith, same_name_self as')

pub same_name→eq : (a b : List ℕ) → same_name a b ≡ true → a ≡ b
unfolding same_name
same_name→eq [] [] h = refl
same_name→eq [] (y ∷ ys) h = cc
same_name→eq (x ∷ xs) [] h = cc
same_name→eq (x ∷ xs) (y ∷ ys) h = ground (arith, same_name→eq xs ys)
