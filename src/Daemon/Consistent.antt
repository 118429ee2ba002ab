-- ===== src/Daemon/Consistent.antt =====
-- group/dlm_controld/main.c: what holds of the lockspaces, the registered file systems and the
-- clients between two calls of the poll loop.
use dlm.Base.{
  ℕ, ◌≤◌, ◌≡◌, refl, sym, ap, ◌∙◌, true, false, none, some, List, [], ◌∷◌, if◌then◌else◌, arith,
  Bool-cases, inl, inr, All,
}
use dlm.Plock.Device.{same_name}
use dlm.Plock.Names.{same_name→eq}
use dlm.Group.Types.{Space}
use dlm.Daemon.Clients.{Client, Table, slot}
use dlm.Daemon.Spaces.{Daemon, find_space, change_space, find_ls_ci, fs_register_check}
use dlm.Daemon.Slots.{passes, has_fd, is_group}

-- No two lockspaces have one name, and none has the client of another.
abbrev pub AreDistinct : List Space → Type 0
AreDistinct [] = Unit
AreDistinct (ls ∷ rest) =
    (find_space ls.plocks.name rest ≡ none)
    × (find_ls_ci ls.cpg_client rest ≡ none)
    × AreDistinct rest

abbrev pub AreDistinctNames : List (List ℕ) → Type 0
AreDistinctNames [] = Unit
AreDistinctNames (name ∷ rest) = (fs_register_check name rest ≡ false) × AreDistinctNames rest

-- A lockspace has an open client of its kind, and is marked when its file system is registered.
pub record IsServed (registered : List (List ℕ)) (clients : List Client) (ls : Space) : Type 0 where
  pub client : passes is_group (slot clients ls.cpg_client) ≡ true
  pub marked : fs_register_check ls.plocks.name registered ≡ true → ls.fs_registered ≡ true

-- Every open client is among those that are polled.
abbrev pub IsPolled : Table → Type 0
IsPolled t = (i : ℕ) → passes has_fd (slot t.clients i) ≡ true → i ≤ t.maxi

pub record IsConsistent (d : Daemon) : Type 0 where
  pub distinct : AreDistinct d.spaces
  pub names : AreDistinctNames d.registered
  pub served : All (IsServed d.registered d.table.clients) d.spaces
  pub polled : IsPolled d.table

some-ne-none {ℓ} : {A : Type ℓ} {x : A} → some x ≡ none → ⊥
some-ne-none h = cc

pub All-map :
    (P Q : Space → Type 0) (spaces : List Space)
    → ((ls : Space) → P ls → Q ls)
    → All P spaces
    → All Q spaces
All-map P Q [] k h = tt
All-map P Q (ls ∷ rest) k h = (k ls h.0, All-map P Q rest k h.1)

-- Lockspaces none of which has a name.
other-All :
    (name : List ℕ) (P Q : Space → Type 0) (spaces : List Space)
    → ((ls : Space) → same_name ls.plocks.name name ≡ false → P ls → Q ls)
    → find_space name spaces ≡ none
    → All P spaces
    → All Q spaces
unfolding find_space
other-All name P Q [] k e h = tt
other-All name P Q (ls ∷ rest) k e h = elim (Bool-cases (same_name ls.plocks.name name)) [
  | inl y ↦
      absurd (some-ne-none (sym (ap (λ b. if b then some ls else find_space name rest) y) ∙ e))
  | inr n ↦ (
    k ls n h.0,
    other-All name P Q rest k (sym (ap (λ b. if b then some ls else find_space name rest) n) ∙ e)
        h.1,
  )
]

-- Writes to one lockspace that keep its name and its client.
module _ (name : List ℕ) (f : Space → Space) where
  change_space-find :
      (n : List ℕ) (spaces : List Space)
      → ((ls : Space) → (f ls).plocks.name ≡ ls.plocks.name)
      → find_space n spaces ≡ none
      → find_space n (change_space name f spaces) ≡ none
  unfolding find_space change_space
  change_space-find n [] k h = refl
  change_space-find n (ls ∷ rest) k h =
      ground (arith, change_space-find n rest k, ap (λ m. same_name m n) (k ls))

  change_space-ci :
      (ci : ℕ) (spaces : List Space)
      → ((ls : Space) → (f ls).cpg_client ≡ ls.cpg_client)
      → find_ls_ci ci spaces ≡ none
      → find_ls_ci ci (change_space name f spaces) ≡ none
  unfolding find_ls_ci change_space
  change_space-ci ci [] k h = refl
  change_space-ci ci (ls ∷ rest) k h = ground (arith, change_space-ci ci rest k, k ls)

  pub change_space-AreDistinct :
      (spaces : List Space)
      → ((ls : Space) → (f ls).plocks.name ≡ ls.plocks.name)
      → ((ls : Space) → (f ls).cpg_client ≡ ls.cpg_client)
      → AreDistinct spaces
      → AreDistinct (change_space name f spaces)
  unfolding change_space
  change_space-AreDistinct [] k c h = tt
  change_space-AreDistinct (ls ∷ rest) k c h = elim (Bool-cases (same_name ls.plocks.name name)) [
    | inl y ↦ rw (y, change_space) (rw (k ls, c ls) h)
    | inr n ↦
        rw (n, change_space)
          (
            change_space-find ls.plocks.name rest k h.0,
            change_space-ci ls.cpg_client rest c h.1,
            change_space-AreDistinct rest k c h.2,
          )
  ]

  -- The lockspace that is found, and the others, which have other names.
  pub change_space-All :
      (P Q : Space → Type 0) (spaces : List Space)
      → AreDistinct spaces
      → ((ls : Space) → same_name ls.plocks.name name ≡ true → P ls → Q (f ls))
      → ((ls : Space) → same_name ls.plocks.name name ≡ false → P ls → Q ls)
      → All P spaces
      → All Q (change_space name f spaces)
  unfolding change_space
  change_space-All P Q [] u there other h = tt
  change_space-All P Q (ls ∷ rest) u there other h =
      elim (Bool-cases (same_name ls.plocks.name name)) [
        | inl y ↦
            rw (y, change_space)
              (
                there ls y h.0,
                other-All name P Q rest other
                    (ap (λ n. find_space n rest) (sym (same_name→eq ls.plocks.name name y)) ∙ u.0)
                    h.1,
              )
        | inr n ↦
            rw (n, change_space) (other ls n h.0, change_space-All P Q rest u.2 there other h.1)
      ]
