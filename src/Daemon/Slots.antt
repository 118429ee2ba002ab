-- ===== src/Daemon/Slots.antt =====
-- group/dlm_controld/main.c: a new client gets a free slot, and the other slots stay as they are.
use mathlib.Core.Path.{subst}
use dlm.Base.{
  some-inj, ℕ, zero, suc, ◌≤◌, ◌≡◌, refl, sym, ap, ◌∙◌, Bool, true, false, Option, none, some, List,
  [], ◌∷◌, ◌++◌, ◌==◌, if◌then◌else◌, arith, Option-cases, inl, inr, is_empty,
}
use dlm.Daemon.Clients.{
  Work, process_lockspace_cpg, Dead, Client, Table, blank, blanks, client_alloc, slot, change_slot,
  free_slot, dead_or, fill_slot, search_slot, client_add,
}

-- A slot of the table passes a test.
abbrev pub passes : (Client → Bool) → Option Client → Bool
passes p none = false
passes p (some c) = p c

abbrev pub has_fd : Client → Bool
has_fd c = elim c.fd [ none ↦ false | some fd ↦ true ]

-- The open client of a lockspace.
abbrev pub is_group : Client → Bool
is_group c = elim c.fd [
  | none ↦ false
  | some fd ↦ elim c.work [ some process_lockspace_cpg ↦ true | _ ↦ false ]
]

pub is_group→has_fd : (c : Client) → is_group c ≡ true → has_fd c ≡ true
is_group→has_fd c h = elim (Option-cases c.fd) [
  | inl e ↦ ground (arith, e)
  | inr (fd, e) ↦ ground (arith, e)
]

slot-blanks : (p : Client → Bool) (n j : ℕ) → p blank ≡ false → passes p (slot (blanks n) j) ≡ false
unfolding slot
slot-blanks p zero j e = refl
slot-blanks p (suc n) zero e = e
slot-blanks p (suc n) (suc j) e = slot-blanks p n j e

slot-more :
    (p : Client → Bool) (cs : List Client) (n j : ℕ)
    → p blank ≡ false
    → passes p (slot (cs ++ blanks n) j) ≡ passes p (slot cs j)
unfolding slot
slot-more p [] n j e = slot-blanks p n j e
slot-more p (c ∷ rest) n zero e = refl
slot-more p (c ∷ rest) n (suc j) e = slot-more p rest n j e

pub slot-change_slot_other :
    (f : Client → Client) (i j : ℕ) (cs : List Client)
    → (i == j) ≡ false
    → slot (change_slot f i cs) j ≡ slot cs j
unfolding slot change_slot
slot-change_slot_other f i j [] h = refl
slot-change_slot_other f zero zero (c ∷ rest) h = cc
slot-change_slot_other f zero (suc j) (c ∷ rest) h = refl
slot-change_slot_other f (suc i) zero (c ∷ rest) h = refl
slot-change_slot_other f (suc i) (suc j) (c ∷ rest) h =
    slot-change_slot_other f i j rest (ground arith)

-- The slot that is found is free, and a write to it is read back.
free_slot-found :
    (cs : List Client) (i : ℕ) (new : Client)
    → free_slot cs ≡ some i
    → (passes has_fd (slot cs i) ≡ false) × (slot (change_slot (λ _. new) i cs) i ≡ some new)
unfolding free_slot slot change_slot
free_slot-found [] i new h = cc
free_slot-found (c ∷ rest) zero new h = ground arith
free_slot-found (c ∷ rest) (suc i) new h = ground (arith, free_slot-found rest i new)

free_slot-append :
    (cs : List Client) (n : ℕ) → (i : ℕ) × (free_slot (cs ++ blanks (suc n)) ≡ some i)
unfolding free_slot
free_slot-append [] n = (0, refl)
free_slot-append (c ∷ rest) n = elim (Option-cases c.fd) [
  | inl e ↦ (0, rw e refl)
  | inr (fd, e) ↦ let (i, later) = free_slot-append rest n in (suc i, rw e (rw later refl))
]

-- A client was put in a slot that was free, and the table is otherwise the same.
pub record Adds (new : Client) (t t' : Table) (i : ℕ) : Type 0 where
  pub here : slot t'.clients i ≡ some new
  pub was_free : passes has_fd (slot t.clients i) ≡ false
  pub others :
      (p : Client → Bool) (j : ℕ)
      → p blank ≡ false
      → (i == j) ≡ false
      → passes p (slot t'.clients j) ≡ passes p (slot t.clients j)
  pub bound : (i ≤ t'.maxi) × (t.maxi ≤ t'.maxi)

abbrev pub new_client : ℕ → Work → Option Dead → Client
new_client fd work dead = record {
  fd = some fd;
  work = some work;
  dead = some (dead_or dead);
  polled = some fd;
}

module _ (fd : ℕ) (work : Work) (dead : Option Dead) where
  fill_slot-Adds :
      (i : ℕ) (t : Table)
      → free_slot t.clients ≡ some i
      → Adds (new_client fd work dead) t (fill_slot fd work dead i t).1 i
  unfolding fill_slot
  fill_slot-Adds i t h =
      let found = free_slot-found t.clients i (new_client fd work dead) h in
      record {
        here = found.1;
        was_free = found.0;
        others = λ p j e ne. ap (passes p) (slot-change_slot_other _ i j t.clients ne);
        bound = ground arith;
      }

  client_alloc-Adds :
      (t t' : Table) (i : ℕ)
      → Adds (new_client fd work dead) (client_alloc t) t' i
      → Adds (new_client fd work dead) t t' i
  unfolding client_alloc
  client_alloc-Adds t t' i a = record {
    here = a.here;
    was_free = sym (slot-more has_fd t.clients 32 i refl) ∙ a.was_free;
    others = λ p j e ne. a.others p j e ne ∙ slot-more p t.clients 32 j e;
    bound = a.bound;
  }

  -- One search, with what a later one does.
  found-Adds :
      (n : ℕ) (t t' : Table) (i : ℕ)
      → (search_slot n fd work dead (client_alloc t) ≡ some (i, t')
          → Adds (new_client fd work dead) (client_alloc t) t' i)
      → (found : Option ℕ) → free_slot t.clients ≡ found
      → (elim found [
        | some j ↦ some (fill_slot fd work dead j t)
        | none ↦ search_slot n fd work dead (client_alloc t)
      ])
        ≡ some (i, t')
      → Adds (new_client fd work dead) t t' i
  unfolding fill_slot
  found-Adds n t t' i later none e k = client_alloc-Adds t t' i (later k)
  found-Adds n t t' i later (some j) e k =
      subst (λ r. Adds (new_client fd work dead) t r.1 r.0) (some-inj k) (fill_slot-Adds j t e)

  search_slot-Adds :
      (n : ℕ) (t t' : Table) (i : ℕ)
      → search_slot n fd work dead t ≡ some (i, t')
      → Adds (new_client fd work dead) t t' i
  unfolding search_slot
  search_slot-Adds zero t t' i h = cc
  search_slot-Adds (suc n) t t' i h =
      found-Adds n t t' i (search_slot-Adds n (client_alloc t) t' i) (free_slot t.clients) refl h

  started-Adds :
      (empty : Bool) (t t' : Table) (i : ℕ)
      → search_slot 2 fd work dead (if empty then client_alloc t else t) ≡ some (i, t')
      → Adds (new_client fd work dead) t t' i
  started-Adds true t t' i h = client_alloc-Adds t t' i (search_slot-Adds 2 (client_alloc t) t' i h)
  started-Adds false t t' i h = search_slot-Adds 2 t t' i h

  pub client_add-Adds :
      (t t' : Table) (i : ℕ)
      → client_add fd work dead t ≡ some (i, t')
      → Adds (new_client fd work dead) t t' i
  unfolding client_add
  client_add-Adds t t' i h = started-Adds (is_empty t.clients) t t' i h

  search_slot-found :
      (n : ℕ) (t : Table) {i : ℕ}
      → free_slot t.clients ≡ some i
      → search_slot (suc n) fd work dead t ≡ some (fill_slot fd work dead i t)
  unfolding search_slot fill_slot
  search_slot-found n t h = rw (h, search_slot) refl

  search_slot-full :
      (n : ℕ) (t : Table)
      → free_slot t.clients ≡ none
      → search_slot (suc n) fd work dead t ≡ search_slot n fd work dead (client_alloc t)
  unfolding search_slot
  search_slot-full n t h = rw (h, search_slot) refl

  search_slot-some : (t : Table) → (r : ℕ × Table) × (search_slot 2 fd work dead t ≡ some r)
  unfolding client_alloc
  search_slot-some t = elim (Option-cases (free_slot t.clients)) [
    | inr (i, e) ↦ (fill_slot fd work dead i t, search_slot-found 1 t e)
    | inl e ↦
        let (i, found) = free_slot-append t.clients 31 in
        (
          fill_slot fd work dead i (client_alloc t),
          search_slot-full 1 t e ∙ search_slot-found 0 (client_alloc t) found,
        )
  ]

  -- Two searches are enough.
  pub client_add-some : (t : Table) → (r : ℕ × Table) × (client_add fd work dead t ≡ some r)
  unfolding client_add
  client_add-some t = search_slot-some (if is_empty t.clients then client_alloc t else t)
