-- ===== src/Daemon/Clients.antt =====
-- group/dlm_controld/main.c: the table of the descriptors that are polled.
use dlm.Base.{ℕ, zero, suc, Option, none, some, List, [], ◌∷◌, ◌++◌, ltb, if◌then◌else◌, is_empty}

-- The functions that are called for a client (`workfn`), and when it is dead (`deadfn`).
pub data Work : Type 0 where
  process_listener process_connection process_uevent process_lockspace_cpg other_work : Work

pub data Dead : Type 0 where
  client_dead_fn cluster_dead_fn : Dead

-- `struct client` with its `struct pollfd`; `none` is -1 for a descriptor, and NULL for a function.
pub record Client : Type 0 where
  pub fd : Option ℕ
  pub work : Option Work
  pub dead : Option Dead
  pub polled : Option ℕ

-- `client`, `pollfd` and `client_size`, with `client_maxi`.
pub record Table : Type 0 where
  pub clients : List Client
  pub maxi : ℕ

abbrev pub blank : Client
blank = record { fd = none; work = none; dead = none; polled = none }

abbrev pub blanks : ℕ → List Client
blanks zero = []
blanks (suc n) = blank ∷ blanks n

-- `client_alloc`, which ends the program if it fails.
unfoldable pub client_alloc : Table → Table
client_alloc t = record t { clients = t.clients ++ blanks 32 }

-- Slot i of the table.
unfoldable pub slot : List Client → ℕ → Option Client
slot [] i = none
slot (c ∷ rest) zero = some c
slot (c ∷ rest) (suc i) = slot rest i

unfoldable pub change_slot : (Client → Client) → ℕ → List Client → List Client
change_slot f i [] = []
change_slot f zero (c ∷ rest) = f c ∷ rest
change_slot f (suc i) (c ∷ rest) = c ∷ change_slot f i rest

-- `client_dead`
unfoldable pub client_dead : ℕ → Table → Table
unfolding change_slot
client_dead ci t = record t {
  clients = change_slot (λ c. record c { fd = none; work = none; polled = none }) ci t.clients;
}

-- The loop of `client_add`: the first slot with descriptor -1.
unfoldable pub free_slot : List Client → Option ℕ
free_slot [] = none
free_slot (c ∷ rest) = elim c.fd [
  | none ↦ some 0
  | some fd ↦ elim (free_slot rest) [ none ↦ none | some i ↦ some (suc i) ]
]

abbrev pub dead_or : Option Dead → Dead
dead_or none = client_dead_fn
dead_or (some d) = d

unfoldable pub fill_slot : ℕ → Work → Option Dead → ℕ → Table → ℕ × Table
unfolding change_slot
fill_slot fd work dead i t = (
  i,
  record t {
    clients =
        change_slot
          (λ _. record {
            fd = some fd;
            work = some work;
            dead = some (dead_or dead);
            polled = some fd;
          })
          i t.clients;
    maxi = if ltb t.maxi i then i else t.maxi;
  },
)

-- `client_add` from the label `again`, which is reached again after an allocation. The fuel is the
-- number of searches.
unfoldable pub search_slot : ℕ → ℕ → Work → Option Dead → Table → Option (ℕ × Table)
unfolding free_slot fill_slot client_alloc
search_slot zero fd work dead t = none
search_slot (suc n) fd work dead t = elim (free_slot t.clients) [
  | some i ↦ some (fill_slot fd work dead i t)
  | none ↦ search_slot n fd work dead (client_alloc t)
]

-- `client_add`: a table with slots needs two searches at most.
unfoldable pub client_add : ℕ → Work → Option Dead → Table → Option (ℕ × Table)
unfolding search_slot client_alloc
client_add fd work dead t =
    search_slot 2 fd work dead (if is_empty t.clients then client_alloc t else t)

-- `client_ignore` and `client_back`
unfoldable pub client_ignore : ℕ → Table → Table
unfolding change_slot
client_ignore ci t = record t {
  clients = change_slot (λ c. record c { polled = none }) ci t.clients;
}

unfoldable pub client_back : ℕ → ℕ → Table → Table
unfolding change_slot
client_back ci fd t = record t {
  clients = change_slot (λ c. record c { polled = some fd }) ci t.clients;
}
