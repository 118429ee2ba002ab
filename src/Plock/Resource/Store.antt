-- ===== src/Plock/Resource/Store.antt =====
-- The resource table of group/dlm_controld/plock.c as a map from numbers to resources.
use dlm.Base.{
  ℕ, ◌≡◌, ◌≢◌, ◌⊎◌, refl, sym, ◌∙◌, true, Option, none, some, List, [], ◌∷◌, ◌++◌, ◌==◌,
  if◌then◌else◌, arith, Bool-cases, inl, inr, All, All-append, ==→eq, eq→==, ne→==,
}
use mathlib.Core.Path.{subst}
use mathlib.Core.Option.{some-injective}
use dlm.Plock.Types.{Resource, Env}
use dlm.Plock.Resource.{search_resource, store, Found, find_resource, new_resource}

-- No two resources have one number.
abbrev pub Unique : List Resource → Type 0
Unique [] = Unit {0}
Unique (r ∷ rest) = (search_resource rest r.number ≡ none) × Unique rest

-- What a handler leaves in the place of resource `n` still has that number.
abbrev pub Keeps : ℕ → Option Resource → Type 0
Keeps n none = Unit {0}
Keeps n (some r) = r.number ≡ n

pub search-number :
    (rs : List Resource) (n : ℕ) (r : Resource) → search_resource rs n ≡ some r → r.number ≡ n
unfolding search_resource
search-number [] n r h = cc
search-number (x ∷ rs) n r h = ground (arith, search-number rs n r)

-- A write at a number that is in the table changes the table there only.
pub search-store :
    (rs : List Resource) (n : ℕ) (found : Option Resource) (old : Resource) (m : ℕ)
    → Unique rs
    → Keeps n found
    → search_resource rs n ≡ some old
    → search_resource (store n found rs) m ≡ (if n == m then found else search_resource rs m)
unfolding search_resource store
search-store [] n found old m u k h = cc
search-store (x ∷ rs) n none old m u k h = ground (arith, search-store rs n none old m u.1 k, u.0)
search-store (x ∷ rs) n (some r) old m u k h =
    ground (arith, search-store rs n (some r) old m u.1 k, u.0, k)

pub search-append :
    (rs : List Resource) (r : Resource) (m : ℕ)
    → search_resource rs r.number ≡ none
    → search_resource (rs ++ r ∷ []) m ≡ (if r.number == m then some r else search_resource rs m)
unfolding search_resource
search-append [] r m h = refl
search-append (x ∷ rs) r m h = ground (arith, search-append rs r m)

append-Unique :
    (rs : List Resource) (r : Resource)
    → Unique rs
    → search_resource rs r.number ≡ none
    → Unique (rs ++ r ∷ [])
unfolding search_resource
append-Unique [] r u h = (refl, tt)
append-Unique (x ∷ rs) r u h =
    ground (arith, u, append-Unique rs r u.1, search-append rs r x.number)

store-absent :
    (rs : List Resource) (n : ℕ) (found : Option Resource) (m : ℕ)
    → Keeps n found
    → n ≢ m
    → search_resource rs m ≡ none
    → search_resource (store n found rs) m ≡ none
unfolding store search_resource
store-absent [] n found m k d h = refl
store-absent (x ∷ rs) n none m k d h = ground (arith, store-absent rs n none m k d)
store-absent (x ∷ rs) n (some r) m k d h = ground (arith, k, store-absent rs n (some r) m k d)

pub store-Unique :
    (rs : List Resource) (n : ℕ) (found : Option Resource)
    → Unique rs
    → Keeps n found
    → Unique (store n found rs)
unfolding store
store-Unique [] n found u k = tt
store-Unique (x ∷ rs) n none u k = elim (Bool-cases (x.number == n)) [
  | inl e ↦ rw e u.1
  | inr e ↦
      rw e
        (store-absent rs n none x.number tt (λ h. ground arith) u.0, store-Unique rs n none u.1 tt)
]
store-Unique (x ∷ rs) n (some r) u k = elim (Bool-cases (x.number == n)) [
  | inl e ↦ rw e (rw (k ∙ sym (==→eq x.number n e)) u.0, u.1)
  | inr e ↦ rw e (
    store-absent rs n (some r) x.number k (λ h. ground arith) u.0,
    store-Unique rs n (some r) u.1 k,
  )
]

-- A property of all resources is kept when what a handler leaves has it.
abbrev pub LeavesAll {κ} : (Resource → Type κ) → Option Resource → Type κ
LeavesAll P none = Unit
LeavesAll P (some r) = P r

pub store-All {κ} :
    (P : Resource → Type κ) (rs : List Resource) (n : ℕ) (found : Option Resource)
    → All P rs
    → LeavesAll P found
    → All P (store n found rs)
unfolding store
store-All P [] n found h k = tt
store-All P (x ∷ rs) n none h k = elim (Bool-cases (x.number == n)) [
  | inl e ↦ rw e h.1
  | inr e ↦ rw e (h.0, store-All P rs n none h.1 k)
]
store-All P (x ∷ rs) n (some r) h k = elim (Bool-cases (x.number == n)) [
  | inl e ↦ rw e (k, h.1)
  | inr e ↦ rw e (h.0, store-All P rs n (some r) h.1 k)
]

pub search-All {κ} :
    (P : Resource → Type κ) (rs : List Resource) (n : ℕ) (r : Resource)
    → All P rs
    → search_resource rs n ≡ some r
    → P r
unfolding search_resource
search-All P [] n r h e = cc
search-All P (x ∷ rs) n r h e = elim (Bool-cases (x.number == n)) [
  | inl hit ↦ subst P (some-injective x r (rw hit at e)) h.0
  | inr miss ↦ search-All P rs n r h.1 (rw miss at e)
]

-- What `find_resource` gives when it finds or may create the resource, and has memory: the
-- resource, in a table that holds no other new one.
pub record IsFound (P : Resource → Type 0) (env : Env) (rs : List Resource) (n : ℕ) (found : Found)
    : Type 0 where
  pub resource : Resource
  pub is_some : found.resource ≡ some resource
  pub number : resource.number ≡ n
  pub held : search_resource found.resources n ≡ some resource
  pub others : (m : ℕ) → n ≢ m → search_resource found.resources m ≡ search_resource rs m
  pub unique : Unique found.resources
  pub all : All P found.resources
  pub mem : found.mem ≡ []
  pub origin :
      ((old : Resource) × (search_resource rs n ≡ some old)
        × (resource ≡ record old { last_access = env.now }))
      ⊎ ((search_resource rs n ≡ none) × (resource ≡ new_resource env n))

pub find_resource-IsFound :
    (P : Resource → Type 0) (env : Env) (rs : List Resource) (n : ℕ)
    → Unique rs
    → All P rs
    → ((r : Resource) → P r → P (record r { last_access = env.now }))
    → P (new_resource env n)
    → IsFound P env rs n (find_resource env true n rs [])
unfolding find_resource
find_resource-IsFound P env rs n u h touch new = go (search_resource rs n) refl
  where
    go :
        (s : Option Resource)
        → search_resource rs n ≡ s
        → IsFound P env rs n (find_resource env true n rs [])
    go none e =
        rw (e, find_resource)
          (record {
            resource = new_resource env n;
            is_some = refl;
            number = refl;
            held = search-append rs (new_resource env n) n e ∙ rw (eq→== n n refl);
            others = λ m d. search-append rs (new_resource env n) m e ∙ rw (ne→== n m d);
            unique = append-Unique rs (new_resource env n) u e;
            all = All-append P rs _ h (new, tt);
            mem = refl;
            origin = inr (e, refl);
          })
    go (some old) e =
        let r = record old { last_access = env.now } in
        let k : Keeps n (some r) = search-number rs n old e in
        rw (e, find_resource)
          (record {
            resource = r;
            is_some = refl;
            number = k;
            held = search-store rs n (some r) old n u k e ∙ rw (eq→== n n refl);
            others = λ m d. search-store rs n (some r) old m u k e ∙ rw (ne→== n m d);
            unique = store-Unique rs n (some r) u k;
            all = store-All P rs n (some r) h (touch old (search-All P rs n old h e));
            mem = refl;
            origin = inl (old, e, refl);
          })
