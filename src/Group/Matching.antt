-- ===== src/Group/Matching.antt =====
-- group/dlm_controld/cpg.c: which change a message is for.
use dlm.Base.{
  suc, ℕ, ◌+◌, ◌<◌, ◌≡◌, ◌≢◌, ◌↔◌, refl, sym, ap, ◌∙◌, Bool, true, false, ◌&&◌, List, [], ◌∷◌, ◌==◌,
  if◌then◌else◌, length, All, arith, Bool-cases, inl, inr, ==→eq,
}
use dlm.Plock.Wire.{le32_twice}
use dlm.Group.Types.{Member, Change, LsInfo, Space, find_member}
use dlm.Group.Start.{
  ls_info_in, ids_in, get_id_struct, is_member, all_members, same_counts, match_change,
}
use dlm.Group.Changes.{nodeids, info_of}

-- No number occurs twice.
abbrev pub Distinct : List ℕ → Type 0
Distinct [] = Unit
Distinct (x ∷ xs) = (get_id_struct xs x ≡ false) × Distinct xs

take_out : ℕ → List ℕ → List ℕ
take_out x [] = []
take_out x (y ∷ ys) = if y == x then ys else y ∷ take_out x ys

take_out-length :
    (x : ℕ) (ys : List ℕ) → get_id_struct ys x ≡ true → length ys ≡ length (take_out x ys) + 1
unfolding get_id_struct take_out
take_out-length x [] h = ground arith
take_out-length x (y ∷ ys) h = ground (arith, take_out-length x ys)

take_out-other :
    (x z : ℕ) (ys : List ℕ)
    → z ≢ x
    → get_id_struct ys z ≡ true
    → get_id_struct (take_out x ys) z ≡ true
unfolding get_id_struct take_out
take_out-other x z [] k h = h
take_out-other x z (y ∷ ys) k h = ground (arith, take_out-other x z ys k)

-- `get_id_struct` finds the number.
abbrev pub In : List ℕ → ℕ → Type 0
In ys z = get_id_struct ys z ≡ true

All-take_out :
    (x : ℕ) (xs ys : List ℕ)
    → get_id_struct xs x ≡ false
    → All (In ys) xs
    → All (In (take_out x ys)) xs
unfolding get_id_struct
All-take_out x [] ys f h = tt
All-take_out x (z ∷ xs) ys f h =
    (take_out-other x z ys (ground arith) h.0, All-take_out x xs ys (ground arith) h.1)

-- As many distinct numbers as the list is long are all of it.
all_of_it :
    (xs ys : List ℕ)
    → Distinct xs
    → All (In ys) xs
    → length ys ≡ length xs
    → (z : ℕ) → In ys z
    → In xs z
unfolding get_id_struct
all_of_it [] [] d h e z k = k
all_of_it [] (y ∷ ys) d h e z k = ground arith
all_of_it (x ∷ xs) ys d h e z k = elim (Bool-cases (x == z)) [
  | inl same ↦ rw (same, get_id_struct) refl
  | inr other ↦
      let cut = take_out-length x ys h.0 in
      rw (other, get_id_struct)
        (all_of_it xs (take_out x ys) d.1 (All-take_out x xs ys d.0 h.1) (omega (arith, cut, e)) z
          (take_out-other x z ys (ground arith) k))
]

is_member-nodeids : (ms : List Member) (n : ℕ) → is_member ms n ≡ get_id_struct (nodeids ms) n
unfolding is_member find_member get_id_struct
is_member-nodeids [] n = refl
is_member-nodeids (m ∷ rest) n = ground (arith, is_member-nodeids rest n)

both : (a b : Bool) → (a && b) ≡ true → (a ≡ true) × (b ≡ true)
both a b h = ground arith

all_members-All :
    (ms : List Member) (ids : List ℕ) → all_members ms ids ≡ true ↔ All (In (nodeids ms)) ids
unfolding all_members
all_members-All ms [] = (λ h. tt, λ h. refl)
all_members-All ms (id ∷ rest) =
    let same = is_member-nodeids ms id in
    let tail = all_members-All ms rest in
    (
      λ h.
          let (here, later) = both (is_member ms id) (all_members ms rest) h in
          (sym same ∙ here, tail.0 later),
      λ h. rw (same, h.0, tail.1 h.1) refl,
    )

-- The sizes and the members fit 32-bit fields.
pub record FitsInfo (li : LsInfo) (ids : List ℕ) : Type 0 where
  pub sizes :
      (li.ls_info_size < 4294967296)
      × (li.id_info_size < 4294967296)
      × (li.id_info_count < 4294967296)
  pub started_count : li.started_count < 4294967296
  pub member_count : li.member_count < 4294967296
  pub joined_count : li.joined_count < 4294967296
  pub remove_count : li.remove_count < 4294967296
  pub failed_count : li.failed_count < 4294967296
  pub ids_fit : All (λ n. n < 4294967296) ids

pub ls_info_in_twice :
    (big : Bool) (li : LsInfo) (ids : List ℕ)
    → FitsInfo li ids
    → ls_info_in big (ls_info_in big li) ≡ li
unfolding ls_info_in
ls_info_in_twice big li ids h = λ j. record {
  ls_info_size = le32_twice big li.ls_info_size h.sizes.0 j;
  id_info_size = le32_twice big li.id_info_size h.sizes.1 j;
  id_info_count = le32_twice big li.id_info_count h.sizes.2 j;
  started_count = le32_twice big li.started_count h.started_count j;
  member_count = le32_twice big li.member_count h.member_count j;
  joined_count = le32_twice big li.joined_count h.joined_count j;
  remove_count = le32_twice big li.remove_count h.remove_count j;
  failed_count = le32_twice big li.failed_count h.failed_count j;
}

pub ids_in_twice :
    (big : Bool) (ids : List ℕ) → All (λ n. n < 4294967296) ids → ids_in big (ids_in big ids) ≡ ids
unfolding ids_in
ids_in_twice big [] h = refl
ids_in_twice big (id ∷ rest) h = λ j. le32_twice big id h.0 j ∷ ids_in_twice big rest h.1 j

-- The changes of two nodes are for the same change of the group: they have the same counts and the
-- same members, among them this node and the sender.
pub record IsSameChange (our_nodeid from : ℕ) (theirs ours : Change) : Type 0 where
  pub counts :
      (theirs.member_count ≡ ours.member_count)
      × (theirs.joined_count ≡ ours.joined_count)
      × (theirs.remove_count ≡ ours.remove_count)
      × (theirs.failed_count ≡ ours.failed_count)
  pub members : (n : ℕ) → is_member theirs.members n ≡ is_member ours.members n
  pub our_member : is_member ours.members our_nodeid ≡ true
  pub sender : is_member ours.members from ≡ true

match_parts :
    (our_nodeid from : ℕ) (li : LsInfo) (ids : List ℕ) (cg : Change)
    → (match_change our_nodeid from li ids cg ≡ true) ↔ (
        In ids our_nodeid
        × (is_member cg.members from ≡ true)
        × (same_counts li cg ≡ true)
        × (all_members cg.members ids ≡ true))
unfolding match_change
match_parts our_nodeid from li ids cg = (λ h. ground arith, λ h. ground arith)

Bool-same : (a b : Bool) → (a ≡ true → b ≡ true) → (b ≡ true → a ≡ true) → a ≡ b
Bool-same true b h k = sym (h refl)
Bool-same false true h k = k refl
Bool-same false false h k = refl

same_counts-parts :
    (ls : Space) (theirs ours : Change)
    → (same_counts (info_of ls theirs) ours ≡ true) ↔ (
        (theirs.member_count ≡ ours.member_count)
        × (theirs.joined_count ≡ ours.joined_count)
        × (theirs.remove_count ≡ ours.remove_count)
        × (theirs.failed_count ≡ ours.failed_count))
same_counts-parts ls theirs ours = (λ h. ground arith, λ h. ground arith)

pub length-nodeids : (ms : List Member) → length (nodeids ms) ≡ length ms
length-nodeids [] = refl
length-nodeids (m ∷ rest) = ap suc (length-nodeids rest)

All-In : (ids ys : List ℕ) → ((n : ℕ) → In ids n → In ys n) → All (In ys) ids
unfolding get_id_struct
All-In [] ys h = tt
All-In (id ∷ rest) ys h = (h id (ground arith), All-In rest ys (λ n k. h n (ground arith)))

All-In-member : (ids ys : List ℕ) → All (In ys) ids → (n : ℕ) → In ids n → In ys n
unfolding get_id_struct
All-In-member [] ys h n k = ground arith
All-In-member (id ∷ rest) ys h n k = elim (Bool-cases (id == n)) [
  | inl e ↦ ap (get_id_struct ys) (sym (==→eq id n e)) ∙ h.0
  | inr e ↦ All-In-member rest ys h.1 n (ground arith)
]

module _ (our_nodeid from : ℕ) (ls : Space) (theirs ours : Change) where
  plain_match :
      Distinct (nodeids theirs.members)
      → theirs.member_count ≡ length theirs.members
      → ours.member_count ≡ length ours.members
      → (match_change our_nodeid from (info_of ls theirs) (nodeids theirs.members) ours ≡ true)
        ↔ IsSameChange our_nodeid from theirs ours
  plain_match d m m' =
      let parts = match_parts our_nodeid from (info_of ls theirs) (nodeids theirs.members) ours in
      let counts = same_counts-parts ls theirs ours in
      let within = all_members-All ours.members (nodeids theirs.members) in
      let theirs_in = is_member-nodeids theirs.members in
      let ours_in = is_member-nodeids ours.members in
      (
        λ h.
            let p = parts.0 h in
            let c = counts.0 (p.2) in
            let sub = within.0 (p.3) in
            let back = all_of_it (nodeids theirs.members) (nodeids ours.members) d sub (
              length-nodeids ours.members
              ∙ sym m'
              ∙ sym c.0
              ∙ m
              ∙ sym (length-nodeids theirs.members)) in
            let forth = All-In-member (nodeids theirs.members) (nodeids ours.members) sub in
            record {
              counts = c;
              members = λ n. theirs_in n ∙ Bool-same _ _ (forth n) (back n) ∙ sym (ours_in n);
              our_member = ours_in our_nodeid ∙ forth our_nodeid p.0;
              sender = p.1;
            },
        λ h. parts.1 (
          sym (theirs_in our_nodeid) ∙ h.members our_nodeid ∙ h.our_member,
          h.sender,
          counts.1 h.counts,
          within.1 (
              All-In (nodeids theirs.members) (nodeids ours.members)
                (λ n k. sym (ours_in n) ∙ sym (h.members n) ∙ theirs_in n ∙ k)),
        ),
      )

  -- Take the message of a node about its change, with distinct members and counts and node
  -- numbers that fit 32 bits, written and read in one byte order, and a change of the receiver,
  -- where the member counts of both are the lengths of their lists. The message matches the
  -- change exactly when both have the same four counts and the same members, in any order, and
  -- the receiver and the sender are members.
  pub match_change-IsSameChange :
      (big : Bool)
      → FitsInfo (info_of ls theirs) (nodeids theirs.members)
      → Distinct (nodeids theirs.members)
      → theirs.member_count ≡ length theirs.members
      → ours.member_count ≡ length ours.members
      → let li = ls_info_in big (ls_info_in big (info_of ls theirs)) in
        let ids = ids_in big (ids_in big (nodeids theirs.members)) in
        (match_change our_nodeid from li ids ours ≡ true) ↔ IsSameChange our_nodeid from theirs ours
  match_change-IsSameChange big h d m m' =
      rw
        (
          ls_info_in_twice big (info_of ls theirs) (nodeids theirs.members) h,
          ids_in_twice big (nodeids theirs.members) h.ids_fit,
        )
        (plain_match d m m')
