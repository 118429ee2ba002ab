-- ===== src/Group/Start.antt =====
-- group/dlm_controld/cpg.c: start messages, and the message that a checkpoint of plocks is stored.
use dlm.Base.{
  ℕ, Bool, true, false, not, ◌&&◌, ◌||◌, Option, none, some, List, [], ◌∷◌, ◌==◌, if◌then◌else◌,
  is_empty, map,
}
use dlm.Plock.Wire.{le32}
use dlm.Plock.Sync.{process_saved_plocks}
use dlm.Plock.Checkpoint.{retrieve_plocks}
use dlm.Group.Types.{
  Member, Change, LsInfo, Message, GroupEnv, GroupWorld, Space, find_member, change_member,
}
use dlm.Group.History.{node_history_start}

-- `ls_info_in`; on either machine `cpu_to_le32` is the same function.
unfoldable pub ls_info_in : Bool → LsInfo → LsInfo
ls_info_in big li = record {
  ls_info_size = le32 big li.ls_info_size;
  id_info_size = le32 big li.id_info_size;
  id_info_count = le32 big li.id_info_count;
  started_count = le32 big li.started_count;
  member_count = le32 big li.member_count;
  joined_count = le32 big li.joined_count;
  remove_count = le32 big li.remove_count;
  failed_count = le32 big li.failed_count;
}

unfoldable pub ids_in : Bool → List ℕ → List ℕ
ids_in big = map (le32 big)

-- `get_id_struct` finds an entry.
unfoldable pub get_id_struct : List ℕ → ℕ → Bool
get_id_struct [] nodeid = false
get_id_struct (id ∷ rest) nodeid = id == nodeid || get_id_struct rest nodeid

-- `find_memb` finds a member.
unfoldable pub is_member : List Member → ℕ → Bool
unfolding find_member
is_member members nodeid = elim (find_member members nodeid) [ none ↦ false | some m ↦ true ]

-- The loop of `match_change`: all entries are members.
unfoldable pub all_members : List Member → List ℕ → Bool
unfolding is_member
all_members members [] = true
all_members members (id ∷ rest) = is_member members id && all_members members rest

abbrev pub same_counts : LsInfo → Change → Bool
same_counts li cg =
    li.member_count == cg.member_count
    && (li.joined_count == cg.joined_count
        && (li.remove_count == cg.remove_count && li.failed_count == cg.failed_count))

unfoldable pub match_change : ℕ → ℕ → LsInfo → List ℕ → Change → Bool
unfolding get_id_struct is_member all_members
match_change our_nodeid from li ids cg =
    if not (get_id_struct ids our_nodeid)
    then false
    else if not (is_member cg.members from)
    then false
    else if not (same_counts li cg)
    then false
    else all_members cg.members ids

-- The loop of `find_change`, from the end of the list.
unfoldable pub find_change : (Change → Bool) → List Change → Option Change
find_change matches [] = none
find_change matches (cg ∷ rest) = elim (find_change matches rest) [
  | some found ↦ some found
  | none ↦ if matches cg then some cg else none
]

-- Writes to the change that `find_change` finds.
unfoldable pub change_found : (Change → Bool) → (Change → Change) → List Change → List Change
unfolding find_change
change_found matches f [] = []
change_found matches f (cg ∷ rest) = elim (find_change matches rest) [
  | some found ↦ cg ∷ change_found matches f rest
  | none ↦ if matches cg then f cg ∷ rest else cg ∷ rest
]

unfoldable pub is_added : List Change → ℕ → Bool
unfolding find_member
is_added [] nodeid = false
is_added (cg ∷ rest) nodeid = elim (find_member cg.members nodeid) [
  | none ↦ is_added rest nodeid
  | some memb ↦ memb.added || is_added rest nodeid
]

-- The writes of `receive_start` to the sender's member.
abbrev pub mark_disallowed : Message → Member → Member
mark_disallowed hd memb = record memb { start_flags = hd.flags; disallowed = true }

abbrev pub mark_started : Message → Member → Member
mark_started hd memb = record memb { start_flags = hd.flags; start = true }

abbrev pub change_sender : (Member → Member) → ℕ → Change → Change
change_sender f from cg = record cg { members = change_member f from cg.members }

unfoldable pub receive_start : GroupEnv → Space → Message → LsInfo → List ℕ → Space
receive_start env ls hd li ids =
    let li' = ls_info_in env.plock.big_endian li in
    let matches =
      match_change env.plock.our_nodeid hd.nodeid li' (ids_in env.plock.big_endian ids) in
    elim (find_change matches ls.changes) [
      | none ↦ ls
      | some cg ↦
          if not (is_member cg.members hd.nodeid)
          then ls
          else if is_added ls.changes hd.nodeid && not (li'.started_count == 0)
          then record ls {
            changes =
                change_found matches (change_sender (mark_disallowed hd) hd.nodeid) ls.changes;
          }
          else record ls {
            changes = change_found matches (change_sender (mark_started hd) hd.nodeid) ls.changes;
            node_history = node_history_start env.plock.time hd.nodeid ls.node_history;
          }
    ]

-- The end of `receive_plocks_stored`: the checkpoint and the saved messages are read.
unfoldable pub read_plocks : GroupEnv → Space → GroupWorld → Space × GroupWorld
read_plocks env ls w =
    let (fs, mem) = retrieve_plocks env.plock env.garbage env.checkpoint ls.plocks w.plock.mem in
    let (fs', w') = process_saved_plocks env.plock fs (record (w.plock) { mem = mem }) in
    (
      record ls { plocks = record fs' { save_plocks = false }; need_plocks = false },
      record w { plock = w' },
    )

unfoldable pub receive_plocks_stored :
    GroupEnv → Space → GroupWorld → Message → LsInfo → List ℕ → Space × GroupWorld
receive_plocks_stored env ls w hd li ids =
    if not ls.need_plocks
    then (ls, w)
    else if not (is_empty ls.changes)
    then (ls, w)
    else elim ls.started_change [
      | none ↦ (ls, w)
      | some cg ↦
          if match_change env.plock.our_nodeid hd.nodeid (ls_info_in env.plock.big_endian li)
            (ids_in env.plock.big_endian ids) cg
          then read_plocks env ls w
          else (ls, w)
    ]
