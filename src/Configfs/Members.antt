-- ===== src/Configfs/Members.antt =====
-- group/dlm_controld/action.c: set_configfs_members.
use dlm.Base.{ℕ, Bool, true, false, not, ◌&&◌, none, some, List, [], ◌∷◌, if◌then◌else◌, is_empty}
use dlm.Configfs.Files.{space, space_node, nodeid, weight, number, Files, id_exists}
use dlm.Configfs.Weight.{get_weight}
use dlm.Configfs.Nodes.{
  NodesEnv, Cluster, has_member, and_then, on_files, create_path, update_cluster,
}

module _ (F : Files) where
  -- The loop over `old_members`.
  unfoldable pub remove_members : List ℕ → List ℕ → List ℕ → F.State → Bool × F.State
  unfolding id_exists
  remove_members name new [] s = (true, s)
  remove_members name new (id ∷ rest) s =
      and_then (if id_exists id new then (true, s) else F.rmdir (space_node name id) s)
        (remove_members name new rest)

  -- The stages of a round of the loop over `new_members`, the last first: the weight and the nodeid
  -- of a node, and its directory.
  unfoldable pub set_weight : NodesEnv → List ℕ → ℕ → F.State → Bool × F.State
  unfolding get_weight
  set_weight env name id = F.write (space_node name id) weight (number (get_weight env.ccs id name))

  unfoldable pub set_member_id : NodesEnv → List ℕ → ℕ → F.State → Bool × F.State
  unfolding set_weight
  set_member_id env name id s =
      and_then (F.write (space_node name id) nodeid (number id) s) (set_weight env name id)

  unfoldable pub make_dir : NodesEnv → List ℕ → ℕ → F.State → Bool × F.State
  unfolding create_path set_member_id
  make_dir env name id s =
      and_then (create_path F (space_node name id) s) (set_member_id env name id)

  unfoldable pub make_node : NodesEnv → List ℕ → ℕ → Bool → F.State → Bool × F.State
  unfolding make_dir
  make_node env name id do_renew s =
      and_then (if do_renew then F.rmdir (space_node name id) s else (true, s))
        (make_dir env name id)

  -- A new member, or one that has left and joined again.
  unfoldable pub add_node : NodesEnv → List ℕ → ℕ → Bool → Cluster F → Bool × Cluster F
  unfolding make_node has_member update_cluster
  add_node env name id do_renew c =
      on_files F (make_node env name id do_renew)
        (if has_member c.quorum_nodes id then c else update_cluster F env c)

  -- The loop over `new_members`.
  unfoldable pub add_new_members :
      NodesEnv → List ℕ → List ℕ → List ℕ → List ℕ → Cluster F → Bool × Cluster F
  unfolding add_node id_exists
  add_new_members env name old renew [] c = (true, c)
  add_new_members env name old renew (id ∷ rest) c =
      and_then
        (if not (id_exists id renew) && id_exists id old
          then (true, c)
          else add_node env name id (id_exists id renew) c)
        (add_new_members env name old renew rest)

  -- `set_configfs_members` behind its first loop: a directory that has no members left is removed.
  unfoldable pub add_new :
      NodesEnv → List ℕ → List ℕ → List ℕ → List ℕ → Cluster F → Bool × Cluster F
  unfolding add_new_members
  add_new env name new renew old c =
      add_new_members env name old renew new
        (if is_empty new then record c { files = (F.rmdir (space name) c.files).1 } else c)

  -- `set_configfs_members` from `update_dir_members` on.
  unfoldable pub change_nodes : NodesEnv → List ℕ → List ℕ → List ℕ → Cluster F → Bool × Cluster F
  unfolding remove_members add_new
  change_nodes env name new renew c = elim (F.nodes name c.files) [
    | none ↦ (false, c)
    | some old ↦
        and_then (on_files F (remove_members name new old) c) (add_new env name new renew old)
  ]

  -- `set_configfs_members`; `false` is the result -1.
  unfoldable pub set_configfs_members :
      NodesEnv → List ℕ → List ℕ → List ℕ → Cluster F → Bool × Cluster F
  unfolding create_path change_nodes
  set_configfs_members env name new renew c =
      and_then
        (if F.path_exists (space name) c.files
          then (true, c)
          else on_files F (create_path F (space name)) c)
        (change_nodes env name new renew)
