-- ===== src/Configfs/Cleanup.antt =====
-- group/dlm_controld/action.c: what is left in configfs from before, and the start of the daemon.
use dlm.Base.{ℕ, Bool, true, false, not, none, some, List, [], ◌∷◌, if◌then◌else◌}
use dlm.Configfs.Files.{
  DirPath, config_dir, dlm_dir, cluster_dir, space, space_node, comm, File, protocol, timewarn_cs,
  log_debug, number, Files,
}
use dlm.Configfs.Weight.{ℤ, pos, negsuc}
use dlm.Configfs.Nodes.{NodesEnv, Cluster, create_path, update_cluster}

module _ (F : Files) where
  -- `rmdir` of one directory after the other; errors are only logged.
  unfoldable pub remove_all : List DirPath → F.State → F.State
  remove_all [] s = s
  remove_all (p ∷ rest) s = remove_all rest (F.rmdir p s).1

  abbrev pub comm_dirs : List ℕ → List DirPath
  comm_dirs [] = []
  comm_dirs (id ∷ rest) = comm id ∷ comm_dirs rest

  abbrev pub node_dirs : List ℕ → List ℕ → List DirPath
  node_dirs name [] = []
  node_dirs name (id ∷ rest) = space_node name id ∷ node_dirs name rest

  unfoldable pub clear_configfs_comms : F.State → F.State
  unfolding remove_all
  clear_configfs_comms s = elim (F.comms s) [ none ↦ s | some ids ↦ remove_all (comm_dirs ids) s ]

  unfoldable pub clear_configfs_space_nodes : List ℕ → F.State → F.State
  unfolding remove_all
  clear_configfs_space_nodes name s = elim (F.nodes name s) [
    | none ↦ s
    | some ids ↦ remove_all (node_dirs name ids) s
  ]

  -- The loop of `clear_configfs_spaces`, over the names in the directory.
  unfoldable pub clear_spaces : List (List ℕ) → F.State → F.State
  unfolding clear_configfs_space_nodes
  clear_spaces [] s = s
  clear_spaces (name ∷ rest) s =
      clear_spaces rest (F.rmdir (space name) (clear_configfs_space_nodes name s)).1

  unfoldable pub clear_configfs_spaces : F.State → F.State
  unfolding clear_spaces
  clear_configfs_spaces s = elim (F.spaces s) [ none ↦ s | some names ↦ clear_spaces names s ]

  unfoldable pub clear_configfs : F.State → F.State
  unfolding clear_configfs_comms clear_configfs_spaces
  clear_configfs s = (F.rmdir cluster_dir (clear_configfs_spaces (clear_configfs_comms s))).1

  unfoldable pub add_configfs_base : F.State → Bool × F.State
  unfolding create_path
  add_configfs_base s =
      if not (F.path_exists config_dir s)
      then (false, s)
      else if not (F.path_exists dlm_dir s)
      then (false, s)
      else if F.path_exists cluster_dir s
      then (true, s)
      else create_path F cluster_dir s

  -- `set_configfs_debug`, `set_configfs_timewarn` and `set_configfs_protocol`, which are called for
  -- a value other than -1. No other negative value is configured.
  unfoldable pub set_cluster_file : File → ℤ → F.State → F.State
  set_cluster_file f (pos v) s = (F.write cluster_dir f (number v) s).1
  set_cluster_file f (negsuc v) s = s

  -- `setup_configfs`, with `cfgk_debug`, `cfgk_timewarn` and `cfgk_protocol`.
  unfoldable pub setup_configfs : NodesEnv → ℤ → ℤ → ℤ → Cluster F → Bool × Cluster F
  unfolding clear_configfs add_configfs_base update_cluster set_cluster_file
  setup_configfs env debug timewarn proto c =
      let (ok, s) = add_configfs_base (clear_configfs c.files) in
      if not ok
      then (false, record c { files = s })
      else (let c1 = update_cluster F env (record c { files = s }) in
          (
            true,
            record c1 {
              files = set_cluster_file protocol proto (
                  set_cluster_file timewarn_cs timewarn
                    (set_cluster_file log_debug debug c1.files));
            },
          ))
