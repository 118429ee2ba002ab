-- ===== src/Configfs/Nodes.antt =====
-- group/dlm_controld/member_cman.c, and add_configfs_node and del_configfs_node of
-- group/dlm_controld/action.c: the nodes of the cluster.
use dlm.Base.{
  ℕ, zero, suc, ◌-◌, Bool, true, false, not, Option, none, some, List, [], ◌∷◌, ◌++◌, ◌==◌,
  if◌then◌else◌, length,
}
use dlm.Configfs.Files.{DirPath, comm, nodeid, addr, local, number, bytes, Files, is_made}
use dlm.Configfs.Weight.{Ccs}

-- What the next call of `quorum_dispatch` finds: a call of the callback, or an error.
pub data QuorumEvent : Type 0 where
  notify : Bool → List ℕ → QuorumEvent
  dispatch_error : QuorumEvent

-- The settings and services: our number, the addresses of a node (`corosync_cfg_get_node_addrs`),
-- `sizeof(struct sockaddr_storage)` and the configuration.
pub record NodesEnv : Type 0 where
  pub our_nodeid : ℕ
  pub node_addrs : ℕ → Option (List (List ℕ))
  pub storage_size : ℕ
  pub ccs : Ccs

-- The file system with the globals of member_cman.c; `cluster_down` also stands for `daemon_quit`,
-- which is set with it.
pub record Cluster (F : Files) : Type 0 where
  pub files : F.State
  pub quorum_nodes : List ℕ
  pub quorate : Bool
  pub cluster_down : Bool
  pub events : List QuorumEvent

-- `is_member`
unfoldable pub has_member : List ℕ → ℕ → Bool
has_member [] id = false
has_member (n ∷ rest) id = if n == id then true else has_member rest id

abbrev pub zeros : ℕ → List ℕ
zeros zero = []
zeros (suc n) = 0 ∷ zeros n

-- Goes on after a success.
abbrev pub and_then {ℓ} : {S : Type ℓ} → Bool × S → (S → Bool × S) → Bool × S
and_then (true, s) next = next s
and_then (false, s) next = (false, s)

module _ (F : Files) where
  -- A call that changes only files.
  abbrev pub on_files : (F.State → Bool × F.State) → Cluster F → Bool × Cluster F
  on_files run c = let (ok, s) = run c.files in (ok, record c { files = s })

  -- `create_path`, whose result is 0 also for a directory that is there.
  unfoldable pub create_path : DirPath → F.State → Bool × F.State
  create_path p s = let (result, s') = F.mkdir p s in (is_made result, s')

  -- The stages of `add_configfs_node`, the last first.
  unfoldable pub set_local : ℕ → Bool → F.State → Bool × F.State
  set_local id is_local s = if not is_local then (true, s) else F.write (comm id) local (number 1) s

  unfoldable pub set_addr : NodesEnv → ℕ → List ℕ → Bool → F.State → Bool × F.State
  unfolding set_local
  set_addr env id address is_local s =
      and_then
        (F.write (comm id) addr (bytes (address ++ zeros (env.storage_size - length address))) s)
        (set_local id is_local)

  unfoldable pub set_nodeid : NodesEnv → ℕ → List ℕ → Bool → F.State → Bool × F.State
  unfolding set_addr
  set_nodeid env id address is_local s =
      and_then (F.write (comm id) nodeid (number id) s) (set_addr env id address is_local)

  unfoldable pub add_configfs_node : NodesEnv → ℕ → List ℕ → Bool → F.State → Bool × F.State
  unfolding create_path set_nodeid
  add_configfs_node env id address is_local s =
      and_then (create_path (comm id) s) (set_nodeid env id address is_local)

  -- `del_configfs_node`
  unfoldable pub del_configfs_node : ℕ → F.State → F.State
  del_configfs_node id s = (F.rmdir (comm id) s).1

  -- The loops of `quorum_callback`.
  unfoldable pub del_nodes : List ℕ → List ℕ → F.State → F.State
  unfolding has_member del_configfs_node
  del_nodes members [] s = s
  del_nodes members (id ∷ rest) s =
      del_nodes members rest (if has_member members id then s else del_configfs_node id s)

  unfoldable pub add_addrs : NodesEnv → ℕ → List (List ℕ) → F.State → F.State
  unfolding add_configfs_node
  add_addrs env id [] s = s
  add_addrs env id (address ∷ rest) s =
      add_addrs env id rest (add_configfs_node env id address (id == env.our_nodeid) s).1

  unfoldable pub add_nodes : NodesEnv → List ℕ → List ℕ → F.State → F.State
  unfolding has_member add_addrs
  add_nodes env old [] s = s
  add_nodes env old (id ∷ rest) s = add_nodes env old rest (
      if has_member old id
      then s
      else elim (env.node_addrs id) [ none ↦ s | some addrs ↦ add_addrs env id addrs s ])

  unfoldable pub quorum_callback : NodesEnv → Bool → List ℕ → Cluster F → Cluster F
  unfolding del_nodes add_nodes
  quorum_callback env quorate node_list c = record c {
    quorate = quorate;
    quorum_nodes = node_list;
    files = add_nodes env c.quorum_nodes node_list (del_nodes node_list c.quorum_nodes c.files);
  }

  unfoldable pub handle_quorum : NodesEnv → QuorumEvent → Cluster F → Cluster F
  unfolding quorum_callback
  handle_quorum env (notify quorate nodes) c = quorum_callback env quorate nodes c
  handle_quorum env dispatch_error c = record c { cluster_down = true }

  unfoldable pub next_event : NodesEnv → List QuorumEvent → Cluster F → Cluster F
  unfolding handle_quorum
  next_event env [] c = c
  next_event env (e ∷ rest) c = handle_quorum env e (record c { events = rest })

  -- `update_cluster`: one event.
  unfoldable pub update_cluster : NodesEnv → Cluster F → Cluster F
  unfolding next_event
  update_cluster env c = next_event env c.events c

  -- `process_cluster`: all events.
  unfoldable pub process_cluster : NodesEnv → List QuorumEvent → Cluster F → Cluster F
  unfolding handle_quorum
  process_cluster env [] c = c
  process_cluster env (e ∷ rest) c = process_cluster env rest (handle_quorum env e c)
