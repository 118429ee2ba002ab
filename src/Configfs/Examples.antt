-- ===== src/Configfs/Examples.antt =====
-- The nodes of a lockspace in configfs at concrete inputs.
use dlm.Base.{◌≡◌, refl, true, false, some, none, [], ◌∷◌, Bool}
use dlm.Configfs.Files.{space_node, weight, number}
use dlm.Configfs.Weight.{Ccs, pos, negsuc, get_weight}
use dlm.Configfs.Nodes.{notify, NodesEnv, Cluster}
use dlm.Configfs.Members.{set_configfs_members}
use dlm.Configfs.Memory.{memory, memory-IsLawful}
use dlm.Configfs.Synced.{IsSynced, set_configfs_members-IsSynced}

-- Node 2 is the master of the lockspace, with weight 5; node 3 has no name.
abbrev config : Ccs
config = record {
  clusternodes =
      (pos 1, some (10 ∷ []))
      ∷ (pos 2, some (20 ∷ []))
      ∷ (pos 3, none)
      ∷ (pos 4, some (40 ∷ []))
      ∷ [];
  masters = λ n. (20 ∷ []) ∷ [];
  master_weight = λ n m. some (pos 5);
  node_weight = λ n. none;
}

abbrev env : NodesEnv
env = record {
  our_nodeid = 1;
  node_addrs = λ id. some ((127 ∷ id ∷ []) ∷ []);
  storage_size = 4;
  ccs = config;
}

-- Nodes 1 and 2 are listed; the news that node 4 has come is not yet read.
cluster : Cluster memory
unfolding memory
cluster = record {
  files = record { dirs = (7 ∷ [], 1) ∷ (7 ∷ [], 2) ∷ (8 ∷ [], 1) ∷ []; files = λ p f. none };
  quorum_nodes = 1 ∷ 2 ∷ [];
  quorate = true;
  cluster_down = false;
  events = notify true (1 ∷ 2 ∷ 4 ∷ []) ∷ [];
}

-- Node 1 leaves, node 2 left and came back, node 4 is new.
after : Bool × Cluster memory
unfolding set_configfs_members memory cluster
after = set_configfs_members memory env (7 ∷ []) (2 ∷ 4 ∷ []) (2 ∷ []) cluster

succeeds : after.0 ≡ true
unfolding after
succeeds = refl

now_listed : memory.nodes (7 ∷ []) after.1.files ≡ some (4 ∷ 2 ∷ [])
unfolding after
now_listed = refl

weight_of_master : memory.read (space_node (7 ∷ []) 2) weight after.1.files ≡ some (number 5)
unfolding after
weight_of_master = refl

-- A negative weight for the master counts as none.
negative_weight :
    get_weight (record config { master_weight = λ n m. some (negsuc 4) }) 2 (7 ∷ []) ≡ 1
unfolding get_weight
negative_weight = refl

set_configfs_members-IsSynced_example :
    IsSynced memory env (7 ∷ []) (2 ∷ 4 ∷ []) (2 ∷ []) cluster.files after.1.files
unfolding after
set_configfs_members-IsSynced_example =
    set_configfs_members-IsSynced memory memory-IsLawful env (7 ∷ []) (2 ∷ 4 ∷ []) (2 ∷ []) cluster
      succeeds
