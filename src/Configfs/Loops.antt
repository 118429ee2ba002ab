-- ===== src/Configfs/Loops.antt =====
-- group/dlm_controld/action.c: what the steps of set_configfs_members write.
use dlm.Base.{
  ℕ, ◌-◌, ◌++◌, length, ◌≡◌, refl, ◌∙◌, Bool, true, false, ◌||◌, Option, none, some, List, [], ◌∷◌,
  ◌==◌, arith, Bool-cases, inl, inr,
}
use dlm.Plock.Names.{same_name_self}
use dlm.Configfs.Files.{
  DirPath, comm, space_node, File, nodeid, weight, addr, local, Value, number, bytes, Files,
  IsLawful, is_node, has_node,
}
use dlm.Configfs.Weight.{get_weight}
use dlm.Configfs.Nodes.{
  QuorumEvent, notify, dispatch_error, NodesEnv, Cluster, has_member, zeros, and_then, create_path,
  set_local, set_addr, set_nodeid, add_configfs_node, del_configfs_node, del_nodes, add_addrs,
  add_nodes, quorum_callback, handle_quorum, next_event, update_cluster,
}

pub is_node-same : (n : List ℕ) (i j : ℕ) → is_node (space_node n i) n j ≡ (i == j)
unfolding is_node
is_node-same n i j = rw (same_name_self n) refl

pub and_then-true {ℓ} :
    {S : Type ℓ} (x : Bool × S) (next : S → Bool × S)
    → (and_then x next).0 ≡ true
    → (x.0 ≡ true) × (and_then x next ≡ next x.1)
and_then-true (true, s) next h = (refl, refl)
and_then-true (false, s) next h = cc

abbrev pub nobody : ℕ → Bool
nobody j = false

module _ (F : Files) (L : IsLawful F) (env : NodesEnv) (name : List ℕ) where
  -- From one state to another, the directories and the files of the nodes that pass a test are
  -- written, and no other node of the lockspace changes.
  pub record Writes (test : ℕ → Bool) (s s' : F.State) : Type 0 where
    pub listed : (j : ℕ) → has_node F name j s' ≡ (has_node F name j s || test j)
    pub kept :
        (j : ℕ) (g : File)
        → test j ≡ false
        → F.read (space_node name j) g s' ≡ F.read (space_node name j) g s
    pub id_written :
        (j : ℕ) → test j ≡ true → F.read (space_node name j) nodeid s' ≡ some (number j)
    pub weight_written :
        (j : ℕ)
        → test j ≡ true
        → F.read (space_node name j) weight s' ≡ some (number (get_weight env.ccs j name))

  pub Writes-nobody : (s : F.State) → Writes nobody s s
  Writes-nobody s = record {
    listed = λ j. ground arith;
    kept = λ j g h. refl;
    id_written = λ j h. cc;
    weight_written = λ j h. cc;
  }

  pub Writes-then :
      (p q : ℕ → Bool) (s t u : F.State)
      → Writes p s t
      → Writes q t u
      → Writes (λ j. q j || p j) s u
  Writes-then p q s t u a b = record {
    listed = λ j. ground (arith, a.listed j, b.listed j);
    kept = λ j g h. ground (arith, a.kept j g, b.kept j g);
    id_written = λ j h. ground (arith, a.id_written j, b.kept j nodeid, b.id_written j);
    weight_written = λ j h. ground (arith, a.weight_written j, b.kept j weight, b.weight_written j);
  }

  pub Writes-same :
      (p q : ℕ → Bool) (s t : F.State) → ((j : ℕ) → p j ≡ q j) → Writes p s t → Writes q s t
  Writes-same p q s t e a = record {
    listed = λ j. ground (arith, e j, a.listed j);
    kept = λ j g h. a.kept j g (e j ∙ h);
    id_written = λ j h. a.id_written j (e j ∙ h);
    weight_written = λ j h. a.weight_written j (e j ∙ h);
  }

  abbrev pub Keeps : F.State → F.State → Type 0
  Keeps = Writes nobody

  Keeps-then : (s t u : F.State) → Keeps s t → Keeps t u → Keeps s u
  Keeps-then s t u a b =
      Writes-same (λ j. false || false) nobody s u (λ j. refl) (Writes-then _ _ s t u a b)

  and_then-Keeps :
      (s : F.State) (x : Bool × F.State) (next : F.State → Bool × F.State)
      → Keeps s x.1
      → ((t : F.State) → Keeps t (next t).1)
      → Keeps s (and_then x next).1
  and_then-Keeps s (true, t) next a k = Keeps-then s t (next t).1 a (k t)
  and_then-Keeps s (false, t) next a k = a

  -- Calls at a path that belongs to no node of a lockspace.
  module _ (p : DirPath) (elsewhere : (j : ℕ) → is_node p name j ≡ false) (s : F.State) where
    pub mkdir-Keeps : Keeps s (F.mkdir p s).1
    mkdir-Keeps = record {
      listed = λ j. ground (arith, L.has_node-mkdir name j p s, elsewhere j);
      kept = λ j g h. L.read-mkdir name j g p s (elsewhere j);
      id_written = λ j h. cc;
      weight_written = λ j h. cc;
    }

    pub rmdir-Keeps : Keeps s (F.rmdir p s).1
    rmdir-Keeps = record {
      listed = λ j. ground (arith, L.has_node-rmdir name j p s, elsewhere j);
      kept = λ j g h. L.read-rmdir name j g p s (elsewhere j);
      id_written = λ j h. cc;
      weight_written = λ j h. cc;
    }

    pub write-Keeps : (f : File) (v : Value) → Keeps s (F.write p f v s).1
    write-Keeps f v = record {
      listed = λ j. ground (arith, L.has_node-write name j p f v s);
      kept = λ j g h. L.read-write_other name j g p f v s (elsewhere j);
      id_written = λ j h. cc;
      weight_written = λ j h. cc;
    }

  comm_elsewhere : (id j : ℕ) → is_node (comm id) name j ≡ false
  unfolding is_node
  comm_elsewhere id j = refl

  set_local-Keeps : (id : ℕ) (is_local : Bool) (s : F.State) → Keeps s (set_local F id is_local s).1
  unfolding set_local
  set_local-Keeps id true s = write-Keeps (comm id) (comm_elsewhere id) s local (number 1)
  set_local-Keeps id false s = Writes-nobody s

  set_addr-Keeps :
      (id : ℕ) (address : List ℕ) (is_local : Bool) (s : F.State)
      → Keeps s (set_addr F env id address is_local s).1
  unfolding set_addr
  set_addr-Keeps id address is_local s =
      let v = bytes (address ++ zeros (env.storage_size - length address)) in
      and_then-Keeps s (F.write (comm id) addr v s) (set_local F id is_local)
        (write-Keeps (comm id) (comm_elsewhere id) s addr v) (set_local-Keeps id is_local)

  set_nodeid-Keeps :
      (id : ℕ) (address : List ℕ) (is_local : Bool) (s : F.State)
      → Keeps s (set_nodeid F env id address is_local s).1
  unfolding set_nodeid
  set_nodeid-Keeps id address is_local s =
      and_then-Keeps s (F.write (comm id) nodeid (number id) s) (set_addr F env id address is_local)
        (write-Keeps (comm id) (comm_elsewhere id) s nodeid (number id))
        (set_addr-Keeps id address is_local)

  add_configfs_node-Keeps :
      (id : ℕ) (address : List ℕ) (is_local : Bool) (s : F.State)
      → Keeps s (add_configfs_node F env id address is_local s).1
  unfolding add_configfs_node create_path
  add_configfs_node-Keeps id address is_local s =
      and_then-Keeps s (create_path F (comm id) s) (set_nodeid F env id address is_local)
        (mkdir-Keeps (comm id) (comm_elsewhere id) s) (set_nodeid-Keeps id address is_local)

  add_addrs-Keeps :
      (id : ℕ) (addrs : List (List ℕ)) (s : F.State) → Keeps s (add_addrs F env id addrs s)
  unfolding add_addrs
  add_addrs-Keeps id [] s = Writes-nobody s
  add_addrs-Keeps id (address ∷ rest) s =
      Keeps-then s _ _ (add_configfs_node-Keeps id address (id == env.our_nodeid) s)
        (add_addrs-Keeps id rest _)

  del_nodes-Keeps : (members ids : List ℕ) (s : F.State) → Keeps s (del_nodes F members ids s)
  unfolding del_nodes del_configfs_node
  del_nodes-Keeps members [] s = Writes-nobody s
  del_nodes-Keeps members (id ∷ rest) s = elim (Bool-cases (has_member members id)) [
    | inl e ↦ rw e (del_nodes-Keeps members rest s)
    | inr e ↦ rw e (
        Keeps-then s _ _ (rmdir-Keeps (comm id) (comm_elsewhere id) s)
          (del_nodes-Keeps members rest _))
  ]

  known_addrs-Keeps :
      (id : ℕ) (known : Option (List (List ℕ))) (s : F.State)
      → Keeps s (elim known [ none ↦ s | some addrs ↦ add_addrs F env id addrs s ])
  known_addrs-Keeps id none s = Writes-nobody s
  known_addrs-Keeps id (some addrs) s = add_addrs-Keeps id addrs s

  add_nodes-Keeps : (old ids : List ℕ) (s : F.State) → Keeps s (add_nodes F env old ids s)
  unfolding add_nodes
  add_nodes-Keeps old [] s = Writes-nobody s
  add_nodes-Keeps old (id ∷ rest) s = elim (Bool-cases (has_member old id)) [
    | inl e ↦ rw e (add_nodes-Keeps old rest s)
    | inr e ↦
        rw e (
          Keeps-then s _ _ (known_addrs-Keeps id (env.node_addrs id) s)
            (add_nodes-Keeps old rest _))
  ]

  handle_quorum-Keeps :
      (e : QuorumEvent) (c : Cluster F) → Keeps c.files (handle_quorum F env e c).files
  unfolding handle_quorum quorum_callback
  handle_quorum-Keeps (notify quorate members) c =
      Keeps-then c.files _ _ (del_nodes-Keeps members c.quorum_nodes c.files)
        (add_nodes-Keeps c.quorum_nodes members _)
  handle_quorum-Keeps dispatch_error c = Writes-nobody c.files

  next_event-Keeps :
      (es : List QuorumEvent) (c : Cluster F) → Keeps c.files (next_event F env es c).files
  unfolding next_event
  next_event-Keeps [] c = Writes-nobody c.files
  next_event-Keeps (e ∷ rest) c = handle_quorum-Keeps e (record c { events = rest })

  -- The nodes of lockspaces are left alone by news about the cluster.
  pub update_cluster-Keeps : (c : Cluster F) → Keeps c.files (update_cluster F env c).files
  unfolding update_cluster
  update_cluster-Keeps c = next_event-Keeps c.events c
