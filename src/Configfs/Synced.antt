-- ===== src/Configfs/Synced.antt =====
-- group/dlm_controld/action.c: after set_configfs_members, configfs lists exactly the new members.
use dlm.Base.{
  ℕ, ◌≡◌, refl, sym, ap, ◌∙◌, Bool, true, false, not, ◌&&◌, ◌||◌, Option, none, some, List, [], ◌∷◌,
  ◌==◌, if◌then◌else◌, arith, Bool-cases, inl, inr, ==→eq, is_empty,
}
use dlm.Configfs.Files.{
  space, space_node, File, nodeid, weight, number, Files, IsLawful, is_node, has_node, id_exists,
}
use dlm.Configfs.Weight.{get_weight}
use dlm.Configfs.Nodes.{NodesEnv, Cluster, and_then, on_files, create_path}
use dlm.Configfs.Members.{remove_members, add_new, change_nodes, set_configfs_members}
use dlm.Configfs.Loops.{
  is_node-same, and_then-true, Writes, Writes-nobody, Keeps, mkdir-Keeps, rmdir-Keeps,
}
use dlm.Configfs.Rounds.{is_added, add_new_members-Writes}

-- From one state to another, configfs lists exactly the new members of a lockspace; those that were
-- not there, or must be renewed, have their number and weight written, the others keep their files.
pub record IsSynced (F : Files) (env : NodesEnv) (name new renew : List ℕ) (s s' : F.State)
    : Type 0 where
  pub listed : (j : ℕ) → has_node F name j s' ≡ id_exists j new
  pub kept :
      (j : ℕ) (g : File)
      → id_exists j new ≡ true
      → id_exists j renew ≡ false
      → has_node F name j s ≡ true
      → F.read (space_node name j) g s' ≡ F.read (space_node name j) g s
  pub written :
      (j : ℕ)
      → id_exists j new ≡ true
      → (id_exists j renew || not (has_node F name j s)) ≡ true
      → (F.read (space_node name j) nodeid s' ≡ some (number j))
        × (F.read (space_node name j) weight s' ≡ some (number (get_weight env.ccs j name)))

module _ (F : Files) (L : IsLawful F) (name new : List ℕ) where
  -- The nodes that pass a test are no longer listed, and new members keep their files.
  record Drops (test : ℕ → Bool) (s s' : F.State) : Type 0 where
    pub listed : (j : ℕ) → has_node F name j s' ≡ (has_node F name j s && not (test j))
    pub kept :
        (j : ℕ) (g : File)
        → id_exists j new ≡ true
        → F.read (space_node name j) g s' ≡ F.read (space_node name j) g s

  left-ne-new : (id j : ℕ) → id_exists id new ≡ false → id_exists j new ≡ true → (id == j) ≡ false
  left-ne-new id j gone there = elim (Bool-cases (id == j)) [
    | inr n ↦ n
    | inl y ↦ cc (sym there ∙ ap (λ i. id_exists i new) (sym (==→eq id j y)) ∙ gone)
  ]

  kept-Drops :
      (id : ℕ) (s : F.State)
      → id_exists id new ≡ true
      → Drops (λ j. id == j && not (id_exists j new)) s s
  kept-Drops id s there = record {
    listed = λ j. elim (Bool-cases (id == j)) [
      | inr n ↦ ground (arith, n)
      | inl y ↦ ground (arith, y, ==→eq id j y, there, ap (λ i. id_exists i new) (==→eq id j y))
    ];
    kept = λ j g h. refl;
  }

  removed-Drops :
      (id : ℕ) (s : F.State)
      → id_exists id new ≡ false
      → (F.rmdir (space_node name id) s).0 ≡ true
      → Drops (λ j. id == j && not (id_exists j new)) s (F.rmdir (space_node name id) s).1
  removed-Drops id s gone ok =
      let p = space_node name id in
      record {
        listed = λ j. elim (Bool-cases (id == j)) [
          | inr n ↦ ground (arith, n, L.has_node-rmdir name j p s, is_node-same name id j)
          | inl y ↦ ground (
            arith,
            y,
            ok,
            L.has_node-rmdir name j p s,
            is_node-same name id j,
            gone,
            ap (λ i. id_exists i new) (==→eq id j y),
          )
        ];
        kept =
            λ j g h. L.read-rmdir name j g p s (is_node-same name id j ∙ left-ne-new id j gone h);
      }

  step-Drops :
      (id : ℕ) (s : F.State) (there : Bool)
      → id_exists id new ≡ there
      → let x : Bool × F.State = if there then (true, s) else F.rmdir (space_node name id) s in
        x.0 ≡ true → Drops (λ j. id == j && not (id_exists j new)) s x.1
  step-Drops id s true e h = kept-Drops id s e
  step-Drops id s false e h = removed-Drops id s e h

  remove_members-Drops :
      (olds : List ℕ) (s : F.State)
      → (remove_members F name new olds s).0 ≡ true
      → Drops
          (λ j. id_exists j olds && not (id_exists j new))
          s
          (remove_members F name new olds s).1
  unfolding remove_members id_exists
  remove_members-Drops [] s h = record { listed = λ j. ground arith; kept = λ j g h. refl }
  remove_members-Drops (id ∷ rest) s h =
      let x : Bool × F.State =
        if id_exists id new then (true, s) else F.rmdir (space_node name id) s in
      let done = and_then-true x (remove_members F name new rest) h in
      let now = step-Drops id s (id_exists id new) refl done.0 in
      let later = remove_members-Drops rest x.1 (sym (ap (λ r. r.0) done.1) ∙ h) in
      rw done.1 (record {
        listed = λ j. ground (arith, later.listed j, now.listed j);
        kept = λ j g k. later.kept j g k ∙ now.kept j g k;
      })

  empty_space-Keeps :
      (env : NodesEnv) (gone : Bool) (c : Cluster F)
      → Keeps F L env name c.files
          (if gone then record c { files = (F.rmdir (space name) c.files).1 } else c).files
  unfolding is_node
  empty_space-Keeps env true c = rmdir-Keeps F L env name (space name) (λ j. refl) c.files
  empty_space-Keeps env false c = Writes-nobody F L env name c.files

has_node-nodes :
    (F : Files) (name : List ℕ) (j : ℕ) (s : F.State) {ids : List ℕ}
    → F.nodes name s ≡ some ids
    → has_node F name j s ≡ id_exists j ids
unfolding has_node
has_node-nodes F name j s e = rw (e, has_node) refl

module _ (F : Files) (L : IsLawful F) (env : NodesEnv) (name new renew : List ℕ) where
  -- Removing, then removing the directory of the lockspace, then adding.
  loops-IsSynced :
      (old : List ℕ) (s t u v : F.State)
      → ((j : ℕ) → has_node F name j s ≡ id_exists j old)
      → Drops F L name new (λ j. id_exists j old && not (id_exists j new)) s t
      → Keeps F L env name t u
      → Writes F L env name (is_added old renew new) u v
      → IsSynced F env name new renew s v
  unfolding is_added
  loops-IsSynced old s t u v at a b w = record {
    listed = λ j. ground (arith, w.listed j, b.listed j, a.listed j, at j);
    kept = λ j g there same was.
        w.kept j g (ground (arith, at j)) ∙ b.kept j g refl ∙ a.kept j g there;
    written = λ j there new_dir.
        let added : is_added old renew new j ≡ true = ground (arith, at j) in
        (w.id_written j added, w.weight_written j added);
  }

  change_from-IsSynced :
      (old : List ℕ) (c : Cluster F)
      → F.nodes name c.files ≡ some old
      → let c' =
          and_then
            (on_files F (remove_members F name new old) c)
            (add_new F env name new renew old) in
        c'.0 ≡ true → IsSynced F env name new renew c.files c'.1.files
  unfolding add_new
  change_from-IsSynced old c at h =
      let x = on_files F (remove_members F name new old) c in
      let done = and_then-true x (add_new F env name new renew old) h in
      let c2 : Cluster F =
        if is_empty new then record (x.1) { files = (F.rmdir (space name) x.1.files).1 } else x.1 in
      rw done.1 (
        loops-IsSynced old c.files x.1.files c2.files _ (λ j. has_node-nodes F name j c.files at)
          (remove_members-Drops F L name new old c.files done.0)
          (empty_space-Keeps F L name new env (is_empty new) x.1)
          (add_new_members-Writes F L env name old renew new c2 (sym (ap (λ r. r.0) done.1) ∙ h)))

  listed-IsSynced :
      (listed : Option (List ℕ)) (c : Cluster F)
      → F.nodes name c.files ≡ listed
      → let c' : Bool × Cluster F = elim listed [
        | none ↦ (false, c)
        | some old ↦
            and_then
              (on_files F (remove_members F name new old) c)
              (add_new F env name new renew old)
      ] in
        c'.0 ≡ true → IsSynced F env name new renew c.files c'.1.files
  listed-IsSynced none c at h = cc
  listed-IsSynced (some old) c at h = change_from-IsSynced old c at h

  change_nodes-IsSynced :
      (c : Cluster F)
      → (change_nodes F env name new renew c).0 ≡ true
      → IsSynced F env name new renew c.files (change_nodes F env name new renew c).1.files
  unfolding change_nodes
  change_nodes-IsSynced c h = listed-IsSynced (F.nodes name c.files) c refl h

  -- The lockspace's directory, made if it is not there.
  made-Keeps :
      (there : Bool) (c : Cluster F)
      → Keeps F L env name c.files
          (if there then (true, c) else on_files F (create_path F (space name)) c).1.files
  unfolding create_path is_node
  made-Keeps true c = Writes-nobody F L env name c.files
  made-Keeps false c = mkdir-Keeps F L env name (space name) (λ j. refl) c.files

  after_made :
      (s t u : F.State)
      → Keeps F L env name s t
      → IsSynced F env name new renew t u
      → IsSynced F env name new renew s u
  after_made s t u k a = record {
    listed = a.listed;
    kept =
        λ j g there same was. a.kept j g there same (ground (arith, k.listed j)) ∙ k.kept j g refl;
    written = λ j there new_dir. a.written j there (ground (arith, k.listed j));
  }

  -- Over a file system that meets IsLawful, when set_configfs_members returns 0, configfs lists
  -- exactly the new members of the lockspace. Those that were not listed, or must be renewed,
  -- have their number and the weight from the configuration written, the others keep their
  -- files; news about the cluster that is read on the way changes nothing of this.
  pub set_configfs_members-IsSynced :
      (c : Cluster F)
      → (set_configfs_members F env name new renew c).0 ≡ true
      → IsSynced F env name new renew c.files (set_configfs_members F env name new renew c).1.files
  unfolding set_configfs_members
  set_configfs_members-IsSynced c h =
      let there = F.path_exists (space name) c.files in
      let x : Bool × Cluster F =
        if there then (true, c) else on_files F (create_path F (space name)) c in
      let done = and_then-true x (change_nodes F env name new renew) h in
      rw done.1 (
        after_made c.files x.1.files _ (made-Keeps there c)
          (change_nodes-IsSynced x.1 (sym (ap (λ r. r.0) done.1) ∙ h)))
