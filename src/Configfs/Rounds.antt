-- ===== src/Configfs/Rounds.antt =====
-- group/dlm_controld/action.c: what one round of each loop of set_configfs_members does.
use dlm.Base.{
  ℕ, ◌≡◌, refl, sym, ap, ◌∙◌, Bool, true, false, not, ◌&&◌, ◌||◌, some, List, [], ◌∷◌, ◌==◌,
  if◌then◌else◌, arith, Bool-cases, inl, inr, ==→eq,
}
use dlm.Configfs.Files.{
  space_node, File, Value, nodeid, weight, number, Files, IsLawful, is_made, has_node, id_exists,
}
use dlm.Configfs.Weight.{get_weight}
use dlm.Configfs.Nodes.{NodesEnv, Cluster, has_member, create_path, update_cluster}
use dlm.Configfs.Members.{set_weight, set_member_id, make_dir, make_node, add_node, add_new_members}
use dlm.Configfs.Loops.{
  is_node-same, and_then-true, Writes, nobody, Writes-nobody, Writes-then, Writes-same, Keeps,
  update_cluster-Keeps,
}

-- The members that the loop makes, others are there already.
unfoldable pub is_added : List ℕ → List ℕ → List ℕ → ℕ → Bool
unfolding id_exists
is_added old renew ids j = id_exists j ids && (id_exists j renew || not (id_exists j old))

module _ (F : Files) (L : IsLawful F) (env : NodesEnv) (name : List ℕ) where
  module _ (id : ℕ) where
    set_weight-ok :
        (s : F.State)
        → (set_weight F env name id s).0 ≡ true
        → let s' = (set_weight F env name id s).1 in
          (F.read (space_node name id) weight s' ≡ some (number (get_weight env.ccs id name)))
          × (F.read (space_node name id) nodeid s' ≡ F.read (space_node name id) nodeid s)
    unfolding set_weight
    set_weight-ok s h =
        let p = space_node name id in
        let v = number (get_weight env.ccs id name) in
        (L.read-write p weight v s h, L.nodeid-write_weight p v s)

    -- A write to a file of the node changes no directory and no other node.
    write-others :
        (f : File) (v : Value) (j : ℕ) (g : File) (s : F.State)
        → let s' = (F.write (space_node name id) f v s).1 in
          (has_node F name j s' ≡ has_node F name j s)
          × ((id == j) ≡ false → F.read (space_node name j) g s' ≡ F.read (space_node name j) g s)
    write-others f v j g s =
        let p = space_node name id in
        (
          L.has_node-write name j p f v s,
          λ h. L.read-write_other name j g p f v s (is_node-same name id j ∙ h),
        )

    set_weight-others :
        (j : ℕ) (g : File) (s : F.State)
        → let s' = (set_weight F env name id s).1 in
          (has_node F name j s' ≡ has_node F name j s)
          × ((id == j) ≡ false → F.read (space_node name j) g s' ≡ F.read (space_node name j) g s)
    unfolding set_weight
    set_weight-others j g s = write-others weight (number (get_weight env.ccs id name)) j g s

    stages-Writes :
        (s : F.State)
        → is_made (F.mkdir (space_node name id) s).0 ≡ true
        → let w =
            F.write (space_node name id) nodeid (number id) (F.mkdir (space_node name id) s).1 in
          w.0 ≡ true
          → (set_weight F env name id w.1).0 ≡ true
          → Writes F L env name (λ j. id == j) s (set_weight F env name id w.1).1
    stages-Writes s made named weighted =
        let p = space_node name id in
        let s1 = (F.mkdir p s).1 in
        let w = F.write p nodeid (number id) s1 in
        let done = set_weight-ok w.1 weighted in
        record {
          listed = λ j.
              (set_weight-others j nodeid w.1).0
              ∙ ground (
                arith,
                write-others nodeid (number id) j nodeid s1,
                L.has_node-mkdir name j p s,
                is_node-same name id j,
                made,
              );
          kept = λ j g h.
              (set_weight-others j g w.1).1 h
              ∙ (write-others nodeid (number id) j g s1).1 h
              ∙ L.read-mkdir name j g p s (is_node-same name id j ∙ h);
          id_written =
              λ j h. rw (sym (==→eq id j h)) (done.1 ∙ L.read-write p nodeid (number id) s1 named);
          weight_written = λ j h. rw (sym (==→eq id j h)) done.0;
        }

    make_dir-Writes :
        (s : F.State)
        → (make_dir F env name id s).0 ≡ true
        → Writes F L env name (λ j. id == j) s (make_dir F env name id s).1
    unfolding make_dir create_path set_member_id
    make_dir-Writes s h =
        let p = space_node name id in
        let w = F.write p nodeid (number id) (F.mkdir p s).1 in
        let made = and_then-true (create_path F p s) (set_member_id F env name id) h in
        let named = and_then-true w (set_weight F env name id) (sym (ap (λ r. r.0) made.1) ∙ h) in
        let all = made.1 ∙ named.1 in
        rw all (stages-Writes s made.0 named.0 (sym (ap (λ r. r.0) all) ∙ h))

    renewed-Writes :
        (s t : F.State)
        → (F.rmdir (space_node name id) s).0 ≡ true
        → Writes F L env name (λ j. id == j) (F.rmdir (space_node name id) s).1 t
        → Writes F L env name (λ j. id == j) s t
    renewed-Writes s t removed a =
        let p = space_node name id in
        record {
          listed = λ j.
              ground
                (arith, a.listed j, L.has_node-rmdir name j p s, is_node-same name id j, removed);
          kept = λ j g h. a.kept j g h ∙ L.read-rmdir name j g p s (is_node-same name id j ∙ h);
          id_written = a.id_written;
          weight_written = a.weight_written;
        }

    pub make_node-Writes :
        (do_renew : Bool) (s : F.State)
        → (make_node F env name id do_renew s).0 ≡ true
        → Writes F L env name (λ j. id == j) s (make_node F env name id do_renew s).1
    unfolding make_node
    make_node-Writes true s h =
        let removed = and_then-true (F.rmdir (space_node name id) s) (make_dir F env name id) h in
        rw removed.1
          (renewed-Writes s _ removed.0 (make_dir-Writes _ (sym (ap (λ r. r.0) removed.1) ∙ h)))
    make_node-Writes false s h = make_dir-Writes s h

    -- The news about the cluster that is awaited for an unknown node.
    news-Keeps :
        (known : Bool) (c : Cluster F)
        → Keeps F L env name c.files (if known then c else update_cluster F env c).files
    news-Keeps true c = Writes-nobody F L env name c.files
    news-Keeps false c = update_cluster-Keeps F L env name c

    pub add_node-Writes :
        (do_renew : Bool) (c : Cluster F)
        → (add_node F env name id do_renew c).0 ≡ true
        → Writes F L env name (λ j. id == j) c.files (add_node F env name id do_renew c).1.files
    unfolding add_node
    add_node-Writes do_renew c h =
        let known = has_member c.quorum_nodes id in
        let c' : Cluster F = if known then c else update_cluster F env c in
        Writes-same F L env name (λ j. id == j || false) (λ j. id == j) c.files _
          (λ j. ground arith)
          (Writes-then F L env name nobody (λ j. id == j) c.files c'.files _ (news-Keeps known c)
            (make_node-Writes do_renew c'.files h))

  -- One member more.
  pub is_added-next :
      (old renew : List ℕ) (id : ℕ) (rest : List ℕ) (skipped : Bool) (j : ℕ)
      → (not (id_exists id renew) && id_exists id old) ≡ skipped
      → (is_added old renew rest j || (not skipped && id == j)) ≡ is_added old renew (id ∷ rest) j
  unfolding is_added id_exists
  is_added-next old renew id rest skipped j e = elim (Bool-cases (id == j)) [
    | inr n ↦ ground (arith, n)
    | inl y ↦ ground (arith, y, ==→eq id j y)
  ]

  pub add_new_members-Writes :
      (old renew ids : List ℕ) (c : Cluster F)
      → (add_new_members F env name old renew ids c).0 ≡ true
      → Writes F L env name
          (is_added old renew ids)
          c.files
          (add_new_members F env name old renew ids c).1.files
  unfolding add_new_members is_added id_exists
  add_new_members-Writes old renew [] c h = Writes-nobody F L env name c.files
  add_new_members-Writes old renew (id ∷ rest) c h =
      let skipped = not (id_exists id renew) && id_exists id old in
      let x : Bool × Cluster F =
        if skipped then (true, c) else add_node F env name id (id_exists id renew) c in
      let done = and_then-true x (add_new_members F env name old renew rest) h in
      let later = add_new_members-Writes old renew rest x.1 (sym (ap (λ r. r.0) done.1) ∙ h) in
      rw done.1 (
        Writes-same F L env name (λ j. is_added old renew rest j || (not skipped && id == j))
          (is_added old renew (id ∷ rest)) c.files _
          (λ j. is_added-next old renew id rest skipped j refl)
          (Writes-then F L env name _ _ c.files x.1.files _
            (round-Writes id (id_exists id renew) skipped c done.0) later))
    where
      round-Writes :
          (id : ℕ) (do_renew skipped : Bool) (c : Cluster F)
          → (if skipped then (true, c) else add_node F env name id do_renew c).0 ≡ true
          → Writes F L env name
              (λ j. not skipped && id == j)
              c.files
              (if skipped then (true, c) else add_node F env name id do_renew c).1.files
      round-Writes id do_renew true c h = Writes-nobody F L env name c.files
      round-Writes id do_renew false c h = add_node-Writes id do_renew c h
