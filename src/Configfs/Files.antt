-- ===== src/Configfs/Files.antt =====
-- The calls of the file system that group/dlm_controld/action.c makes below configfs.
use dlm.Base.{ℕ, ◌≡◌, Bool, true, false, not, ◌&&◌, ◌||◌, Option, none, some, List, [], ◌∷◌, ◌==◌}
use dlm.Plock.Device.{same_name}

-- The directories that the code names: /sys/kernel/config, its dlm and its dlm/cluster; below that
-- SPACES_DIR/name, SPACES_DIR/name/nodes/id and COMMS_DIR/id.
pub data DirPath : Type 0 where
  config_dir dlm_dir cluster_dir : DirPath
  space : List ℕ → DirPath
  space_node : List ℕ → ℕ → DirPath
  comm : ℕ → DirPath

-- The files in them.
pub data File : Type 0 where
  nodeid weight addr local protocol timewarn_cs log_debug : File

-- What is written: the digits of a number, or the bytes of an address.
pub data Value : Type 0 where
  number : ℕ → Value
  bytes : List ℕ → Value

-- The results of `mkdir`: 0, -1 with EEXIST, -1 otherwise.
pub data Made : Type 0 where
  made present refused : Made

-- The file system. `write` stands for `open`, `do_write` and `close`; `nodes`, `comms` and
-- `spaces` list the numbers or names in a directory, `none` if it cannot be opened; `read` is what
-- the kernel finds in a file.
pub record Files : Type 1 where
  pub State : Type 0
  pub path_exists : DirPath → State → Bool
  pub mkdir : DirPath → State → Made × State
  pub rmdir : DirPath → State → Bool × State
  pub write : DirPath → File → Value → State → Bool × State
  pub nodes : List ℕ → State → Option (List ℕ)
  pub comms : State → Option (List ℕ)
  pub spaces : State → Option (List (List ℕ))
  pub read : DirPath → File → State → Option Value

unfoldable pub id_exists : ℕ → List ℕ → Bool
id_exists id [] = false
id_exists id (x ∷ rest) = x == id || id_exists id rest

abbrev pub is_made : Made → Bool
is_made made = true
is_made present = true
is_made refused = false

-- A path is that of a node of a lockspace.
unfoldable pub is_node : DirPath → List ℕ → ℕ → Bool
unfolding same_name
is_node (space_node m i) n j = same_name m n && i == j
is_node _ n j = false

-- A node is listed below a lockspace.
unfoldable pub has_node : (F : Files) → List ℕ → ℕ → F.State → Bool
unfolding id_exists
has_node F n j s = elim (F.nodes n s) [ none ↦ false | some ids ↦ id_exists j ids ]

-- What is relied on: a directory that was made, or was there, is listed, one that was removed is
-- not, a file that was written holds what was written, and nothing else changes.
pub record IsLawful (F : Files) : Type 0 where
  pub has_node-mkdir :
      (n : List ℕ) (j : ℕ) (p : DirPath) (s : F.State)
      → has_node F n j (F.mkdir p s).1
        ≡ (is_made (F.mkdir p s).0 && is_node p n j || has_node F n j s)
  pub has_node-rmdir :
      (n : List ℕ) (j : ℕ) (p : DirPath) (s : F.State)
      → has_node F n j (F.rmdir p s).1
        ≡ (not ((F.rmdir p s).0 && is_node p n j) && has_node F n j s)
  pub has_node-write :
      (n : List ℕ) (j : ℕ) (p : DirPath) (f : File) (v : Value) (s : F.State)
      → has_node F n j (F.write p f v s).1 ≡ has_node F n j s
  pub read-mkdir :
      (n : List ℕ) (j : ℕ) (g : File) (p : DirPath) (s : F.State)
      → is_node p n j ≡ false
      → F.read (space_node n j) g (F.mkdir p s).1 ≡ F.read (space_node n j) g s
  pub read-rmdir :
      (n : List ℕ) (j : ℕ) (g : File) (p : DirPath) (s : F.State)
      → is_node p n j ≡ false
      → F.read (space_node n j) g (F.rmdir p s).1 ≡ F.read (space_node n j) g s
  pub read-write :
      (p : DirPath) (f : File) (v : Value) (s : F.State)
      → (F.write p f v s).0 ≡ true
      → F.read p f (F.write p f v s).1 ≡ some v
  pub read-write_other :
      (n : List ℕ) (j : ℕ) (g : File) (p : DirPath) (f : File) (v : Value) (s : F.State)
      → is_node p n j ≡ false
      → F.read (space_node n j) g (F.write p f v s).1 ≡ F.read (space_node n j) g s
  -- the two files that belong to each node of a lockspace
  pub nodeid-write_weight :
      (p : DirPath) (v : Value) (s : F.State)
      → F.read p nodeid (F.write p weight v s).1 ≡ F.read p nodeid s
