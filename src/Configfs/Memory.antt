-- ===== src/Configfs/Memory.antt =====
-- A file system in memory, which meets what is relied on.
use dlm.Base.{
  ℕ, ◌≡◌, refl, ap, Bool, true, false, not, ◌&&◌, ◌||◌, Option, some, List, [], ◌∷◌, ◌==◌,
  if◌then◌else◌, arith, ==→eq,
}
use dlm.Plock.Device.{same_name}
use dlm.Configfs.Files.{
  DirPath, config_dir, dlm_dir, cluster_dir, space, space_node, comm, File, nodeid, weight, addr,
  local, protocol, timewarn_cs, log_debug, Value, Made, made, present, Files, IsLawful, is_made,
  is_node, has_node, id_exists,
}
use dlm.Plock.Names.{same_name_self, same_name→eq}

pub record Disk : Type 0 where
  pub dirs : List (List ℕ × ℕ)
  pub files : DirPath → File → Option Value

ids_of : List ℕ → List (List ℕ × ℕ) → List ℕ
ids_of n [] = []
ids_of n ((m, i) ∷ rest) = if same_name m n then i ∷ ids_of n rest else ids_of n rest

remove : List ℕ → ℕ → List (List ℕ × ℕ) → List (List ℕ × ℕ)
remove m i [] = []
remove m i ((n, j) ∷ rest) =
    if same_name m n && i == j then remove m i rest else (n, j) ∷ remove m i rest

abbrev file_code : File → ℕ
file_code nodeid = 0
file_code weight = 1
file_code addr = 2
file_code local = 3
file_code protocol = 4
file_code timewarn_cs = 5
file_code log_debug = 6

same_path : DirPath → DirPath → Bool
unfolding is_node same_name
same_path p (space_node n j) = is_node p n j
same_path (space m) (space n) = same_name m n
same_path (comm i) (comm j) = i == j
same_path config_dir config_dir = true
same_path dlm_dir dlm_dir = true
same_path cluster_dir cluster_dir = true
same_path _ _ = false

make : DirPath → Disk → Made × Disk
unfolding id_exists ids_of
make (space_node m i) s =
    if id_exists i (ids_of m s.dirs)
    then (present, s)
    else (made, record s { dirs = (m, i) ∷ s.dirs })
make _ s = (made, s)

drop : DirPath → Disk → Bool × Disk
unfolding remove
drop (space_node m i) s = (true, record s { dirs = remove m i s.dirs })
drop _ s = (true, s)

abbrev put : DirPath → File → Value → Disk → Bool × Disk
put p f v s = (
  true,
  record s {
    files = λ q g. if same_path p q && file_code f == file_code g then some v else s.files q g;
  },
)

unfoldable pub memory : Files
unfolding make drop same_path ids_of
memory = record {
  State = Disk;
  path_exists = λ p s. true;
  mkdir = make;
  rmdir = drop;
  write = put;
  nodes = λ n s. some (ids_of n s.dirs);
  comms = λ s. some [];
  spaces = λ s. some [];
  read = λ p f s. s.files p f;
}

id_exists-ids_of-remove :
    (n : List ℕ) (j : ℕ) (m : List ℕ) (i : ℕ) (dirs : List (List ℕ × ℕ))
    → id_exists j (ids_of n (remove m i dirs))
      ≡ (not (same_name m n && i == j) && id_exists j (ids_of n dirs))
unfolding ids_of remove id_exists
id_exists-ids_of-remove n j m i [] = ground arith
id_exists-ids_of-remove n j m i ((a, b) ∷ rest) = ground (
  arith,
  id_exists-ids_of-remove n j m i rest,
  same_name→eq m a,
  same_name→eq a n,
  same_name→eq m n,
  same_name_self n,
  same_name_self m,
)

same_path_self : (p : DirPath) → same_path p p ≡ true
unfolding same_path is_node
same_path_self (space_node n j) = ground (arith, same_name_self n)
same_path_self (space n) = same_name_self n
same_path_self (comm j) = ground arith
same_path_self config_dir = refl
same_path_self dlm_dir = refl
same_path_self cluster_dir = refl

file_code_self : (f : File) → (file_code f == file_code f) ≡ true
file_code_self f = ground arith

mkdir_law :
    (n : List ℕ) (j : ℕ) (p : DirPath) (s : Disk)
    → id_exists j (ids_of n (make p s).1.dirs)
      ≡ (is_made (make p s).0 && is_node p n j || id_exists j (ids_of n s.dirs))
unfolding make ids_of id_exists is_node
mkdir_law n j (space_node m i) s =
    ground
      (arith, same_name→eq m n, ap (λ k. id_exists k (ids_of m s.dirs)) {x = i} {y = j}, ==→eq i j)
mkdir_law n j (space m) s = refl
mkdir_law n j (comm i) s = refl
mkdir_law n j config_dir s = refl
mkdir_law n j dlm_dir s = refl
mkdir_law n j cluster_dir s = refl

rmdir_law :
    (n : List ℕ) (j : ℕ) (p : DirPath) (s : Disk)
    → id_exists j (ids_of n (drop p s).1.dirs)
      ≡ (not ((drop p s).0 && is_node p n j) && id_exists j (ids_of n s.dirs))
unfolding drop is_node
rmdir_law n j (space_node m i) s = id_exists-ids_of-remove n j m i s.dirs
rmdir_law n j (space m) s = refl
rmdir_law n j (comm i) s = refl
rmdir_law n j config_dir s = refl
rmdir_law n j dlm_dir s = refl
rmdir_law n j cluster_dir s = refl

make-files : (p : DirPath) (s : Disk) → (make p s).1.files ≡ s.files
unfolding make
make-files (space_node m i) s = ground arith
make-files (space m) s = refl
make-files (comm i) s = refl
make-files config_dir s = refl
make-files dlm_dir s = refl
make-files cluster_dir s = refl

drop-files : (p : DirPath) (s : Disk) → (drop p s).1.files ≡ s.files
unfolding drop
drop-files (space_node m i) s = refl
drop-files (space m) s = refl
drop-files (comm i) s = refl
drop-files config_dir s = refl
drop-files dlm_dir s = refl
drop-files cluster_dir s = refl

pub memory-IsLawful : IsLawful memory
unfolding memory has_node
memory-IsLawful = record {
  has_node-mkdir = mkdir_law;
  has_node-rmdir = rmdir_law;
  has_node-write = λ n j p f v s. refl;
  read-mkdir = λ n j g p s h. ap (λ fs. fs (space_node n j) g) (make-files p s);
  read-rmdir = λ n j g p s h. ap (λ fs. fs (space_node n j) g) (drop-files p s);
  read-write = λ p f v s h. ground (arith, same_path_self p, file_code_self f);
  read-write_other = λ n j g p f v s h. unfold same_path in ground (arith, h);
  nodeid-write_weight = λ p v s. ground arith;
}
