-- ===== src/Configfs/Weight.antt =====
-- group/dlm_controld/config.c: the weight of a node in a lockspace.
use dlm.Base.{ℕ, Bool, false, not, ◌||◌, Option, none, some, List, [], ◌∷◌, ◌==◌, if◌then◌else◌}
use dlm.Plock.Device.{same_name}

-- A C `int`; `negsuc n` is -(n + 1).
pub data ℤ : Type 0 where
  pos : ℕ → ℤ
  negsuc : ℕ → ℤ

-- What ccs answers about the nodes: the clusternode lines in order, as far as they have a nodeid,
-- each with its name if it has one; the masters of a lockspace; and the weights that are given. The
-- texts of numbers are read by `atoi`.
pub record Ccs : Type 0 where
  pub clusternodes : List (ℤ × Option (List ℕ))
  pub masters : List ℕ → List (List ℕ)
  pub master_weight : List ℕ → List ℕ → Option ℤ
  pub node_weight : List ℕ → Option ℤ

abbrev pub has_name : List ℕ → List (List ℕ) → Bool
has_name name [] = false
has_name name (m ∷ rest) = same_name m name || has_name name rest

-- `get_weight_lockspace`
unfoldable pub get_weight_lockspace : Ccs → List ℕ → List ℕ → ℤ
unfolding same_name
get_weight_lockspace ccs node lockspace = elim (ccs.masters lockspace) [
  | [] ↦ negsuc 0
  | m ∷ rest ↦
      if not (has_name node (m ∷ rest))
      then pos 0
      else elim (ccs.master_weight lockspace node) [ none ↦ pos 1 | some w ↦ w ]
]

-- `get_weight_clusternode`
unfoldable pub get_weight_clusternode : Ccs → List ℕ → ℤ
get_weight_clusternode ccs node = elim (ccs.node_weight node) [ none ↦ negsuc 0 | some w ↦ w ]

abbrev pub is_id : ℤ → ℕ → Bool
is_id (pos n) nodeid = n == nodeid
is_id (negsuc n) nodeid = false

-- The loop of `nodeid2name`; `none` is -1.
unfoldable pub nodeid2name : List (ℤ × Option (List ℕ)) → ℕ → Option (List ℕ)
nodeid2name [] nodeid = none
nodeid2name ((id, name) ∷ rest) nodeid = if is_id id nodeid then name else nodeid2name rest nodeid

-- The two tests `w >= 0`.
abbrev pub weight_or : ℤ → ℕ → ℕ
weight_or (pos w) other = w
weight_or (negsuc w) other = other

-- `get_weight`, a weight that is not negative.
unfoldable pub get_weight : Ccs → ℕ → List ℕ → ℕ
unfolding get_weight_lockspace get_weight_clusternode nodeid2name
get_weight ccs nodeid lockspace = elim (nodeid2name ccs.clusternodes nodeid) [
  | none ↦ 1
  | some node ↦
      weight_or (get_weight_lockspace ccs node lockspace)
        (weight_or (get_weight_clusternode ccs node) 1)
]
