-- ===== src/Fs/Valid.antt =====
-- The tree that the nodes of the filesystem form.
use openkernel.Base.{ℕ, ◌≤◌, ◌<◌, ◌≡◌, ◌≢◌, true, some, length}
use openkernel.Fs.{dir, Node, Fs, max_nodes, max_file_size}

-- Node `i` is an entry of the directory `p`.
pub record IsEntry (nodes : ℕ → Node) (i p : ℕ) : Type 0 where
  pub below : i < max_nodes
  pub not_root : i ≢ 0
  pub used : (nodes i).used ≡ true
  pub parent : (nodes i).parent ≡ some p

pub record IsDir (nodes : ℕ → Node) (p : ℕ) : Type 0 where
  pub below : p < max_nodes
  pub used : (nodes p).used ≡ true
  pub kind : (nodes p).kind ≡ dir

-- Slot 0 is the root; every other slot in use is an entry of a directory in use, no two entries of
-- a directory share a name, and `rank` grows from a directory to its entries, so that the parents
-- of a node lead to the root.
pub record IsTree (nodes : ℕ → Node) (rank : ℕ → ℕ) : Type 0 where
  pub root : IsDir nodes 0
  pub parent_of :
      (i : ℕ) → i < max_nodes → i ≢ 0 → (nodes i).used ≡ true → (p : ℕ) × IsEntry nodes i p
  pub parent_dir : (i p : ℕ) → IsEntry nodes i p → IsDir nodes p
  pub ranked : (i p : ℕ) → IsEntry nodes i p → rank p < rank i
  pub distinct :
      (i j p : ℕ) → IsEntry nodes i p → IsEntry nodes j p → (nodes i).name ≡ (nodes j).name → i ≡ j

-- The contents of each file fit its buffer, and the buffer fits the largest file size.
pub record IsStored (n : Node) : Type 0 where
  pub size : n.size ≡ length n.bytes
  pub fits : n.size ≤ n.cap
  pub bounded : n.cap ≤ max_file_size

pub record IsValid (fs : Fs) (rank : ℕ → ℕ) : Type 0 where
  pub tree : IsTree fs.nodes rank
  pub cwd : IsDir fs.nodes fs.cwd
  pub stored : (i : ℕ) → i < max_nodes → IsStored (fs.nodes i)
