-- ===== src/Fs.antt =====
-- The state of the in-memory filesystem of src/kernel/fs.c (OKFS): an array of nodes, the current
-- directory and the heap that file contents come from.
pub mod Strings
pub mod Nodes
pub mod Path
pub mod File
pub mod Commands
pub mod Messages
pub mod Listing
pub mod Lines
pub mod Editor
pub mod Shell
pub mod Valid
pub mod Search
pub mod Resolve
pub mod Create
pub mod Contents
pub mod Update
pub mod Entries
pub mod Remove
mod Tests
use openkernel.Base.{ℕ, ◌*◌, Bool, List, Option, Text}
use openkernel.Memory.Heap.{Heap}

abbrev pub max_nodes : ℕ
max_nodes = 128

abbrev pub max_path : ℕ
max_path = 256

abbrev pub max_name : ℕ
max_name = 48

abbrev pub max_file_size : ℕ
max_file_size = 64 * 1024

-- `fs_type_t`
pub data Kind : Type 0 where
  dir file : Kind

-- The error codes of fs.h. `fault` is none of them: it stands for an access to `nodes[-1]`, for a
-- loop that ran out of fuel, and for a heap whose block list does not end.
pub data Error : Type 0 where
  not_found exists not_dir not_file not_txt no_space invalid full not_empty fault : Error

pub data Result {ℓ} (A : Type ℓ) : Type ℓ where
  ok : A → Result A
  err : Error → Result A

-- `fs_node_t`. `parent` is `none` for -1; `address` is the pointer `data`, and `bytes` are the
-- first `size` bytes that it points to.
pub record Node : Type 0 where
  pub used : Bool
  pub parent : Option ℕ
  pub kind : Kind
  pub name : Text
  pub address : ℕ
  pub bytes : List ℕ
  pub size : ℕ
  pub cap : ℕ

pub record Fs : Type 0 where
  pub nodes : ℕ → Node
  pub cwd : ℕ
  pub cwd_path : Text
  pub heap : Heap
