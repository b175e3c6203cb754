-- ===== src/Fs/Tests.antt =====
-- The filesystem at concrete inputs, and its theorems there.
use openkernel.Base.{
  ℕ, ◌≡◌, ◌≢◌, refl, inl, inr, true, false, List, [], ◌∷◌, arith, codes, update, ◌==◌, Bool-cases,
}
use openkernel.Memory.Heap.{Heap, heap_init, kmalloc, best_fit_loop, take_block, align16}
use openkernel.Fs.{dir, file, ok, Fs}
use openkernel.Fs.Strings.{streq, strcpy, ends_with_txt, is_valid_name, fs_strlen}
use openkernel.Fs.Nodes.{fs_alloc_node, alloc_loop, fs_find_child, find_loop, fs_create_entry}
use openkernel.Fs.Path.{
  fs_resolve, resolve_loop, fs_resolve_parent, fs_rebuild_cwd_path, enter, skip_slashes,
  split_component, split_last_slash, climb, join_names,
}
use openkernel.Fs.File.{fs_write_file, fs_set_file_data, reserve, grown_cap, grow_loop}
use openkernel.Fs.Commands.{fs_cd, fs_mkdir, fs_rm, fs_init, empty_fs, readme_text, unused_node}
use openkernel.Memory.Heap.Chain.{Cell}
use openkernel.Fs.Nodes.{fresh_node}
use openkernel.Fs.Valid.{IsValid}
use openkernel.Fs.Resolve.{Resolved, fs_resolve-Resolved}
use openkernel.Fs.Create.{Created, fs_create_entry_lem}
use openkernel.Fs.Remove.{Removed, fs_rm_lem}

abbrev no_heap : Heap
no_heap = record {
  block_at = λ _. record { next = 0; size = 0; free = false };
  heap_start = 0;
  heap_end = 0;
}

abbrev blank : Fs
blank = record { nodes = λ _. unused_node; cwd = 0; cwd_path = []; heap = heap_init no_heap }

running : Fs
unfolding fs_strlen fs_init empty_fs fs_mkdir fs_write_file fs_create_entry fs_find_child find_loop
    fs_alloc_node alloc_loop fs_resolve resolve_loop fs_resolve_parent enter skip_slashes
    split_component split_last_slash fs_set_file_data reserve grown_cap grow_loop streq strcpy
    ends_with_txt is_valid_name heap_init kmalloc best_fit_loop take_block align16
running = fs_init blank

readme_found : fs_resolve running.nodes 0 (codes "docs/..//./readme.txt") false ≡ ok 2
unfolding running
readme_found = refl

readme_bytes : (running.nodes 2).bytes ≡ readme_text
unfolding running
readme_bytes = refl

cd_docs : (fs_cd (codes "docs") running).1.cwd_path ≡ codes "docs"
unfolding running fs_cd fs_rebuild_cwd_path climb join_names
cd_docs = refl

-- A filesystem with the root alone, then with a directory in it, then with a file in that.
abbrev no_rank : ℕ → ℕ
no_rank _ = 0

root_only_IsValid : (fs : Fs) → IsValid (empty_fs fs) no_rank
unfolding empty_fs
root_only_IsValid fs = record {
  tree = record {
    root = record { below = omega arith; used = refl; kind = refl };
    parent_of = λ i lt ne used. absurd (root_alone i ne used);
    parent_dir = λ i p h. absurd (root_alone i h.not_root h.used);
    ranked = λ i p h. absurd (root_alone i h.not_root h.used);
    distinct = λ i j p h_i h_j names. absurd (root_alone i h_i.not_root h_i.used);
  };
  cwd = record { below = omega arith; used = refl; kind = refl };
  stored = λ i lt. elim (Bool-cases (0 == i)) [
    | inl here ↦ rw here (record { size = refl; fits = omega arith; bounded = omega arith })
    | inr there ↦ rw there (record { size = refl; fits = omega arith; bounded = omega arith })
  ];
}
  where
    root_alone :
        (i : ℕ)
        → i ≢ 0
        → (update (λ _. unused_node) 0 (record unused_node { used = true }) i).used ≡ true
        → ⊥
    root_alone i ne h = ground arith

abbrev one_cell : List Cell
one_cell = record { size = 67108852; free = true } ∷ []

abbrev root_fs : Fs
root_fs = record blank {
  nodes = update (λ _. unused_node) 0 (record unused_node { used = true });
  cwd_path = codes "/";
}

abbrev docs_fs : Fs
docs_fs = record root_fs { nodes = update root_fs.nodes 1 (fresh_node 0 (codes "docs") dir) }

abbrev docs_rank : ℕ → ℕ
docs_rank = update no_rank 1 1

abbrev text_fs : Fs
text_fs = record docs_fs { nodes = update docs_fs.nodes 2 (fresh_node 1 (codes "a.txt") file) }

abbrev text_rank : ℕ → ℕ
text_rank = update docs_rank 2 2

root_fs-IsValid : IsValid root_fs no_rank
unfolding empty_fs
root_fs-IsValid = root_only_IsValid blank

docs_fs-IsValid : IsValid docs_fs docs_rank
unfolding fs_create_entry fs_find_child find_loop fs_alloc_node alloc_loop streq strcpy
    is_valid_name
docs_fs-IsValid =
    (fs_create_entry_lem root_fs no_rank 0 (codes "docs") dir root_fs-IsValid
      (record { below = omega arith; used = refl; kind = refl }) (omega arith)).3

text_made :
    Created docs_rank 1
      (codes "a.txt")
      file
      docs_fs
      (fs_create_entry 1 (codes "a.txt") file docs_fs)
text_made =
    fs_create_entry_lem docs_fs docs_rank 1 (codes "a.txt") file docs_fs-IsValid
      (record { below = omega arith; used = refl; kind = refl }) (omega arith)

text_fs-IsValid : IsValid text_fs text_rank
unfolding fs_create_entry fs_find_child find_loop fs_alloc_node alloc_loop streq strcpy
    is_valid_name ends_with_txt
text_fs-IsValid = text_made.3

fs_resolve-Resolved_example :
    Resolved text_fs.nodes true (fs_resolve text_fs.nodes 1 (codes "../docs") true)
fs_resolve-Resolved_example =
    fs_resolve-Resolved text_fs.nodes text_rank text_fs-IsValid.tree 1 (codes "../docs") true
      (record { below = omega arith; used = refl })

fs_rm_lem_example :
    Removed (codes "docs/a.txt") text_fs text_rank (fs_rm (codes "docs/a.txt") text_fs)
fs_rm_lem_example = fs_rm_lem (codes "docs/a.txt") text_fs text_rank text_fs-IsValid
