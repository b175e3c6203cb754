-- ===== src/Fs/Remove.antt =====
-- `fs_rm` on a valid filesystem.
use openkernel.Base.{
  ℕ, zero, suc, ◌+◌, ◌≤◌, ◌<◌, ◌≡◌, ◌≢◌, refl, sym, ap, ◌∙◌, ◌⊎◌, inl, inr, Bool, true, false, ◌&&◌,
  not, none, some, arith, ◌==◌, Bool-cases, update, update_self, update_ne, ==_eq, ==_refl, Text,
}
use openkernel.Fs.{Kind, dir, file, fault, Result, ok, err, Node, Fs}
use openkernel.Fs.Nodes.{fs_find_child, is_file, has_parent}
use openkernel.Fs.Path.{fs_resolve}
use openkernel.Fs.Commands.{fs_rm, any_child, remove_node, removed_node}
use openkernel.Fs.Valid.{IsEntry, IsDir, IsTree, IsStored, IsValid}
use openkernel.Fs.Search.{find_child-result}
use openkernel.Fs.Create.{IsSameEntry-eq, IsEntry-same, IsDir-same}
use openkernel.Fs.Entries.{resolve_view, rebuild_same}

any_child-none :
    (k i : ℕ) (nodes : ℕ → Node) (id : ℕ)
    → any_child k i nodes id ≡ false
    → (j : ℕ) → i ≤ j
    → j < i + k
    → ((nodes j).used && has_parent (nodes j) id) ≡ false
unfolding any_child
any_child-none zero i nodes id h j lo hi = absurd (omega arith)
any_child-none (suc k) i nodes id h j lo hi = elim (Bool-cases (i == j)) [
  | inl here ↦
      ap (λ t. (nodes t).used && has_parent (nodes t) id) (sym (==_eq i j here)) ∙ ground arith
  | inr later ↦ any_child-none k (i + 1) nodes id (ground arith) j (ground arith) (omega arith)
]

-- Slot `id` is free and empty, the others are as they were, and a current directory that was
-- removed has given way to its parent.
record Freed (id parent : ℕ) (fs fs' : Fs) : Type 0 where
  unused : (fs'.nodes id).used ≡ false
  empty : IsStored (fs'.nodes id)
  others : (i : ℕ) → id ≢ i → fs'.nodes i ≡ fs.nodes i
  cwd : ((fs.cwd ≡ id) × (fs'.cwd ≡ parent)) ⊎ ((id ≢ fs.cwd) × (fs'.cwd ≡ fs.cwd))

from-Freed :
    (id parent : ℕ) (fs left : Fs) (m : Node)
    → left.nodes ≡ update fs.nodes id m
    → ((fs.cwd ≡ id) × (left.cwd ≡ parent)) ⊎ ((id ≢ fs.cwd) × (left.cwd ≡ fs.cwd))
    → Freed id parent fs
        (record left { nodes = update left.nodes id (removed_node (left.nodes id)) })
from-Freed id parent fs left m nodes cwd =
    let self = update_self left.nodes id (removed_node (left.nodes id)) in
    record {
      unused = ap (λ n. n.used) self;
      empty = rw self (record { size = refl; fits = omega arith; bounded = omega arith });
      others = λ i ne.
          update_ne left.nodes id _ i ne ∙ ap (λ f. f i) nodes ∙ update_ne fs.nodes id m i ne;
      cwd = cwd;
    }

remove_node-Freed :
    (id parent : ℕ) (fs : Fs)
    → (fs.nodes id).parent ≡ some parent
    → Freed id parent fs (remove_node id fs)
unfolding remove_node
remove_node-Freed id parent fs up = elim (Bool-cases (fs.cwd == id)) [
  | inl here ↦
      rw (here, up, remove_node)
        (from-Freed id parent fs _ _ (rebuild_same _).0 (inl (==_eq _ _ here, (rebuild_same _).1)))
  | inr apart ↦
      rw (apart, remove_node) (from-Freed id parent fs _ _ refl (inr (ground arith, refl)))
]

-- A node without entries of its own goes: the nodes are still a tree.
module _ (fs fs' : Fs) (rank : ℕ → ℕ) (id parent : ℕ) (valid : IsValid fs rank)
    (entry : IsEntry fs.nodes id parent) (childless : (j : ℕ) → IsEntry fs.nodes j id → ⊥)
    (freed : Freed id parent fs fs') where
  apart : (i : ℕ) → (fs'.nodes i).used ≡ true → id ≢ i
  apart i used e = let same = ap (λ t. (fs'.nodes t).used) e in let gone = freed.unused in cc

  old-IsEntry : (i p : ℕ) → IsEntry fs'.nodes i p → IsEntry fs.nodes i p
  old-IsEntry i p h =
      IsEntry-same fs'.nodes fs.nodes i p (IsSameEntry-eq _ _ (freed.others i (apart i h.used))) h

  kept-IsDir : (p : ℕ) → id ≢ p → IsDir fs.nodes p → IsDir fs'.nodes p
  kept-IsDir p ne = IsDir-same fs.nodes fs'.nodes p (IsSameEntry-eq _ _ (sym (freed.others p ne)))

  below_kept : (i p : ℕ) → IsEntry fs.nodes i p → id ≢ p
  below_kept i p h e = childless i (rw e h)

  name_kept : (i p : ℕ) → IsEntry fs'.nodes i p → (fs'.nodes i).name ≡ (fs.nodes i).name
  name_kept i p h = ap (λ n. n.name) (freed.others i (apart i h.used))

  freed_IsTree : IsTree fs'.nodes rank
  freed_IsTree = record {
    root = kept-IsDir 0 entry.not_root valid.tree.root;
    parent_of = λ i lt ne used.
        let same = freed.others i (apart i used) in
        let (p, h) = valid.tree.parent_of i lt ne (ap (λ n. n.used) (sym same) ∙ used) in
        (p, IsEntry-same fs.nodes fs'.nodes i p (IsSameEntry-eq _ _ (sym same)) h);
    parent_dir = λ i p h.
        kept-IsDir p (below_kept i p (old-IsEntry i p h))
          (valid.tree.parent_dir i p (old-IsEntry i p h));
    ranked = λ i p h. valid.tree.ranked i p (old-IsEntry i p h);
    distinct = λ i j p h_i h_j names.
        valid.tree.distinct i j p (old-IsEntry i p h_i) (old-IsEntry j p h_j)
          (sym (name_kept i p h_i) ∙ names ∙ name_kept j p h_j);
  }

  freed_cwd : IsDir fs'.nodes fs'.cwd
  freed_cwd = elim freed.cwd [
    | inl (here, moved) ↦
        rw moved
          (kept-IsDir parent (below_kept id parent entry) (valid.tree.parent_dir id parent entry))
    | inr (ne, stays) ↦ rw stays (kept-IsDir fs.cwd ne valid.cwd)
  ]

  freed_IsValid : IsValid fs' rank
  freed_IsValid = record {
    tree = freed_IsTree;
    cwd = freed_cwd;
    stored = λ i lt. elim (Bool-cases (id == i)) [
      | inl here ↦ rw (sym (==_eq id i here)) freed.empty
      | inr there ↦ rw (freed.others i (ground arith)) (valid.stored i lt)
    ];
  }

  not_found_now : fs_find_child fs'.nodes parent (fs.nodes id).name ≡ none
  not_found_now = elim (find_child-result fs'.nodes parent (fs.nodes id).name) [
    | inr (e, _) ↦ e
    | inl (s, e, h, named) ↦ absurd (
        apart s h.used (
          valid.tree.distinct id s parent entry (old-IsEntry s parent h)
            (sym named ∙ name_kept s parent h)))
  ]

-- After a removal: the path's node is not the root, no other node changes, the search in its
-- directory does not find its name, and the filesystem is valid; or nothing changes.
abbrev pub Removed : Text → Fs → (ℕ → ℕ) → Result (Unit {0}) × Fs → Type 0
Removed path fs rank (err e, fs') = (e ≢ fault) × (fs' ≡ fs)
Removed path fs rank (ok _, fs') =
    (id : ℕ) × (parent : ℕ) × (fs_resolve fs.nodes fs.cwd path false ≡ ok id)
    × IsEntry fs.nodes id parent
    × (fs_find_child fs'.nodes parent (fs.nodes id).name ≡ none)
    × ((i : ℕ) → id ≢ i → fs'.nodes i ≡ fs.nodes i)
    × IsValid fs' rank

of_dir : (k : Kind) (b : Bool) → k ≡ dir → (not (is_file k) && b) ≡ false → b ≡ false
of_dir dir b e h = h
of_dir file b e h = absurd cc

childless_node :
    (fs : Fs) (rank : ℕ → ℕ) (id : ℕ)
    → IsValid fs rank
    → (not (is_file (fs.nodes id).kind) && any_child 127 1 fs.nodes id) ≡ false
    → (j : ℕ) → IsEntry fs.nodes j id
    → ⊥
childless_node fs rank id valid h j entry =
    let home = valid.tree.parent_dir j id entry in
    let none_here : any_child 127 1 fs.nodes id ≡ false = of_dir _ _ home.kind h in
    let no_entry =
      any_child-none 127 1 fs.nodes id none_here j (omega (arith, entry.not_root))
        (omega (arith, entry.below)) in
    let there : ((fs.nodes j).used && has_parent (fs.nodes j) id) ≡ true =
      rw (entry.used, entry.parent) (==_refl id) in
    cc

-- `fs_rm` in a valid filesystem removes a file or an empty directory other than the root, or
-- returns an error code and changes nothing.
pub fs_rm_lem :
    (path : Text) (fs : Fs) (rank : ℕ → ℕ) → IsValid fs rank → Removed path fs rank (fs_rm path fs)
unfolding fs_rm
fs_rm_lem path fs rank valid = elim (resolve_view path fs rank false valid) [
  | inl (e, at, no_fault) ↦ rw (at, fs_rm) (no_fault, refl)
  | inr (id, at, node, _) ↦ elim (Bool-cases (id == 0)) [
    | inl root ↦ rw (at, root, fs_rm) (λ f. absurd cc, refl)
    | inr below ↦
        elim (Bool-cases (not (is_file (fs.nodes id).kind) && any_child 127 1 fs.nodes id)) [
          | inl children ↦ rw (at, below, children, fs_rm) (λ f. absurd cc, refl)
          | inr childless ↦
              let (parent, entry) = valid.tree.parent_of id node.below (ground arith) node.used in
              let freed = remove_node-Freed id parent fs entry.parent in
              let empty = childless_node fs rank id valid childless in
              rw (at, below, childless, fs_rm)
                (
                  id,
                  parent,
                  at,
                  entry,
                  not_found_now fs _ rank id parent valid entry empty freed,
                  freed.others,
                  freed_IsValid fs _ rank id parent valid entry empty freed,
                )
        ]
  ]
]
