-- ===== src/Fs/Search.antt =====
-- What the two searches over the node array find.
use openkernel.Base.{
  ℕ, zero, suc, ◌+◌, ◌≤◌, ◌<◌, ◌≡◌, ◌≢◌, refl, sym, ap, ◌∙◌, ◌⊎◌, inl, inr, true, false, none, some,
  arith, ◌==◌, Bool-cases, Text, ==_eq,
}
use openkernel.Fs.{Node, max_nodes}
use openkernel.Fs.Strings.{streq_eq, streq_refl}
use openkernel.Fs.Nodes.{alloc_loop, fs_alloc_node, is_child, find_loop, fs_find_child}
use openkernel.Fs.Valid.{IsEntry}

alloc_loop-result :
    (k i : ℕ) (nodes : ℕ → Node)
    → ((s : ℕ) × (alloc_loop k i nodes ≡ some s) × (i ≤ s) × (s < i + k) × ((nodes s).used ≡ false))
      ⊎ ((alloc_loop k i nodes ≡ none) × ((j : ℕ) → i ≤ j → j < i + k → (nodes j).used ≡ true))
unfolding alloc_loop
alloc_loop-result zero i nodes = inr (refl, λ j h h'. absurd (omega arith))
alloc_loop-result (suc k) i nodes = elim (Bool-cases (nodes i).used) [
  | inl used ↦ elim (alloc_loop-result k (i + 1) nodes) [
    | inl (s, e, lo, hi, free) ↦ inl (s, rw used e, omega arith, omega arith, free)
    | inr (e, all) ↦ inr (
      rw used e,
      λ j h h'. elim (Bool-cases (i == j)) [
        | inl here ↦ ground arith
        | inr later ↦ all j (ground arith) (omega arith)
      ],
    )
  ]
  | inr free ↦ inl (i, rw free, omega arith, omega arith, free)
]

-- `fs_alloc_node` finds a free slot other than the root's, or every slot is in use.
pub alloc_node-result :
    (nodes : ℕ → Node)
    → ((s : ℕ) × (fs_alloc_node nodes ≡ some s)
        × (0 < s)
        × (s < max_nodes)
        × ((nodes s).used ≡ false))
      ⊎ ((fs_alloc_node nodes ≡ none) × ((j : ℕ) → 0 < j → j < max_nodes → (nodes j).used ≡ true))
unfolding fs_alloc_node
alloc_node-result nodes = alloc_loop-result 127 1 nodes

find_loop-result :
    (k i : ℕ) (nodes : ℕ → Node) (parent : ℕ) (name : Text)
    → ((s : ℕ) × (find_loop k i nodes parent name ≡ some s)
        × (i ≤ s)
        × (s < i + k)
        × (is_child (nodes s) parent name ≡ true))
      ⊎ ((find_loop k i nodes parent name ≡ none)
          × ((j : ℕ) → i ≤ j → j < i + k → is_child (nodes j) parent name ≡ false))
unfolding find_loop
find_loop-result zero i nodes parent name = inr (refl, λ j h h'. absurd (omega arith))
find_loop-result (suc k) i nodes parent name = elim (Bool-cases (is_child (nodes i) parent name)) [
  | inl found ↦ inl (i, rw found, omega arith, omega arith, found)
  | inr other ↦ elim (find_loop-result k (i + 1) nodes parent name) [
    | inl (s, e, lo, hi, found) ↦ inl (s, rw other e, omega arith, omega arith, found)
    | inr (e, all) ↦ inr (
      rw other e,
      λ j h h'. elim (Bool-cases (i == j)) [
        | inl here ↦ ap (λ t. is_child (nodes t) parent name) (sym (==_eq i j here)) ∙ other
        | inr later ↦ all j (ground arith) (omega arith)
      ],
    )
  ]
]

is_child-IsEntry :
    (nodes : ℕ → Node) (s parent : ℕ) (name : Text)
    → 0 < s
    → s < max_nodes
    → is_child (nodes s) parent name ≡ true
    → IsEntry nodes s parent × ((nodes s).name ≡ name)
is_child-IsEntry nodes s parent name pos lt h = (
  record { below = lt; not_root = λ e. omega arith; used = ground arith; parent = ground arith },
  streq_eq _ _ (ground arith),
)

pub IsEntry-is_child :
    (nodes : ℕ → Node) (s parent : ℕ)
    → IsEntry nodes s parent
    → is_child (nodes s) parent (nodes s).name ≡ true
IsEntry-is_child nodes s parent h =
    rw (h.used, h.parent) (ground (arith, streq_refl (nodes s).name))

-- `fs_find_child` returns an entry of that name, or no entry has it.
pub find_child-result :
    (nodes : ℕ → Node) (parent : ℕ) (name : Text)
    → ((s : ℕ) × (fs_find_child nodes parent name ≡ some s)
        × IsEntry nodes s parent
        × ((nodes s).name ≡ name))
      ⊎ ((fs_find_child nodes parent name ≡ none)
          × ((j : ℕ) → IsEntry nodes j parent → (nodes j).name ≢ name))
unfolding fs_find_child
find_child-result nodes parent name = elim (find_loop-result 127 1 nodes parent name) [
  | inl (s, e, lo, hi, found) ↦
      let (entry, same) = is_child-IsEntry nodes s parent name lo hi found in
      inl (s, e, entry, same)
  | inr (e, all) ↦ inr (
    e,
    λ j entry same.
        let missing = all j (omega (arith, entry.not_root)) entry.below in
        let there = IsEntry-is_child nodes j parent entry in
        let there_too = ap (is_child (nodes j) parent) (sym same) ∙ there in cc,
  )
]
