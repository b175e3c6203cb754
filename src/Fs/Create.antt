-- ===== src/Fs/Create.antt =====
-- `fs_create_entry` keeps the tree of nodes, and the entry it makes is found.
use openkernel.Base.{
  ℕ, suc, ◌<◌, ◌≡◌, ◌≢◌, refl, sym, ap, ◌∙◌, ◌⊎◌, inl, inr, true, false, ◌&&◌, not, some, arith,
  ◌==◌, Bool-cases, length, update, update_self, update_ne, Text, ==_eq, take_all,
}
use openkernel.Fs.{Kind, fault, Result, ok, err, Node, Fs, max_nodes, max_name}
use openkernel.Fs.Strings.{is_valid_name, ends_with_txt, strcpy}
use openkernel.Fs.Nodes.{fs_find_child, fs_create_entry, fresh_node, is_file}
use openkernel.Fs.Valid.{IsEntry, IsDir, IsTree, IsValid}
use openkernel.Fs.Search.{find_child-result, alloc_node-result}

-- Two nodes are the same as directory entries: only their contents may differ.
pub record IsSameEntry (m n : Node) : Type 0 where
  pub used : m.used ≡ n.used
  pub parent : m.parent ≡ n.parent
  pub kind : m.kind ≡ n.kind
  pub name : m.name ≡ n.name

pub IsSameEntry-eq : (m n : Node) → m ≡ n → IsSameEntry m n
IsSameEntry-eq m n e = record {
  used = ap (λ m. m.used) e;
  parent = ap (λ m. m.parent) e;
  kind = ap (λ m. m.kind) e;
  name = ap (λ m. m.name) e;
}

pub IsSameEntry-sym : (m n : Node) → IsSameEntry m n → IsSameEntry n m
IsSameEntry-sym m n h = record {
  used = sym h.used;
  parent = sym h.parent;
  kind = sym h.kind;
  name = sym h.name;
}

pub IsEntry-same :
    (a b : ℕ → Node) (i p : ℕ) → IsSameEntry (a i) (b i) → IsEntry a i p → IsEntry b i p
IsEntry-same a b i p same h = record {
  below = h.below;
  not_root = h.not_root;
  used = sym same.used ∙ h.used;
  parent = sym same.parent ∙ h.parent;
}

pub IsDir-same : (a b : ℕ → Node) (p : ℕ) → IsSameEntry (a p) (b p) → IsDir a p → IsDir b p
IsDir-same a b p same h = record {
  below = h.below;
  used = sym same.used ∙ h.used;
  kind = sym same.kind ∙ h.kind;
}

pub IsTree-same :
    (a b : ℕ → Node) (rank : ℕ → ℕ)
    → ((i : ℕ) → IsSameEntry (a i) (b i))
    → IsTree a rank
    → IsTree b rank
IsTree-same a b rank same h =
    let back : (i p : ℕ) → IsEntry b i p → IsEntry a i p =
      λ i p. IsEntry-same b a i p (IsSameEntry-sym _ _ (same i)) in
    record {
      root = IsDir-same a b 0 (same 0) h.root;
      parent_of = λ i lt ne used.
          let (p, entry) = h.parent_of i lt ne ((same i).used ∙ used) in
          (p, IsEntry-same a b i p (same i) entry);
      parent_dir = λ i p entry. IsDir-same a b p (same p) (h.parent_dir i p (back i p entry));
      ranked = λ i p entry. h.ranked i p (back i p entry);
      distinct = λ i j p e_i e_j names.
          h.distinct i j p (back i p e_i) (back j p e_j)
            ((same i).name ∙ names ∙ sym (same j).name);
    }

-- A free slot takes a node with a new name: the nodes are still a tree.
module _ (nodes : ℕ → Node) (rank : ℕ → ℕ) (id parent : ℕ) (n : Node) (tree : IsTree nodes rank)
    (free : (nodes id).used ≡ false) (pos : 0 < id) (lt : id < max_nodes)
    (home : IsDir nodes parent) (used : n.used ≡ true) (placed : n.parent ≡ some parent)
    (new : (j : ℕ) → IsEntry nodes j parent → (nodes j).name ≢ n.name) where
  ne_free : (p : ℕ) → (nodes p).used ≡ true → id ≢ p
  ne_free p h e = let same = ap (λ t. (nodes t).used) e in cc

  old : (i p : ℕ) → id ≢ i → IsEntry (update nodes id n) i p → IsEntry nodes i p
  old i p ne =
      IsEntry-same (update nodes id n) nodes i p (IsSameEntry-eq _ _ (update_ne nodes id n i ne))

  kept : (i p : ℕ) → id ≢ i → IsEntry nodes i p → IsEntry (update nodes id n) i p
  kept i p ne =
      IsEntry-same nodes (update nodes id n) i p
        (IsSameEntry-eq _ _ (sym (update_ne nodes id n i ne)))

  kept-IsDir : (p : ℕ) → IsDir nodes p → IsDir (update nodes id n) p
  kept-IsDir p h =
      IsDir-same nodes (update nodes id n) p
        (IsSameEntry-eq _ _ (sym (update_ne nodes id n p (ne_free p h.used)))) h

  pub new-IsEntry : IsEntry (update nodes id n) id parent
  new-IsEntry = record {
    below = lt;
    not_root = λ e. omega arith;
    used = ap (λ m. m.used) (update_self nodes id n) ∙ used;
    parent = ap (λ m. m.parent) (update_self nodes id n) ∙ placed;
  }

  entries :
      (i p : ℕ)
      → IsEntry (update nodes id n) i p
      → ((id ≡ i) × (parent ≡ p) × ((update nodes id n i).name ≡ n.name))
        ⊎ ((id ≢ i) × IsEntry nodes i p × ((update nodes id n i).name ≡ (nodes i).name))
  entries i p entry = elim (Bool-cases (id == i)) [
    | inl here ↦
        let e = ==_eq id i here in
        let self = ap (update nodes id n) (sym e) ∙ update_self nodes id n in
        let up = ap (λ m. m.parent) self in
        inl (e, (let both = sym placed ∙ sym up ∙ entry.parent in cc), ap (λ m. m.name) self)
    | inr other ↦
        let ne : id ≢ i = ground arith in
        inr (ne, old i p ne entry, ap (λ m. m.name) (update_ne nodes id n i ne))
  ]

  pub insert_IsTree : IsTree (update nodes id n) (update rank id (suc (rank parent)))
  insert_IsTree = record {
    root = kept-IsDir 0 tree.root;
    parent_of = λ i below ne in_use. elim (Bool-cases (id == i)) [
      | inl here ↦ (parent, rw (sym (==_eq id i here)) new-IsEntry)
      | inr other ↦
          let ne_i : id ≢ i = ground arith in
          let (p, entry) =
            tree.parent_of i below ne
              (ap (λ m. m.used) (sym (update_ne nodes id n i ne_i)) ∙ in_use) in
          (p, kept i p ne_i entry)
    ];
    parent_dir = λ i p entry. elim (entries i p entry) [
      | inl (e, at, _) ↦ rw (sym at) (kept-IsDir parent home)
      | inr (ne, entry, _) ↦ kept-IsDir p (tree.parent_dir i p entry)
    ];
    ranked = λ i p entry. elim (entries i p entry) [
      | inl (e, at, _) ↦ let apart = ne_free parent home.used in rw (sym e, sym at) (ground arith)
      | inr (ne, entry, _) ↦
          let apart = ne_free p (tree.parent_dir i p entry).used in
          let less = tree.ranked i p entry in ground arith
    ];
    distinct = λ i j p e_i e_j names. elim (entries i p e_i) [
      | inl (here_i, at, name_i) ↦ elim (entries j p e_j) [
        | inl (here_j, _, _) ↦ sym here_i ∙ here_j
        | inr (_, entry_j, name_j) ↦
            absurd (new j (rw at entry_j) (sym name_j ∙ sym names ∙ name_i))
      ]
      | inr (_, entry_i, name_i) ↦ elim (entries j p e_j) [
        | inl (here_j, at, name_j) ↦ absurd (new i (rw at entry_i) (sym name_i ∙ names ∙ name_j))
        | inr (_, entry_j, name_j) ↦
            tree.distinct i j p entry_i entry_j (sym name_i ∙ names ∙ name_j)
      ]
    ];
  }

-- The outcome of `fs_create_entry`: an error code and no change, or a slot that was free holds the
-- new entry, the search finds it, and the filesystem stays valid.
abbrev pub Created : (ℕ → ℕ) → ℕ → Text → Kind → Fs → Result ℕ × Fs → Type 0
Created rank parent name kind fs (err e, fs') = (e ≢ fault) × (fs' ≡ fs)
Created rank parent name kind fs (ok id, fs') =
    ((fs.nodes id).used ≡ false)
    × (fs' ≡ record fs { nodes = update fs.nodes id (fresh_node parent name kind) })
    × (fs_find_child fs'.nodes parent name ≡ some id)
    × IsValid fs' (update rank id (suc (rank parent)))

pub strcpy-short : (name : Text) → length name < max_name → strcpy name max_name ≡ name
unfolding strcpy
strcpy-short name h = take_all 47 name (omega arith)

-- The search finds the one entry of that name.
pub found_named :
    (nodes : ℕ → Node) (rank : ℕ → ℕ) (parent : ℕ) (name : Text) (id : ℕ)
    → IsTree nodes rank
    → IsEntry nodes id parent
    → (nodes id).name ≡ name
    → fs_find_child nodes parent name ≡ some id
found_named nodes rank parent name id tree entry named =
    elim (find_child-result nodes parent name) [
      | inl (s, e, there, same) ↦
          e ∙ ap some (tree.distinct s id parent there entry (same ∙ sym named))
      | inr (e, all) ↦ absurd (all id entry named)
    ]

ne_used : (nodes : ℕ → Node) (id p : ℕ) → (nodes id).used ≡ false → (nodes p).used ≡ true → id ≢ p
ne_used nodes id p free h e = let same = ap (λ t. (nodes t).used) e in cc

created-IsValid :
    (fs : Fs) (rank : ℕ → ℕ) (id parent : ℕ) (name : Text) (kind : Kind)
    → IsValid fs rank
    → IsDir fs.nodes parent
    → length name < max_name
    → (fs.nodes id).used ≡ false
    → 0 < id
    → id < max_nodes
    → ((j : ℕ) → IsEntry fs.nodes j parent → (fs.nodes j).name ≢ name)
    → (fs_find_child (update fs.nodes id (fresh_node parent name kind)) parent name ≡ some id)
      × IsValid
          (record fs { nodes = update fs.nodes id (fresh_node parent name kind) })
          (update rank id (suc (rank parent)))
created-IsValid fs rank id parent name kind valid home short free pos lt new =
    let n = fresh_node parent name kind in
    let named = strcpy-short name short in
    let tree =
      insert_IsTree fs.nodes rank id parent n valid.tree free pos lt home refl refl
        (rw named new) in
    let entry =
      new-IsEntry fs.nodes rank id parent n valid.tree free pos lt home refl refl (rw named new) in
    (
      found_named _ _ parent name id tree entry
          (ap (λ m. m.name) (update_self fs.nodes id n) ∙ named),
      record {
        tree = tree;
        cwd =
            IsDir-same _ _ fs.cwd
              (IsSameEntry-eq _ _ (
                sym (
                  update_ne fs.nodes id n fs.cwd (ne_used fs.nodes id fs.cwd free valid.cwd.used))))
              valid.cwd;
        stored = λ i below. elim (Bool-cases (id == i)) [
          | inl here ↦ rw here (record { size = refl; fits = omega arith; bounded = omega arith })
          | inr other ↦ rw other (valid.stored i below)
        ];
      },
    )

-- `fs_create_entry` in a directory of a valid filesystem, with a name that fits: an error code and
-- no change, or a free slot takes the entry, which the search for the name then finds, and the
-- filesystem stays valid.
pub fs_create_entry_lem :
    (fs : Fs) (rank : ℕ → ℕ) (parent : ℕ) (name : Text) (kind : Kind)
    → IsValid fs rank
    → IsDir fs.nodes parent
    → length name < max_name
    → Created rank parent name kind fs (fs_create_entry parent name kind fs)
unfolding fs_create_entry
fs_create_entry_lem fs rank parent name kind valid home short =
    elim (Bool-cases (is_valid_name name)) [
      | inr bad ↦ rw bad (λ e. absurd cc, refl)
      | inl good ↦ elim (Bool-cases (is_file kind && not (ends_with_txt name))) [
        | inl not_text ↦ rw (good, not_text) (λ e. absurd cc, refl)
        | inr text ↦ elim (find_child-result fs.nodes parent name) [
          | inl (s, e, entry, same) ↦ rw (good, text, e) (λ e. absurd cc, refl)
          | inr (e, new) ↦ elim (alloc_node-result fs.nodes) [
            | inr (none_free, all) ↦ rw (good, text, e, none_free) (λ e. absurd cc, refl)
            | inl (id, slot, pos, lt, free) ↦
                let (found, valid_after) =
                  created-IsValid fs rank id parent name kind valid home short free pos lt new in
                rw (good, text, e, slot) (free, refl, found, valid_after)
          ]
        ]
      ]
    ]
