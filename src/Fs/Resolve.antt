-- ===== src/Fs/Resolve.antt =====
-- `fs_resolve` ends, and what it returns exists.
use openkernel.Base.{
  ℕ, zero, suc, ◌+◌, ◌≤◌, ◌<◌, ◌≡◌, ◌≢◌, refl, ◌⊎◌, inl, inr, Bool, true, false, ◌&&◌, some, [],
  ◌∷◌, arith, ◌==◌, if◌then◌else◌, Bool-cases, Option-cases, length, Text, codes,
}
use openkernel.Fs.{Kind, dir, file, not_dir, fault, Result, ok, err, Node, max_nodes}
use openkernel.Fs.Strings.{streq}
use openkernel.Fs.Nodes.{is_file}
use openkernel.Fs.Path.{skip_slashes, split_component, enter, resolve_loop, fs_resolve, is_absolute}
use openkernel.Fs.Valid.{IsTree}
use openkernel.Fs.Search.{find_child-result}

skip_slashes-length : (path : Text) → length (skip_slashes path) ≤ length path
unfolding skip_slashes
skip_slashes-length [] = omega arith
skip_slashes-length (c ∷ cs) = ground (arith, skip_slashes-length cs)

skip_slashes-relative : (path : Text) → is_absolute (skip_slashes path) ≡ false
unfolding skip_slashes
skip_slashes-relative [] = refl
skip_slashes-relative (c ∷ cs) = ground (arith, skip_slashes-relative cs)

split_component-length :
    (path : Text) (j : ℕ) (name after : Text)
    → split_component j path ≡ some (name, after)
    → length after ≤ length path
unfolding split_component
split_component-length [] j name after h = ground arith
split_component-length (c ∷ cs) j name after h = elim (Bool-cases (c == b'/')) [
  | inl sep ↦ ground arith
  | inr no_sep ↦ elim (Option-cases (split_component (j + 1) cs)) [
    | inl none_left ↦ ground arith
    | inr ((name_0, after_0), e) ↦
        let shorter = split_component-length cs (j + 1) name_0 after_0 e in ground arith
  ]
]

-- A component takes at least one character.
split_component-shorter :
    (c : ℕ) (cs name after : Text)
    → (c == b'/') ≡ false
    → split_component 0 (c ∷ cs) ≡ some (name, after)
    → length after ≤ length cs
unfolding split_component
split_component-shorter c cs name after rel h = elim (Option-cases (split_component 1 cs)) [
  | inl none_left ↦ ground arith
  | inr ((name_0, after_0), e) ↦
      let shorter = split_component-length cs 1 name_0 after_0 e in ground arith
]

-- `i` names a node that exists.
pub record IsNode (nodes : ℕ → Node) (i : ℕ) : Type 0 where
  pub below : i < max_nodes
  pub used : (nodes i).used ≡ true

Kind-cases : (k : Kind) → (k ≡ dir) ⊎ (k ≡ file)
Kind-cases dir = inl refl
Kind-cases file = inr refl

-- An error code of fs.h, or a node that exists, a directory where one is wanted.
abbrev pub Resolved : (ℕ → Node) → Bool → Result ℕ → Type 0
Resolved nodes want_dir (err e) = e ≢ fault
Resolved nodes want_dir (ok r) = IsNode nodes r × (want_dir ≡ true → (nodes r).kind ≡ dir)

module _ (nodes : ℕ → Node) (rank : ℕ → ℕ) (tree : IsTree nodes rank) where
  enter-Resolved :
      (cur : ℕ) (component : Text)
      → IsNode nodes cur
      → Resolved nodes false (enter nodes cur component)
  unfolding enter
  enter-Resolved cur component node = elim (Bool-cases (streq component (codes "."))) [
    | inl here ↦ rw here (node, λ e. absurd cc)
    | inr not_here ↦ elim (Bool-cases (streq component (codes ".."))) [
      | inl up ↦ elim (Bool-cases (cur == 0)) [
        | inl root ↦ rw (not_here, up, root) (node, λ e. absurd cc)
        | inr below ↦
            let (p, entry) = tree.parent_of cur node.below (ground arith) node.used in
            let parent = tree.parent_dir cur p entry in
            rw (not_here, up, below, entry.parent)
              (record { below = parent.below; used = parent.used }, λ e. absurd cc)
      ]
      | inr down ↦ elim (find_child-result nodes cur component) [
        | inl (s, e, entry, same) ↦
            rw (not_here, down, e)
              (record { below = entry.below; used = entry.used }, λ e. absurd cc)
        | inr (e, all) ↦ rw (not_here, down, e) (λ e. absurd cc)
      ]
    ]
  ]

  then_Resolved :
      (r : Result ℕ) (f : ℕ → Result ℕ)
      → Resolved nodes false r
      → ((next : ℕ) → IsNode nodes next → Resolved nodes false (f next))
      → Resolved nodes false (elim r [ err e ↦ err e | ok next ↦ f next ])
  then_Resolved (err e) f h tail = h
  then_Resolved (ok next) f h tail = tail next h.0

  resolve_loop-Resolved :
      (k cur : ℕ) (path : Text)
      → length path < k
      → is_absolute path ≡ false
      → IsNode nodes cur
      → Resolved nodes false (resolve_loop k nodes cur path)
  unfolding resolve_loop
  resolve_loop-Resolved zero cur path fuel rel node = absurd (omega arith)
  resolve_loop-Resolved (suc k) cur [] fuel rel node = (node, λ e. absurd cc)
  resolve_loop-Resolved (suc k) cur (c ∷ cs) fuel rel node =
      elim (Option-cases (split_component 0 (c ∷ cs))) [
        | inl long ↦ rw (long, resolve_loop) (λ e. absurd cc)
        | inr ((component, after), e) ↦
            let shorter = split_component-shorter c cs component after rel e in
            let step = enter-Resolved cur component node in
            rw (e, resolve_loop)
              (then_Resolved _ (λ next. resolve_loop k nodes next (skip_slashes after)) step
                (λ next.
                  resolve_loop-Resolved k next (skip_slashes after)
                    (omega (arith, skip_slashes-length after)) (skip_slashes-relative after)))
      ]

  checked_Resolved :
      (r : Result ℕ) (want_dir : Bool)
      → Resolved nodes false r
      → Resolved nodes want_dir (elim r [
        | err e ↦ err e
        | ok r ↦ if want_dir && is_file (nodes r).kind then err not_dir else ok r
      ])
  checked_Resolved (err e) want_dir h = h
  checked_Resolved (ok r) false h = (h.0, λ e. absurd cc)
  checked_Resolved (ok r) true h = elim (Kind-cases (nodes r).kind) [
    | inl a_dir ↦ rw a_dir (h.0, λ _. a_dir)
    | inr a_file ↦ rw a_file (λ e. absurd cc)
  ]

  -- On a tree, `fs_resolve` from a node that exists returns an error code or a node that exists,
  -- and a directory if one is wanted: it ends and reads no slot outside the array.
  pub fs_resolve-Resolved :
      (start : ℕ) (path : Text) (want_dir : Bool)
      → IsNode nodes start
      → Resolved nodes want_dir (fs_resolve nodes start path want_dir)
  unfolding fs_resolve
  fs_resolve-Resolved start [] want_dir node = λ e. absurd cc
  fs_resolve-Resolved start (c ∷ cs) want_dir node =
      let root : IsNode nodes 0 = record { below = tree.root.below; used = tree.root.used } in
      let from : IsNode nodes (if c == b'/' then 0 else start) = elim (Bool-cases (c == b'/')) [
        | inl abs ↦ rw abs root
        | inr rel ↦ rw rel node
      ] in
      checked_Resolved _ want_dir (
        resolve_loop-Resolved (length (c ∷ cs) + 1) _ (skip_slashes (c ∷ cs))
          (omega (arith, skip_slashes-length (c ∷ cs))) (skip_slashes-relative (c ∷ cs)) from)
