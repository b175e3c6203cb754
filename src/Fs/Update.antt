-- ===== src/Fs/Update.antt =====
-- The operations that write or create, on a valid filesystem: `fs_write_file`, `fs_append_file`,
-- `fs_mkdir`, `fs_touch`.
use openkernel.Base.{
  ℕ, ◌<◌, ◌≡◌, ◌≢◌, refl, ◌⊎◌, inl, inr, true, some, List, arith, leb, if◌then◌else◌, Bool-cases,
  Option-cases, length, length-take, Text,
}
use openkernel.Fs.{Kind, dir, file, Error, no_space, fault, Result, ok, err, Fs, max_name, max_path}
use openkernel.Fs.Strings.{strcpy}
use openkernel.Fs.Nodes.{fs_find_child}
use openkernel.Fs.Path.{fs_resolve_parent, split_last_slash, is_absolute}
use openkernel.Fs.Valid.{IsDir, IsValid}
use openkernel.Fs.Resolve.{Resolved, fs_resolve-Resolved}

pub Kind-cases : (k : Kind) → (k ≡ dir) ⊎ (k ≡ file)
Kind-cases dir = inl refl
Kind-cases file = inr refl

strcpy-below : (name : Text) → length (strcpy name max_name) < max_name
unfolding strcpy
strcpy-below name = omega (arith, length-take 47 name)

-- A directory and a name that fits a node, or an error code of fs.h.
abbrev pub ParentResolved : Fs → Result (ℕ × Text) → Type 0
ParentResolved fs (err e) = e ≢ fault
ParentResolved fs (ok (parent, name)) = IsDir fs.nodes parent × (length name < max_name)

parent_of_Resolved :
    (fs : Fs) (after : Text) (r : Result ℕ)
    → Resolved fs.nodes true r
    → ParentResolved fs (elim r [ err e ↦ err e | ok parent ↦ ok (parent, strcpy after max_name) ])
parent_of_Resolved fs after (err e) h = h
parent_of_Resolved fs after (ok p) (node, is_dir) =
    (record { below = node.below; used = node.used; kind = is_dir refl }, strcpy-below after)

start_IsDir :
    (fs : Fs) (rank : ℕ → ℕ) (path : Text)
    → IsValid fs rank
    → IsDir fs.nodes (if is_absolute path then 0 else fs.cwd)
start_IsDir fs rank path valid = elim (Bool-cases (is_absolute path)) [
  | inl abs ↦ rw abs valid.tree.root
  | inr rel ↦ rw rel valid.cwd
]

-- In a valid filesystem `fs_resolve_parent` returns an existing directory and a name that fits a
-- node, or an error code.
pub fs_resolve_parent-ParentResolved :
    (path : Text) (fs : Fs) (rank : ℕ → ℕ)
    → IsValid fs rank
    → ParentResolved fs (fs_resolve_parent path fs)
unfolding fs_resolve_parent
fs_resolve_parent-ParentResolved path fs rank valid =
    let start = start_IsDir fs rank path valid in
    elim (Bool-cases (leb max_path (length path))) [
      | inl long ↦ rw long (λ e. absurd cc)
      | inr short ↦ elim (Option-cases (split_last_slash path)) [
        | inl plain ↦ rw (short, plain) (start, strcpy-below path)
        | inr ((before, after), e) ↦
            rw (short, e)
              (parent_of_Resolved fs after _ (
                fs_resolve-Resolved fs.nodes rank valid.tree _ _ true
                  (record { below = start.below; used = start.used })))
      ]
    ]

pub parent_view :
    (fs : Fs) (r : Result (ℕ × Text))
    → ParentResolved fs r
    → ((e : Error) × (r ≡ err e) × (e ≢ fault))
      ⊎ ((parent : ℕ) × (name : Text) × (r ≡ ok (parent, name))
          × IsDir fs.nodes parent
          × (length name < max_name))
parent_view fs (err e) h = inl (e, refl, h)
parent_view fs (ok (parent, name)) (home, short) = inr (parent, name, refl, home, short)

-- The file `id`, an entry of `parent` under `name`, after a write of `content`.
abbrev Stored : (ℕ → ℕ) → ℕ → Text → ℕ → List ℕ → Result (Unit {0}) × Fs → Type 0
Stored rank parent name id content (err e, fs') = (e ≡ no_space) × IsValid fs' rank
Stored rank parent name id content (ok _, fs') =
    (fs_find_child fs'.nodes parent name ≡ some id)
    × ((fs'.nodes id).bytes ≡ content)
    × IsValid fs' rank

-- A write with the path `path`: an error code of fs.h and a valid filesystem; or the path leads to
-- a file whose contents are `content`, in a valid filesystem.
abbrev pub FileWritten : Text → List ℕ → Fs → Result (Unit {0}) × Fs → Type 0
FileWritten path content fs (err e, fs') = (e ≢ fault) × (rank : ℕ → ℕ) × IsValid fs' rank
FileWritten path content fs (ok _, fs') =
    (parent : ℕ) × (name : Text) × (id : ℕ) × (rank : ℕ → ℕ) × (fs_resolve_parent path fs
      ≡ ok (parent, name))
    × (fs_find_child fs'.nodes parent name ≡ some id)
    × ((fs'.nodes id).bytes ≡ content)
    × IsValid fs' rank
