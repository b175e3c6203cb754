-- ===== src/Fs/Entries.antt =====
-- The operations on directories of a valid filesystem: `fs_mkdir`, `fs_touch`, `fs_cd`,
-- `fs_append_file`.
use openkernel.Base.{
  ℕ, ◌≤◌, ◌≡◌, ◌≢◌, refl, sym, ap, ◌∙◌, ◌⊎◌, inl, inr, Bool, true, false, some, List, ◌++◌, arith,
  ◌==◌, Bool-cases, length, take, update, Text,
}
use openkernel.Memory.Heap.Chain.{Cell}
use openkernel.Memory.Heap.Laws.{Blocks}
use openkernel.Fs.{Kind, dir, file, Error, fault, Result, ok, err, Node, Fs}
use openkernel.Fs.Strings.{ends_with_txt, is_valid_name, fs_strlen-le}
use openkernel.Fs.Nodes.{fs_find_child, fresh_node}
use openkernel.Fs.Path.{fs_resolve, fs_resolve_parent, fs_rebuild_cwd_path}
use openkernel.Fs.File.{fs_append_file, write_len}
use openkernel.Fs.Commands.{fs_cd, fs_mkdir, fs_touch, created_or_full, created_or_error}
use openkernel.Fs.Valid.{IsValid}
use openkernel.Fs.Search.{find_child-result}
use openkernel.Fs.Resolve.{IsNode, Resolved, fs_resolve-Resolved}
use openkernel.Fs.Create.{Created, fs_create_entry_lem}
use openkernel.Fs.Contents.{Written, WriteOutcome, fs_set_file_data_lem}
use openkernel.Fs.Update.{parent_view, Kind-cases, fs_resolve_parent-ParentResolved}

-- A new entry of kind `kind` at `path`, in a filesystem that stays valid; or an error code and no
-- change.
abbrev pub EntryMade : Text → Kind → Fs → Result (Unit {0}) × Fs → Type 0
EntryMade path kind fs (err e, fs') = (e ≢ fault) × (fs' ≡ fs)
EntryMade path kind fs (ok _, fs') =
    (parent : ℕ) × (name : Text) × (id : ℕ) × (rank : ℕ → ℕ) × (fs_resolve_parent path fs
      ≡ ok (parent, name))
    × (fs' ≡ record fs { nodes = update fs.nodes id (fresh_node parent name kind) })
    × ((fs.nodes id).used ≡ false)
    × (fs_find_child fs'.nodes parent name ≡ some id)
    × IsValid fs' rank

made_or_full :
    (path : Text) (rank : ℕ → ℕ) (parent : ℕ) (name : Text) (kind : Kind) (fs : Fs)
    (r : Result ℕ × Fs)
    → fs_resolve_parent path fs ≡ ok (parent, name)
    → Created rank parent name kind fs r
    → EntryMade path kind fs (created_or_full r)
made_or_full path rank parent name kind fs (err e, fs') at (bad, same) = (λ f. absurd cc, same)
made_or_full path rank parent name kind fs (ok id, fs') at (free, same, found, valid) =
    (parent, name, id, _, at, same, free, found, valid)

-- `fs_mkdir` in a valid filesystem makes an empty directory that the search finds, or returns an
-- error code and changes nothing.
pub fs_mkdir_lem :
    (path : Text) (fs : Fs) (rank : ℕ → ℕ)
    → IsValid fs rank
    → EntryMade path dir fs (fs_mkdir path fs)
unfolding fs_mkdir
fs_mkdir_lem path fs rank valid =
    elim (parent_view fs _ (fs_resolve_parent-ParentResolved path fs rank valid)) [
      | inl (e, at, no_fault) ↦ rw (at, fs_mkdir) (no_fault, refl)
      | inr (parent, name, at, home, short) ↦ elim (Bool-cases (is_valid_name name)) [
        | inr bad ↦ rw (at, bad, fs_mkdir) (λ f. absurd cc, refl)
        | inl good ↦
            rw (at, good, fs_mkdir)
              (made_or_full path rank parent name dir fs _ at
                (fs_create_entry_lem fs rank parent name dir valid home short))
      ]
    ]

-- After a touch: the path leads to a file that was there, and nothing changed, or to a new one.
abbrev pub Touched : Text → Fs → Result (Unit {0}) × Fs → Type 0
Touched path fs (err e, fs') = (e ≢ fault) × (fs' ≡ fs)
Touched path fs (ok _, fs') =
    ((parent : ℕ) × (name : Text) × (id : ℕ) × (fs_resolve_parent path fs ≡ ok (parent, name))
      × (fs_find_child fs.nodes parent name ≡ some id)
      × ((fs.nodes id).kind ≡ file)
      × (fs' ≡ fs))
    ⊎ EntryMade path file fs (ok tt, fs')

made_or_error :
    (path : Text) (rank : ℕ → ℕ) (parent : ℕ) (name : Text) (fs : Fs) (r : Result ℕ × Fs)
    → fs_resolve_parent path fs ≡ ok (parent, name)
    → Created rank parent name file fs r
    → Touched path fs (created_or_error r)
made_or_error path rank parent name fs (err e, fs') at (bad, same) = (bad, same)
made_or_error path rank parent name fs (ok id, fs') at (free, same, found, valid) =
    inr (parent, name, id, _, at, same, free, found, valid)

-- `fs_touch` in a valid filesystem leaves a file that is there alone, or makes an empty one that
-- the search finds, or returns an error code and changes nothing.
pub fs_touch_lem :
    (path : Text) (fs : Fs) (rank : ℕ → ℕ) → IsValid fs rank → Touched path fs (fs_touch path fs)
unfolding fs_touch
fs_touch_lem path fs rank valid =
    elim (parent_view fs _ (fs_resolve_parent-ParentResolved path fs rank valid)) [
      | inl (e, at, no_fault) ↦ rw (at, fs_touch) (no_fault, refl)
      | inr (parent, name, at, home, short) ↦ elim (find_child-result fs.nodes parent name) [
        | inl (s, e, entry, named) ↦ elim (Kind-cases (fs.nodes s).kind) [
          | inl a_dir ↦ rw (at, e, a_dir, fs_touch) (λ f. absurd cc, refl)
          | inr a_file ↦ rw (at, e, a_file, fs_touch) (inl (parent, name, s, at, e, a_file, refl))
        ]
        | inr (e, new) ↦
            rw (at, e, fs_touch)
              (made_or_error path rank parent name fs _ at
                (fs_create_entry_lem fs rank parent name file valid home short))
      ]
    ]

pub rebuild_same :
    (fs : Fs)
    → ((fs_rebuild_cwd_path fs).nodes ≡ fs.nodes) × ((fs_rebuild_cwd_path fs).cwd ≡ fs.cwd)
unfolding fs_rebuild_cwd_path
rebuild_same fs = elim (Bool-cases (fs.cwd == 0)) [
  | inl root ↦ rw root (refl, refl)
  | inr below ↦ rw below (refl, refl)
]

-- `fs_cd`: the current directory is the directory that the path leads to, or nothing changes.
abbrev pub Entered : Text → Fs → (ℕ → ℕ) → Result (Unit {0}) × Fs → Type 0
Entered path fs rank (err e, fs') = (e ≢ fault) × (fs' ≡ fs)
Entered path fs rank (ok _, fs') =
    (fs_resolve fs.nodes fs.cwd path true ≡ ok fs'.cwd) × (fs'.nodes ≡ fs.nodes) × IsValid fs' rank

pub Resolved-view :
    (nodes : ℕ → Node) (want_dir : Bool) (r : Result ℕ)
    → Resolved nodes want_dir r
    → ((e : Error) × (r ≡ err e) × (e ≢ fault))
      ⊎ ((id : ℕ) × (r ≡ ok id) × IsNode nodes id × (want_dir ≡ true → (nodes id).kind ≡ dir))
Resolved-view nodes want_dir (err e) h = inl (e, refl, h)
Resolved-view nodes want_dir (ok id) h = inr (id, refl, h.0, h.1)

pub resolve_view :
    (path : Text) (fs : Fs) (rank : ℕ → ℕ) (want_dir : Bool)
    → IsValid fs rank
    → ((e : Error) × (fs_resolve fs.nodes fs.cwd path want_dir ≡ err e) × (e ≢ fault))
      ⊎ ((id : ℕ) × (fs_resolve fs.nodes fs.cwd path want_dir ≡ ok id)
          × IsNode fs.nodes id
          × (want_dir ≡ true → (fs.nodes id).kind ≡ dir))
resolve_view path fs rank want_dir valid = Resolved-view fs.nodes want_dir _ (
    fs_resolve-Resolved fs.nodes rank valid.tree fs.cwd path want_dir
      (record { below = valid.cwd.below; used = valid.cwd.used }))

-- `fs_cd` in a valid filesystem moves to the directory that the path leads to, keeps every node
-- and the validity, or returns an error code and changes nothing.
pub fs_cd_lem :
    (path : Text) (fs : Fs) (rank : ℕ → ℕ) → IsValid fs rank → Entered path fs rank (fs_cd path fs)
unfolding fs_cd
fs_cd_lem path fs rank valid = elim (resolve_view path fs rank true valid) [
  | inl (e, at, no_fault) ↦ rw (at, fs_cd) (no_fault, refl)
  | inr (id, at, node, is_dir) ↦
      let (nodes, cwd) = rebuild_same (record fs { cwd = id }) in
      let a_dir = is_dir refl in
      rw (at, a_dir, fs_cd)
        (
          at ∙ ap ok (sym cwd),
          nodes,
          record {
            tree = rw nodes valid.tree;
            cwd = rw (nodes, cwd) (record { below = node.below; used = node.used; kind = a_dir });
            stored = λ i below. rw nodes (valid.stored i below);
          },
        )
]

-- `fs_append_file`: the bytes follow what the file held, or no node changes.
abbrev pub Appended : Text → List ℕ → Fs → (ℕ → ℕ) → Result (Unit {0}) × Fs → Type 0
Appended path bytes fs rank (err e, fs') = (e ≢ fault) × (fs'.nodes ≡ fs.nodes) × IsValid fs' rank
Appended path bytes fs rank (ok _, fs') =
    (id : ℕ) × (fs_resolve fs.nodes fs.cwd path false ≡ ok id)
    × Written rank id ((fs.nodes id).bytes ++ bytes) fs fs'

WriteOutcome-Appended :
    (path : Text) (bytes : List ℕ) (fs : Fs) (rank : ℕ → ℕ) (id : ℕ) (r : Result (Unit {0}) × Fs)
    → fs_resolve fs.nodes fs.cwd path false ≡ ok id
    → WriteOutcome rank id ((fs.nodes id).bytes ++ bytes) fs r
    → Appended path bytes fs rank r
WriteOutcome-Appended path bytes fs rank id (err e, fs') at (e_is, nodes, valid) =
    (λ f. absurd cc, nodes, valid)
WriteOutcome-Appended path bytes fs rank id (ok _, fs') at w = (id, at, w)

-- `fs_append_file` with a buffer of at least `len` bytes, in a valid filesystem on a heap that is
-- tiled by blocks: the file that the path leads to holds its old contents and then the first `len`
-- bytes, or for 0 those before the first NUL of the buffer, and no other node changes; or the result is an error code and
-- no node changes. The filesystem stays valid.
pub fs_append_file_lem :
    (path : Text) (bytes : List ℕ) (len : ℕ) (fs : Fs) (rank : ℕ → ℕ) (cs : List Cell)
    → IsValid fs rank
    → Blocks fs.heap cs
    → len ≤ length bytes
    → Appended path
        (take (write_len bytes len) bytes)
        fs
        rank
        (fs_append_file path (some bytes) len fs)
unfolding fs_append_file
fs_append_file_lem path bytes len fs rank cs valid blocks room =
    elim (resolve_view path fs rank false valid) [
      | inl (e, at, no_fault) ↦ rw (at, fs_append_file) (no_fault, refl, valid)
      | inr (id, at, node, _) ↦ elim (Kind-cases (fs.nodes id).kind) [
        | inl a_dir ↦ rw (at, a_dir, fs_append_file) (λ f. absurd cc, refl, valid)
        | inr a_file ↦ elim (Bool-cases (ends_with_txt (fs.nodes id).name)) [
          | inr other ↦ rw (at, a_file, other, fs_append_file) (λ f. absurd cc, refl, valid)
          | inl text ↦
              rw (at, a_file, text, fs_append_file)
                (WriteOutcome-Appended path _ fs rank id _ at (
                  fs_set_file_data_lem fs rank cs id bytes (write_len bytes len) true valid blocks
                    node.below (ground (arith, fs_strlen-le bytes))))
        ]
      ]
    ]
