-- ===== src/Fs/Contents.antt =====
-- What `fs_set_file_data` stores, and that the grown buffer is large enough.
use openkernel.Base.{
  ℕ, zero, suc, ◌+◌, ◌*◌, ◌≤◌, ◌<◌, ◌≡◌, ◌≢◌, refl, sym, ap, ◌∙◌, inl, inr, Bool, List, ◌++◌, arith,
  ltb, ◌==◌, if◌then◌else◌, Bool-cases, length, length-append, length-take, take, update,
  update_self, update_ne, ==_eq,
}
use openkernel.Memory.Heap.Chain.{Cell}
use openkernel.Memory.Heap.Laws.{Blocks, kmalloc_lem}
use openkernel.Fs.{no_space, Result, ok, err, Fs, max_nodes, max_file_size}
use openkernel.Fs.File.{grow_loop, grown_cap, reserve, fs_set_file_data}
use openkernel.Fs.Valid.{IsValid}
use openkernel.Fs.Create.{IsSameEntry, IsSameEntry-eq, IsTree-same, IsDir-same}

-- `c` doubled `k` times
abbrev doubled : ℕ → ℕ → ℕ
doubled zero c = c
doubled (suc k) c = doubled k (c * 2)

grow_loop-enough : (k c s : ℕ) → s ≤ doubled k c → s ≤ grow_loop k c s
unfolding grow_loop
grow_loop-enough zero c s h = h
grow_loop-enough (suc k) c s h = ground (arith, grow_loop-enough k (c * 2) s)

-- The grown buffer holds a size within the limit, and stays within the limit itself.
pub grown_cap-enough :
    (cap new_size : ℕ)
    → new_size ≤ max_file_size
    → (new_size ≤ grown_cap cap new_size) × (grown_cap cap new_size ≤ max_file_size)
unfolding grown_cap
grown_cap-enough cap new_size h =
    let start = if cap == 0 then 256 else cap in
    let pos : 1 ≤ start = ground arith in
    let enough = grow_loop-enough 17 start new_size (omega arith) in (ground arith, ground arith)

-- Only the address and the capacity of node `id` differ, and `new_size` bytes fit.
record Reserved (id new_size : ℕ) (fs fs' : Fs) : Type 0 where
  cwd : fs'.cwd ≡ fs.cwd
  fits : new_size ≤ (fs'.nodes id).cap
  bounded : (fs'.nodes id).cap ≤ max_file_size
  bytes : (fs'.nodes id).bytes ≡ (fs.nodes id).bytes
  same : IsSameEntry (fs.nodes id) (fs'.nodes id)
  others : (i : ℕ) → id ≢ i → fs'.nodes i ≡ fs.nodes i

abbrev ReserveOutcome : ℕ → ℕ → Fs → Result (Unit {0}) × Fs → Type 0
ReserveOutcome id new_size fs (err e, fs') =
    (e ≡ no_space) × (fs'.cwd ≡ fs.cwd) × (fs'.nodes ≡ fs.nodes)
ReserveOutcome id new_size fs (ok _, fs') = Reserved id new_size fs fs'

reserve_lem :
    (id new_size : ℕ) (fs : Fs) (cs : List Cell)
    → Blocks fs.heap cs
    → new_size ≤ max_file_size
    → (fs.nodes id).cap ≤ max_file_size
    → ReserveOutcome id new_size fs (reserve id new_size fs)
unfolding reserve
reserve_lem id new_size fs cs blocks limit cap =
    elim (Bool-cases (ltb (fs.nodes id).cap new_size)) [
      | inr room ↦ rw room (record {
        cwd = refl;
        fits = ground arith;
        bounded = cap;
        bytes = refl;
        same = IsSameEntry-eq _ _ refl;
        others = λ i ne. refl;
      })
      | inl small ↦
          let (enough, bounded) = grown_cap-enough (fs.nodes id).cap new_size limit in
          let (p, h, e, outcome) =
            kmalloc_lem (grown_cap (fs.nodes id).cap new_size) fs.heap cs blocks (ground arith) in
          elim (Bool-cases (p == 0)) [
            | inl null ↦ rw (small, e, null) (refl, refl, refl)
            | inr some_block ↦
                let n = fs.nodes id in
                let self =
                  update_self fs.nodes id
                    (record n { address = p; cap = grown_cap n.cap new_size }) in
                rw (small, e, some_block)
                  (record {
                    cwd = refl;
                    fits = rw self enough;
                    bounded = rw self bounded;
                    bytes = rw self refl;
                    same =
                        rw self (record { used = refl; parent = refl; kind = refl; name = refl });
                    others = λ i ne. update_ne fs.nodes id _ i ne;
                  })
          ]
    ]

-- The contents of node `id` after the call, and nothing else but its buffer.
pub record Written (rank : ℕ → ℕ) (id : ℕ) (content : List ℕ) (fs fs' : Fs) : Type 0 where
  pub bytes : (fs'.nodes id).bytes ≡ content
  pub size : (fs'.nodes id).size ≡ length content
  pub entry : IsSameEntry (fs.nodes id) (fs'.nodes id)
  pub others : (i : ℕ) → id ≢ i → fs'.nodes i ≡ fs.nodes i
  pub valid : IsValid fs' rank

abbrev pub WriteOutcome : (ℕ → ℕ) → ℕ → List ℕ → Fs → Result (Unit {0}) × Fs → Type 0
WriteOutcome rank id content fs (err e, fs') =
    (e ≡ no_space) × (fs'.nodes ≡ fs.nodes) × IsValid fs' rank
WriteOutcome rank id content fs (ok _, fs') = Written rank id content fs fs'

abbrev stored_in : ℕ → List ℕ → ℕ → Fs → Fs
stored_in id content size fs = record fs {
  nodes = update fs.nodes id (record (fs.nodes id) { bytes = content; size = size });
}

Reserved-Written :
    (rank : ℕ → ℕ) (id new_size : ℕ) (content : List ℕ) (fs fs' : Fs)
    → IsValid fs rank
    → length content ≡ new_size
    → Reserved id new_size fs fs'
    → Written rank id content fs (stored_in id content new_size fs')
Reserved-Written rank id new_size content fs fs' valid len r =
    let self =
      update_self fs'.nodes id (record (fs'.nodes id) { bytes = content; size = new_size }) in
    let other : (i : ℕ) → id ≢ i → (stored_in id content new_size fs').nodes i ≡ fs.nodes i =
      λ i ne. update_ne fs'.nodes id _ i ne ∙ r.others i ne in
    let same : (i : ℕ) → IsSameEntry (fs.nodes i) ((stored_in id content new_size fs').nodes i) =
      λ i. elim (Bool-cases (id == i)) [
        | inl here ↦
            let e = ==_eq id i here in
            rw (sym e, self)
              (record {
                used = r.same.used;
                parent = r.same.parent;
                kind = r.same.kind;
                name = r.same.name;
              })
        | inr there ↦ IsSameEntry-eq _ _ (sym (other i (ground arith)))
      ] in
    record {
      bytes = ap (λ n. n.bytes) self;
      size = ap (λ n. n.size) self ∙ sym len;
      entry = same id;
      others = other;
      valid = record {
        tree = IsTree-same fs.nodes _ rank same valid.tree;
        cwd = rw (r.cwd) (IsDir-same fs.nodes _ fs.cwd (same fs.cwd) valid.cwd);
        stored = λ i below. elim (Bool-cases (id == i)) [
          | inl here ↦
              let e = ==_eq id i here in
              rw (sym e, self) (record { size = sym len; fits = r.fits; bounded = r.bounded })
          | inr there ↦ rw (other i (ground arith)) (valid.stored i below)
        ];
      };
    }

reserved-WriteOutcome :
    (rank : ℕ → ℕ) (id new_size : ℕ) (f : List ℕ → List ℕ) (fs : Fs) (r : Result (Unit {0}) × Fs)
    → IsValid fs rank
    → length (f (fs.nodes id).bytes) ≡ new_size
    → ReserveOutcome id new_size fs r
    → WriteOutcome rank id (f (fs.nodes id).bytes) fs (elim r.0 [
      | err e ↦ (err e, r.1)
      | ok _ ↦ (ok tt, stored_in id (f (r.1.nodes id).bytes) new_size r.1)
    ])
reserved-WriteOutcome rank id new_size f fs (err e, fs') valid len (e_is, cwd, nodes) = (
  e_is,
  nodes,
  record {
    tree = rw nodes valid.tree;
    cwd = rw (nodes, cwd) valid.cwd;
    stored = λ i below. rw nodes (valid.stored i below);
  },
)
reserved-WriteOutcome rank id new_size f fs (ok _, fs') valid len r =
    rw (r.bytes) (Reserved-Written rank id new_size (f (fs.nodes id).bytes) fs fs' valid len r)

-- Storing `len` bytes of a buffer in a file of a valid filesystem, on a heap that is tiled by
-- blocks: either there is no space, and no node changes; or the contents are those bytes, after
-- the old contents if appended, the size is their number, and no other node changes. The
-- filesystem stays valid in both cases.
pub fs_set_file_data_lem :
    (fs : Fs) (rank : ℕ → ℕ) (cs : List Cell) (id : ℕ) (bytes : List ℕ) (len : ℕ) (append : Bool)
    → IsValid fs rank
    → Blocks fs.heap cs
    → id < max_nodes
    → len ≤ length bytes
    → WriteOutcome rank id
        (if append then (fs.nodes id).bytes ++ take len bytes else take len bytes)
        fs
        (fs_set_file_data id bytes len append fs)
unfolding fs_set_file_data
fs_set_file_data_lem fs rank cs id bytes len append valid blocks below room =
    let n = fs.nodes id in
    let new_size = if append then n.size + len else len in
    let f : List ℕ → List ℕ = λ old. if append then old ++ take len bytes else take len bytes in
    let stored = valid.stored id below in
    let length_new : length (f n.bytes) ≡ new_size = elim (Bool-cases append) [
      | inl after ↦ rw after (
          omega (arith, length-append n.bytes (take len bytes), length-take len bytes, stored.size))
      | inr over ↦ rw over (omega (arith, length-take len bytes))
    ] in
    elim (Bool-cases (ltb max_file_size len)) [
      | inl long ↦ rw long (refl, refl, valid)
      | inr fits ↦ elim (Bool-cases (ltb max_file_size new_size)) [
        | inl long ↦ rw (fits, long) (refl, refl, valid)
        | inr fits_too ↦
            rw (fits, fits_too)
              (reserved-WriteOutcome rank id new_size f fs (reserve id new_size fs) valid length_new
                (reserve_lem id new_size fs cs blocks (ground arith)
                  (omega (arith, stored.fits, stored.bounded))))
      ]
    ]
