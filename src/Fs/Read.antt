-- ===== src/Fs/Read.antt =====
-- kernel/fs/vfs.c: vfs_read of the contents of a file.
use mathlib.Core.Path.{subst}
use brackos.Base.{
  ℕ, ◌+◌, ◌-◌, ◌≤◌, ◌<◌, ◌^◌, ◌≡◌, ◌≢◌, refl, sym, ap, ◌⊎◌, true, false, ◌&&◌, Option, some, List,
  ◌++◌, leb, ◌==◌, Bool-cases, inl, inr, length, take, drop, min, arith,
}
use brackos.Base.Outcome.{ok, Returns, returns}
use brackos.Base.Word.{add32, sub32, has_bit}
use brackos.Fs.{Files, null, stat}
use brackos.Fs.Vfs.{copy_to, put_index, read_bytes, vfs_read, rd_end}

-- The reference stands at `index` in the `contents` of its file.
pub record StandsAt (ref index : ℕ) (contents : List ℕ) (s : Files) : Type 0 where
  pub file : (s.refs ref).file ≢ null
  pub node : (s.files (s.refs ref).file).node ≢ null
  pub bytes : (s.nodes (s.files (s.refs ref).file).node).bytes ≡ contents
  pub len : (s.nodes (s.files (s.refs ref).file).node).len ≡ length contents
  pub small : length contents < 2 ^ 32
  pub index_at : (s.refs ref).index ≡ index
  pub inside : index ≤ length contents
  pub plain : has_bit (s.refs ref).flags stat ≡ false

copy_to-slice :
    (at count : ℕ) (bytes buffer : List ℕ)
    → at + count ≤ length bytes
    → count ≤ length buffer
    → copy_to at count bytes (some buffer)
      ≡ ok (some (take count (drop at bytes) ++ drop count buffer))
unfolding copy_to
copy_to-slice at count bytes buffer a b =
    let x : (leb (at + count) (length bytes) && leb count (length buffer)) ≡ true = ground arith in
    rw x refl

moved :
    (ref index n : ℕ) (contents : List ℕ) (s : Files)
    → StandsAt ref index contents s
    → index + n ≤ length contents
    → StandsAt ref (index + n) contents (put_index ref (add32 index n) s)
moved ref index n contents s h l =
    let same : (ref == ref) ≡ true = ground arith in
    record {
      file = rw same h.file;
      node = rw same h.node;
      bytes = rw same h.bytes;
      len = rw same h.len;
      small = h.small;
      index_at = rw same (let k = h.small in omega arith);
      inside = l;
      plain = rw same h.plain;
    }

-- what reading `n` bytes from `index` on answers and leaves
abbrev pub IsRead :
    (ref index n : ℕ) → (contents buffer : List ℕ) → ℕ × Option (List ℕ) × Files → Type 0
IsRead ref index n contents buffer r =
    (r.0 ≡ n)
    × (r.1 ≡ some (take n (drop index contents) ++ drop n buffer))
    × StandsAt ref (index + n) contents r.2

read_bytes-IsRead :
    (ref index size : ℕ) (contents buffer : List ℕ) (s : Files)
    → StandsAt ref index contents s
    → min (length contents - index) size ≤ length buffer
    → Returns
        (IsRead ref index (min (length contents - index) size) contents buffer)
        (read_bytes ref size (some buffer) s)
unfolding read_bytes
read_bytes-IsRead ref index size contents buffer s h l =
    let n = min (length contents - index) size in
    let k = h.small in
    let i = h.inside in
    let e : sub32 (length contents) index ≡ length contents - index = omega arith in
    rw (h.len, h.index_at, e, h.bytes)
      (elim (Bool-cases (n == 0)) [
        | inl z ↦
            let none_read : n ≡ 0 = ground arith in
            rw z (
              returns (
                refl,
                ap some (sym (rw none_read refl)),
                moved ref index n contents s h (omega arith),
              ))
        | inr z ↦
            rw (z, copy_to-slice index n contents buffer (omega arith) l)
              (returns (refl, refl, moved ref index n contents s h (omega arith)))
      ])

read-some :
    (ref index size : ℕ) (contents buffer : List ℕ) (s : Files)
    → StandsAt ref index contents s
    → size < 2 ^ 31
    → vfs_read ref size (some buffer) s ≡ read_bytes ref size (some buffer) s
unfolding vfs_read
read-some ref index size contents buffer s h l =
    let a : ((s.refs ref).file == null) ≡ false = ground (arith, h.file) in
    let b : ((s.files (s.refs ref).file).node == null) ≡ false = ground (arith, h.node) in
    let c : leb (2 ^ 31) size ≡ false = ground arith in rw (a, b, h.plain, c) refl

read-rest :
    (ref index size : ℕ) (contents buffer : List ℕ) (s : Files)
    → StandsAt ref index contents s
    → size ≡ rd_end
    → vfs_read ref size (some buffer) s ≡ read_bytes ref (length contents - index) (some buffer) s
unfolding vfs_read
read-rest ref index size contents buffer s h l =
    let a : ((s.refs ref).file == null) ≡ false = ground (arith, h.file) in
    let b : ((s.files (s.refs ref).file).node == null) ≡ false = ground (arith, h.node) in
    let k = h.small in
    let i = h.inside in
    let e : sub32 (length contents) index ≡ length contents - index = omega arith in
    rw (a, b, h.plain, l, h.len, h.index_at, e) refl

-- `vfs_read` through a reference that was not opened with `O_STAT`, of a size below 2 ^ 31, or of `RD_END`,
-- which asks for all that is left, into a buffer that is long enough: it reads as many bytes as asked for and left, puts just these bytes of the contents at
-- the start of the buffer, whose other bytes stay, and moves the reference on by them.
pub vfs_read-IsRead :
    (ref index size want : ℕ) (contents buffer : List ℕ) (s : Files)
    → StandsAt ref index contents s
    → ((size < 2 ^ 31) × (want ≡ size)) ⊎ ((size ≡ rd_end) × (want ≡ length contents - index))
    → min (length contents - index) want ≤ length buffer
    → Returns
        (IsRead ref index (min (length contents - index) want) contents buffer)
        (vfs_read ref size (some buffer) s)
vfs_read-IsRead ref index size want contents buffer s h (inl o) l =
    rw (o.1, read-some ref index size contents buffer s h o.0)
      (read_bytes-IsRead ref index size contents buffer s h (rw (sym o.1) l))
vfs_read-IsRead ref index size want contents buffer s h (inr o) l =
    rw (o.1, read-rest ref index size contents buffer s h o.0)
      (read_bytes-IsRead ref index (length contents - index) contents buffer s h
        (subst (λ (w : ℕ). min (length contents - index) w ≤ length buffer) o.1 l))
