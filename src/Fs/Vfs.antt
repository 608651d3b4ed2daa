-- ===== src/Fs/Vfs.antt =====
-- kernel/fs/vfs.c: the file system in memory. `rounds` is for the parts of a path, `fuel` for the walks among
-- friends; `fresh` and `memory` are what `list_add` takes.
use brackos.Base.{
  ℕ, zero, suc, ◌+◌, ◌*◌, ◌/◌, ◌%◌, ◌^◌, Bool, false, not, ◌&&◌, ◌||◌, Option, none, some, List, [],
  ◌∷◌, ◌++◌, leb, ◌==◌, if◌then◌else◌, length, take, drop, min,
}
use brackos.Base.Outcome.{Outcome, ok, fault, out_of_fuel, ◌>>=◌}
use brackos.Base.Word.{add32, sub32, has_bit}
use brackos.Fs.{
  File, VfsNode, Files, null, max_path, rd, wrt, stat, slash, new_memory, no_path, text_of,
}
use brackos.Fs.Tree.{Resolved, file_alloc, file_add_child, file_count_friends, file_resolve}
use brackos.Fs.Ref.{file_ref_new, file_ref_close}

-- whether there is a '/' among the characters
abbrev pub has_slash : List ℕ → Bool
has_slash [] = false
has_slash (c ∷ cs) = c == slash || has_slash cs

-- `vfs_open` where a file is to be made: the new file, and none if the last part of the path has a
-- '/'. Without memory for the node, `MEMZERO` writes through NULL.
unfoldable pub create : (fs : ℕ) → Resolved → Files → Outcome (Option ℕ × Files)
create fs r s =
    let (node, s1) = new_memory s in
    let s2 = record s1 {
      nodes = λ q. if q == node then record { bytes = []; len = 0 } else s1.nodes q;
    } in
    let (file, s3) = file_alloc (text_of r.last_file) fs node s2 in
    if has_slash (text_of r.last_file)
    then ok (none, s)
    else if leb max_path (length (text_of r.last_file))
    then fault
    else if node == null
    then fault
    else (file_add_child r.prev_file file s3.files >>= λ files.
        ok (some file, record s3 { files = files }))

-- `vfs_open` from the test of the flags on
unfoldable pub open_flags :
    (fresh : ℕ → ℕ) → (memory : Bool) → (flags file : ℕ) → Files → Outcome (ℕ × Files)
open_flags fresh memory flags file s =
    if has_bit flags rd || has_bit flags wrt
    then file_ref_new fresh memory file flags s
    else if has_bit flags stat
    then file_ref_new fresh memory file flags s
    else ok (null, s)

unfoldable pub vfs_open :
    (rounds fuel : ℕ)
    → (fresh : ℕ → ℕ) → (memory : Bool) → (fs : ℕ) → (path : List ℕ) → (flags : ℕ) → Files
    → Outcome (ℕ × Files)
vfs_open rounds fuel fresh memory fs path flags s =
    file_resolve rounds fuel (s.roots fs) path no_path s.files >>= λ r.
    if r.prev_file == null
    then ok (null, s)
    else if not (r.found == null)
    then open_flags fresh memory flags r.found s
    else if not (has_bit flags wrt)
    then ok (null, s)
    else (create fs r s >>= λ made. elim made.0 [
      | none ↦ ok (null, made.1)
      | some file ↦ open_flags fresh memory flags file made.1
    ])

-- 'LIST', 'NAME' and 'SIZE'
abbrev pub key_list : ℕ
key_list = 1279873876

abbrev pub key_name : ℕ
key_name = 1312902469

abbrev pub key_size : ℕ
key_size = 1397316165

unfoldable pub vfs_read_stat_size : File → (key : ℕ) → ℕ
vfs_read_stat_size f key =
    if key == key_list
    then 4 * f.keys.index
    else if key == key_name
    then length f.name + 1
    else if key == key_size
    then 4
    else 0

-- the bytes of words, the least first
abbrev pub bytes_of : List ℕ → List ℕ
bytes_of [] = []
bytes_of (w ∷ ws) =
    w % 256 ∷ (w / 256 % 256 ∷ (w / 65536 % 256 ∷ (w / 16777216 % 256 ∷ bytes_of ws)))

-- `memcpy` of `count` bytes, from the place `at` of some bytes on, to the start of a buffer
unfoldable pub copy_to :
    (at count : ℕ) → (bytes : List ℕ) → (buffer : Option (List ℕ)) → Outcome (Option (List ℕ))
copy_to at count bytes none = fault
copy_to at count bytes (some buffer) =
    if leb (at + count) (length bytes) && leb count (length buffer)
    then ok (some (take count (drop at bytes) ++ drop count buffer))
    else fault

abbrev pub with_size : ℕ → Option (List ℕ) → Outcome (ℕ × Option (List ℕ))
with_size size b = ok (size, b)

unfoldable pub vfs_read_stat :
    File → VfsNode → (key : ℕ) → (buffer : Option (List ℕ)) → Outcome (ℕ × Option (List ℕ))
vfs_read_stat f n key buffer =
    let size = vfs_read_stat_size f key in
    let copied = λ (bytes : List ℕ). copy_to 0 size bytes buffer >>= with_size size in
    elim buffer [
      | none ↦ ok (size, none)
      | some old ↦
          if key == key_list
          then elim f.keys.block [ none ↦ ok (0, some old) | some ws ↦ copied (bytes_of ws) ]
          else if key == key_name
          then copied (f.name ++ (0 ∷ []))
          else if key == key_size
          then copied (bytes_of (n.len ∷ []))
          else ok (0, some old)
    ]

-- `RD_START` and `RD_END`
abbrev pub rd_start : ℕ
rd_start = 4294967295

abbrev pub rd_end : ℕ
rd_end = 4294967294

abbrev pub put_index : (ref index : ℕ) → Files → Files
put_index ref index s = record s {
  refs = λ q. if q == ref then record (s.refs ref) { index = index } else s.refs q;
}

-- `vfs_read` from the computation of `read_size` on
unfoldable pub read_bytes :
    (ref size : ℕ) → (buffer : Option (List ℕ)) → Files → Outcome (ℕ × Option (List ℕ) × Files)
read_bytes ref size buffer s =
    let n = s.nodes (s.files (s.refs ref).file).node in
    let index = (s.refs ref).index in
    let read_size = min (sub32 n.len index) size in
    (if read_size == 0 then ok buffer else copy_to index read_size n.bytes buffer) >>= λ b.
    ok (read_size, b, put_index ref (add32 index read_size) s)

unfoldable pub vfs_read :
    (ref size : ℕ) → (buffer : Option (List ℕ)) → Files → Outcome (ℕ × Option (List ℕ) × Files)
vfs_read ref size buffer s =
    let f = s.files (s.refs ref).file in
    let n = s.nodes f.node in
    let index = (s.refs ref).index in
    if (s.refs ref).file == null
    then fault
    else if f.node == null
    then ok (0, buffer, s)
    else if has_bit (s.refs ref).flags stat
    then (vfs_read_stat f n size buffer >>= λ r. ok (r.0, r.1, s))
    else if leb (2 ^ 31) size
    then (if size == rd_start
        then ok (index, buffer, put_index ref 0 s)
        else if size == rd_end
        then elim buffer [
          | none ↦ ok (sub32 n.len index, none, put_index ref n.len s)
          | some old ↦ read_bytes ref (sub32 n.len index) (some old) s
        ]
        else ok (0, buffer, s))
    else read_bytes ref size buffer s

unfoldable pub vfs_write : (ref size : ℕ) → (buffer : List ℕ) → Files → ℕ × Files
vfs_write ref size buffer s = (0, s)

unfoldable pub vfs_close : (ref : ℕ) → Files → Outcome Files
vfs_close ref s = file_ref_close ref s

-- the references that `vfs_list` makes, for the file `search` and its friends
unfoldable pub list_refs :
    (fuel : ℕ) → (fresh : ℕ → ℕ) → (memory : Bool) → (search : ℕ) → Files → Outcome (List ℕ × Files)
list_refs zero fresh memory search s = out_of_fuel
list_refs (suc fuel) fresh memory search s =
    let rest =
      (file_ref_new fresh memory search 8 s >>= λ r.
      list_refs fuel fresh memory (r.1.files search).next r.1 >>= λ t. ok (r.0 ∷ t.0, t.1)) in
    if search == null then ok ([], s) else rest

-- With `count_only`, `files` is NULL, and the count of files is all that is answered.
unfoldable pub vfs_list :
    (rounds fuel : ℕ)
    → (fresh : ℕ → ℕ) → (memory count_only : Bool) → (fs : ℕ) → (path : List ℕ) → Files
    → Outcome (ℕ × List ℕ × Files)
vfs_list rounds fuel fresh memory count_only fs path s =
    file_resolve rounds fuel (s.roots fs) path no_path s.files >>= λ r.
    if r.found == null
    then ok (0, [], s)
    else if count_only
    then (file_count_friends fuel (s.files r.found).child 0 s.files >>= λ n. ok (n, [], s))
    else (list_refs fuel fresh memory (s.files r.found).child s >>= λ t. ok (length t.0, t.0, t.1))
