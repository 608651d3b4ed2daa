-- ===== src/Fs/Call.antt =====
-- kernel/fs/file.c and vfs.c: what tasks call, on the in-memory file system behind every mount point. `depth`
-- and `children` are for the walk over mount points, `rounds` and `fuel` as in Fs/Vfs.
use brackos.Base.{
  ℕ, ◌+◌, ◌-◌, Bool, true, false, Option, List, [], ◌∷◌, leb, ◌==◌, if◌then◌else◌, length, drop,
}
use brackos.Base.Outcome.{Outcome, ok, fault, ◌>>=◌}
use brackos.Fs.{Files, VfsNode, null, fid_invalid, new_memory, no_path, text_of}
use brackos.Fs.Tree.{file_alloc}
use brackos.Fs.Ref.{file_ref_resolve}
use brackos.Fs.Vfs.{vfs_open, vfs_read, vfs_write, vfs_close, vfs_list}
use brackos.Fs.Mount.{fs_init, mount_root, mount_find}

-- `&path[strlen(found_path) - 1]`: outside the path it is a fault.
abbrev pub inner_path : (found_path path : List ℕ) → Outcome (List ℕ)
inner_path found_path path =
    let n = length (text_of found_path) in
    if n == 0 then fault else if leb n (length path + 1) then ok (drop (n - 1) path) else fault

-- the fids of some references, of which none may be NULL
unfoldable pub fids_of : Files → List ℕ → Outcome (List ℕ)
fids_of s [] = ok []
fids_of s (r ∷ rs) =
    let rest = fids_of s rs in
    if r == null then fault else (rest >>= λ fids. ok ((s.refs r).fid ∷ fids))

module _ (depth children rounds fuel : ℕ) (fresh : ℕ → ℕ) (memory : Bool) where
  unfoldable pub file_open : (path : List ℕ) → (flags : ℕ) → Files → Outcome (ℕ × Files)
  file_open path flags s = mount_find depth children path no_path s >>= λ m.
      let fs = (s.mounts m.0).fs in
      if fs == null
      then ok (fid_invalid, s)
      else (inner_path m.1 path >>= λ inner.
          vfs_open rounds fuel fresh memory fs inner flags s >>= λ r.
          if r.0 == null then ok (fid_invalid, r.1) else ok ((r.1.refs r.0).fid, r.1))

  -- `fids` is what is written there; without memory for the references nothing is.
  unfoldable pub file_list : (path : List ℕ) → Files → Outcome (ℕ × List ℕ × Files)
  file_list path s = mount_find depth children path no_path s >>= λ m.
      let fs = (s.mounts m.0).fs in
      if fs == null
      then ok (fid_invalid, [], s)
      else (inner_path m.1 path >>= λ inner.
          vfs_list rounds fuel fresh memory true fs inner s >>= λ counted.
          let (block, s1) = new_memory s in
          if block == null
          then ok (0, [], s1)
          else (vfs_list rounds fuel fresh memory false fs inner s1 >>= λ made.
              fids_of made.2 made.1 >>= λ fids. ok (counted.0, fids, made.2)))

unfoldable pub file_read :
    (fid size : ℕ) → (buffer : Option (List ℕ)) → Files → Outcome (ℕ × Option (List ℕ) × Files)
file_read fid size buffer s = file_ref_resolve fid s >>= λ ref.
    if ref == null then ok (0, buffer, s) else vfs_read ref size buffer s

unfoldable pub file_write : (fid size : ℕ) → (buffer : List ℕ) → Files → Outcome (ℕ × Files)
file_write fid size buffer s = file_ref_resolve fid s >>= λ ref.
    if ref == null then ok (0, s) else ok (vfs_write ref size buffer s)

unfoldable pub file_close : (fid : ℕ) → Files → Outcome Files
file_close fid s = file_ref_resolve fid s >>= λ ref. if ref == null then ok s else vfs_close ref s

-- Each `kmalloc` of it must succeed.
unfoldable pub vfs_init : Files → Outcome Files
vfs_init s =
    let (fs, s1) = fs_init s in
    let (node, s2) = new_memory s1 in
    let blank : VfsNode = record { bytes = []; len = 0 } in
    let s3 = record s2 { nodes = λ q. if q == node then blank else s2.nodes q } in
    let (root, s4) = file_alloc [] fs node s3 in
    if node == null
    then fault
    else if fs == null
    then fault
    else mount_root fs (record s4 { roots = λ q. if q == fs then root else s4.roots q })
