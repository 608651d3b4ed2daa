-- ===== src/Fs/Mount.antt =====
-- kernel/fs/mount.c and kernel/fs/fs.c: the tree of mount points.
use brackos.Base.{
  ℕ, zero, suc, ◌+◌, Bool, true, false, none, List, [], ◌∷◌, ◌++◌, ltb, leb, ◌==◌, if◌then◌else◌,
  length, drop, get_or, same_name,
}
use brackos.Base.Outcome.{Outcome, ok, fault, out_of_fuel, ◌>>=◌}
use brackos.Std.Array.{list_init, list_add, words_of}
use brackos.Fs.{Files, MountNode, null, max_path, new_memory, write_chars, text_of}

abbrev pub put_mount : ℕ → MountNode → Files → Files
put_mount p n s = record s { mounts = λ q. if q == p then n else s.mounts q }

-- a mount node after `memset`
abbrev pub no_mount : MountNode
no_mount = record { path = []; children = record { block = none; index = 0; count = 0 }; fs = 0 }

-- The path and the list of children go into `root_node`, whichever node is meant; a path of
-- `MAXFILEPATH` characters runs over its end.
unfoldable pub mount_node_init : (node fs : ℕ) → (path : List ℕ) → Files → Outcome Files
mount_node_init node fs path s =
    let s1 = put_mount node no_mount s in
    let root = s1.mounts s1.root_addr in
    let s2 = put_mount s1.root_addr (record root { path = path; children = list_init }) s1 in
    if ltb max_path (length path)
    then ok s1
    else if length path == max_path
    then fault
    else ok (put_mount node (record (s2.mounts node) { fs = fs }) s2)

unfoldable pub mount_node_new : (fs : ℕ) → (path : List ℕ) → Files → Outcome (ℕ × Files)
mount_node_new fs path s =
    let (node, t) = new_memory s in
    if node == null then ok (null, t) else (mount_node_init node fs path t >>= λ u. ok (node, u))

unfoldable pub mount_root : (fs : ℕ) → Files → Outcome Files
mount_root fs s = mount_node_init s.root_addr fs (47 ∷ []) s

-- `path[strlen(found_path)]` and what stands behind it; behind the end of the path it is a fault.
unfoldable pub path_from : (n : ℕ) → (path : List ℕ) → Outcome (List ℕ)
path_from n path = if leb n (length path) then ok (drop n path) else fault

-- the `for` of `mount_find`, from the child `i` on; the answer is the last node that fitted, and
-- whether one did. The children are those of the node that `curr` is at just then.
unfoldable pub find_child :
    (rounds i curr : ℕ) → (dirty : Bool) → (path : List ℕ) → Files → Outcome (ℕ × Bool)
find_child zero i curr dirty path s = out_of_fuel
find_child (suc rounds) i curr dirty path s =
    let ws = words_of (s.mounts curr).children.block in
    let child = get_or ws i 0 in
    let fits = same_name path (s.mounts child).path in
    let rest =
      find_child rounds (i + 1) (if fits then child else curr) (if fits then true else dirty) path
        s in
    if leb (s.mounts curr).children.index i
    then ok (curr, dirty)
    else if leb (length ws) i
    then fault
    else rest

-- The answer is the node, the `fs` of which the C function gives, and what is then in `found_path`.
unfoldable pub mount_find_from :
    (depth rounds : ℕ) → (path found_path : List ℕ) → (curr : ℕ) → Files → Outcome (ℕ × List ℕ)
mount_find_from zero rounds path found_path curr s = out_of_fuel
mount_find_from (suc depth) rounds path found_path curr s =
    let part = (s.mounts curr).path in
    write_chars (length (text_of found_path)) (part ++ (0 ∷ [])) found_path >>= λ found.
    let look =
      (path_from (length (text_of found)) path >>= λ rest. find_child rounds 0 curr false rest s) in
    (if (s.mounts curr).children.index == 0 then ok (curr, false) else look) >>= λ r.
    if r.1 then mount_find_from depth rounds path found r.0 s else ok (r.0, found)

unfoldable pub mount_find :
    (depth rounds : ℕ) → (path found_path : List ℕ) → Files → Outcome (ℕ × List ℕ)
mount_find depth rounds path found_path s =
    mount_find_from depth rounds path found_path s.root_addr s

-- `mount` from the new node on
unfoldable pub add_mount :
    (fresh : ℕ → ℕ) → (memory : Bool) → (leaf fs : ℕ) → (path : List ℕ) → Files → Outcome Files
add_mount fresh memory leaf fs path s = mount_node_new fs path s >>= λ made.
    if made.0 == null
    then ok made.1
    else (list_add fresh memory made.0 (made.1.mounts leaf).children >>= λ children.
        ok (put_mount leaf (record (made.1.mounts leaf) { children = children }) made.1))

-- `junk` is what stands in `found_path`, which is not cleared. Where `strdup` has no memory, the path is
-- read through NULL.
unfoldable pub mount :
    (fresh : ℕ → ℕ)
    → (memory : Bool) → (depth rounds : ℕ) → (junk path : List ℕ) → (fs : ℕ) → Files
    → Outcome Files
mount fresh memory depth rounds junk path fs s =
    if ltb max_path (length path)
    then ok s
    else (mount_find depth rounds path junk s >>= λ leaf.
        path_from (length (text_of leaf.1)) path >>= λ adjusted.
        let (copy, t) = new_memory s in
        if copy == null then fault else add_mount fresh memory leaf.0 fs adjusted t)

-- `fs_init` and what it is given by `vfs_init`; the answer is the address of the `fs_t`.
unfoldable pub fs_init : Files → ℕ × Files
fs_init s =
    let (fs, t) = new_memory s in
    if fs == null
    then (null, t)
    else (fs, record t { roots = λ q. if q == fs then null else t.roots q })
