-- ===== src/Fs/Wipe.antt =====
-- kernel/fs/mount.c: every new mount point writes over the root's.
use brackos.Base.{
  ℕ, suc, ◌≤◌, ◌<◌, ◌≡◌, ◌≢◌, refl, ◌⊎◌, Bool, true, false, List, [], ◌∷◌, ◌++◌, ltb, leb, ◌==◌,
  inl, inr, length, drop, arith,
}
use brackos.Base.Outcome.{ok, fault, ◌>>=◌, Returns, returns, Returns-bind, Returns-mono}
use brackos.Std.Array.{Array, list_init, list_add}
use brackos.Std.Array.Add.{Holds, list_add-Holds}
use brackos.Fs.{Files, null, max_path, slash, no_path, write_chars, text_of}
use brackos.Fs.Parts.{AllChars, written, write_chars-part, text_of-written}
use brackos.Fs.Mount.{
  put_mount, mount_node_init, mount_node_new, path_from, mount_find_from, mount_find, add_mount,
  mount,
}
use brackos.Fs.Call.{file_open}

-- `mount_node_init` of a node other than the root, with a path that fits, changes the root: it gets the
-- path and loses its children, and the node gets neither path nor children.
pub record Wiped (node fs : ℕ) (path : List ℕ) (s t : Files) : Type 0 where
  pub root_same : t.root_addr ≡ s.root_addr
  pub root_path : (t.mounts s.root_addr).path ≡ path
  pub root_children : (t.mounts s.root_addr).children ≡ list_init
  pub node_path : (t.mounts node).path ≡ []
  pub node_fs : (t.mounts node).fs ≡ fs
  pub root_fs : (t.mounts s.root_addr).fs ≡ (s.mounts s.root_addr).fs

pub mount_node_init-Wiped :
    (node fs : ℕ) (path : List ℕ) (s : Files)
    → node ≢ s.root_addr
    → length path < max_path
    → Returns (Wiped node fs path s) (mount_node_init node fs path s)
unfolding mount_node_init
mount_node_init-Wiped node fs path s n l =
    let a : ltb max_path (length path) ≡ false = ground arith in
    let b : (length path == max_path) ≡ false = ground arith in
    rw (a, b)
      (returns record {
        root_same = refl;
        root_path = ground arith;
        root_children = ground arith;
        node_path = ground arith;
        node_fs = ground arith;
        root_fs = ground arith;
      })

root_found :
    (s : Files) (depth rounds : ℕ) (path : List ℕ)
    → (s.mounts s.root_addr).path ≡ slash ∷ []
    → (s.mounts s.root_addr).children.index ≡ 0
    → mount_find (suc depth) rounds path no_path s ≡ ok (s.root_addr, written (slash ∷ []) no_path)
unfolding mount_find mount_find_from write_chars text_of
root_found s depth rounds path p c =
    let z : ((s.mounts s.root_addr).children.index == 0) ≡ true = ground arith in rw (p, z) refl

-- In a state whose root has the path `tail` and a child, a shorter path makes `file_open` read behind it.
short-fault :
    (t : Files) (depth children rounds fuel : ℕ) (fresh : ℕ → ℕ) (memory : Bool) (q tail : List ℕ)
    (flags : ℕ)
    → (t.mounts t.root_addr).path ≡ tail
    → (t.mounts t.root_addr).children.index ≢ 0
    → AllChars tail
    → length tail < max_path
    → length q < length tail
    → file_open (suc depth) children rounds fuel fresh memory q flags t ≡ fault
unfolding file_open mount_find mount_find_from path_from
short-fault t depth children rounds fuel fresh memory q tail flags p c a l m =
    let z : ((t.mounts t.root_addr).children.index == 0) ≡ false = ground arith in
    let w : write_chars (length (text_of no_path)) (tail ++ (0 ∷ [])) no_path
        ≡ ok (written tail no_path) =
      unfold text_of in write_chars-part tail no_path (omega arith) in
    let d : leb (length tail) (length q) ≡ false = ground arith in
    rw (p, w, z, text_of-written tail (drop (length (tail ++ (0 ∷ []))) no_path) a, d) refl

-- a state with the next blocks of memory
abbrev with_blocks : List ℕ → Files → Files
with_blocks ps s = record s { kernel = record s.kernel { blocks = ps } }

mount-add :
    (s : Files) (fresh : ℕ → ℕ) (depth rounds fs copy : ℕ) (ps tail : List ℕ)
    → (s.mounts s.root_addr).path ≡ slash ∷ []
    → (s.mounts s.root_addr).children.index ≡ 0
    → s.kernel.blocks ≡ copy ∷ ps
    → copy ≢ null
    → suc (length tail) < max_path
    → mount fresh true (suc depth) rounds no_path (slash ∷ tail) fs s
      ≡ add_mount fresh true s.root_addr fs tail (with_blocks ps s)
unfolding mount path_from
mount-add s fresh depth rounds fs copy ps tail p c b m l =
    let x : ltb max_path (suc (length tail)) ≡ false = ground arith in
    let one : text_of (written (slash ∷ []) no_path) ≡ slash ∷ [] = unfold text_of in refl in
    let y : leb 1 (suc (length tail)) ≡ true = ground arith in
    let z : (copy == null) ≡ false = ground arith in
    rw (x, root_found s depth rounds (slash ∷ tail) p c, one, y, b, z) refl

new-Wiped :
    (s : Files) (fs node : ℕ) (ps tail : List ℕ)
    → node ≢ null
    → node ≢ s.root_addr
    → length tail < max_path
    → Returns
        (λ made. (made.0 ≡ node) × Wiped node fs tail s made.1)
        (mount_node_new fs tail (with_blocks (node ∷ ps) s))
unfolding mount_node_new
new-Wiped s fs node ps tail n d l =
    let z : (node == null) ≡ false = ground arith in
    rw z (
      Returns-bind (mount_node_init-Wiped node fs tail (with_blocks ps s) d l) λ t w. returns (
        refl,
        record {
          root_same = w.root_same;
          root_path = w.root_path;
          root_children = w.root_children;
          node_path = w.node_path;
          node_fs = w.node_fs;
          root_fs = w.root_fs;
        },
      ))

none-Holds : Holds list_init []
unfolding list_init
none-Holds = record { start = refl; filled = refl; uncounted = refl }

-- the root with its first child
record Mounted (node fs : ℕ) (tail : List ℕ) (s t : Files) : Type 0 where
  same : t.root_addr ≡ s.root_addr
  path : (t.mounts s.root_addr).path ≡ tail
  none : (t.mounts node).path ≡ []
  of : (t.mounts node).fs ≡ fs
  child : Holds (t.mounts s.root_addr).children (node ∷ [])

add-Mounted :
    (s : Files) (fresh : ℕ → ℕ) (fs node : ℕ) (ps tail : List ℕ)
    → node ≢ null
    → node ≢ s.root_addr
    → length tail < max_path
    → Returns
        (Mounted node fs tail s)
        (add_mount fresh true s.root_addr fs tail (with_blocks (node ∷ ps) s))
unfolding add_mount
add-Mounted s fresh fs node ps tail n d l =
    Returns-bind (new-Wiped s fs node ps tail n d l) λ made w.
      let z : (made.0 == null) ≡ false = ground (arith, w.0) in
      rw (z, w.1.root_children, w.0)
        (go made.1 w.1 (list_add-Holds fresh node [] list_init none-Holds (omega arith)))
  where
    go :
        (u : Files)
        → Wiped node fs tail s u
        → ((0 < 16)
            × (t : Array) × (list_add fresh true node list_init ≡ ok t)
            × Holds t (node ∷ []))
          ⊎ ((16 ≤ 0) × (list_add fresh true node list_init ≡ fault))
        → Returns (Mounted node fs tail s) (
            list_add fresh true node list_init >>= λ children.
            ok (put_mount s.root_addr (record (u.mounts s.root_addr) { children = children }) u))
    go u w (inl (h, t, e, k)) =
        let same : (s.root_addr == s.root_addr) ≡ true = ground arith in
        let off : (node == s.root_addr) ≡ false = ground arith in
        rw e (
          returns record {
            same = w.root_same;
            path = rw same w.root_path;
            none = rw off w.node_path;
            of = rw off w.node_fs;
            child = rw same k;
          })
    go u w (inr (h, e)) = absurd (omega arith)

-- `mount` of `/` and a further path without a `/`, on a root without children, with memory, and where the
-- array `found_path`, which the code does not clear, has only zeros at first: it puts the further path and no `/` into
-- the root, and no path into the new node, which is then the root's only child. So `file_open` of
-- any path shorter than the further path reads behind its end.
pub mount-Wiped :
    (s : Files) (fresh : ℕ → ℕ) (depth rounds fs copy node : ℕ) (ps tail : List ℕ)
    (children parts fuel flags : ℕ) (q : List ℕ)
    → (s.mounts s.root_addr).path ≡ slash ∷ []
    → (s.mounts s.root_addr).children.index ≡ 0
    → s.kernel.blocks ≡ copy ∷ (node ∷ ps)
    → copy ≢ null
    → node ≢ null
    → node ≢ s.root_addr
    → AllChars tail
    → suc (length tail) < max_path
    → length q < length tail
    → Returns
        (λ t.
          ((t.mounts s.root_addr).path ≡ tail)
          × ((t.mounts node).path ≡ [])
          × ((t.mounts node).fs ≡ fs)
          × Holds (t.mounts s.root_addr).children (node ∷ [])
          × (file_open (suc depth) children parts fuel fresh true q flags t ≡ fault))
        (mount fresh true (suc depth) rounds no_path (slash ∷ tail) fs s)
mount-Wiped s fresh depth rounds fs copy node ps tail children parts fuel flags q p c b m n d a l
      k =
    rw (mount-add s fresh depth rounds fs copy (node ∷ ps) tail p c b m l) (
      Returns-mono
        (λ t w. (
          w.path,
          w.none,
          w.of,
          w.child,
          short-fault t depth children parts fuel fresh true q tail flags (rw (w.same) w.path)
              (rw (w.same) (ground (arith, w.child.filled))) a (omega arith) k,
        ))
        (add-Mounted s fresh fs node ps tail n d (omega arith)))
