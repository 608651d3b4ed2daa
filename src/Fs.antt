-- ===== src/Fs.antt =====
-- kernel/fs: files, the in-memory file system, references and mount points. A file, a node, a reference, a
-- pair and a mount node are known by their addresses. A string is the list of its characters, and a
-- buffer of `MAXFILEPATH` characters a list of that length.
pub mod Tree
pub mod Ref
pub mod Vfs
pub mod Mount
pub mod Call
pub mod Parts
pub mod Walk
pub mod Create
pub mod Reopen
pub mod Open
pub mod Fid
pub mod Wipe
pub mod Read
mod Tests
use brackos.Base.{
  ℕ, zero, suc, ◌+◌, ◌-◌, ◌%◌, ◌^◌, Bool, true, false, not, ◌&&◌, List, [], ◌∷◌, ◌++◌, ltb, leb,
  ◌==◌, if◌then◌else◌, length, take, drop, set, get_or, replicate,
}
use brackos.Base.Outcome.{Outcome, ok, fault, ◌>>=◌}
use brackos.Std.Array.{Array, words_of}
use brackos.Tasks.{Kernel}

abbrev pub null : ℕ
null = 0

-- `MAXFILEPATH`
abbrev pub max_path : ℕ
max_path = 128

-- `O_RD`, `O_WRT` and `O_STAT`, by their bits
abbrev pub rd : ℕ
rd = 0

abbrev pub wrt : ℕ
wrt = 1

abbrev pub stat : ℕ
stat = 3

-- `FID_INVALID`
abbrev pub fid_invalid : ℕ
fid_invalid = 4294967295

-- the character '/'
abbrev pub slash : ℕ
slash = 47

-- `file_t`, with `stats` as its two lists
pub record File : Type 0 where
  pub fs : ℕ
  pub name : List ℕ
  pub node : ℕ
  pub keys : Array
  pub vals : Array
  pub next : ℕ
  pub child : ℕ

-- `vfs_node_t`; `bytes` stand at `data`.
pub record VfsNode : Type 0 where
  pub bytes : List ℕ
  pub len : ℕ

-- `file_ref_t`
pub record FileRef : Type 0 where
  pub fid : ℕ
  pub file : ℕ
  pub index : ℕ
  pub task : ℕ
  pub flags : ℕ

-- `file_ref_pair_t`
pub record FileRefPair : Type 0 where
  pub fid : ℕ
  pub ref : ℕ

-- `mount_node_t`
pub record MountNode : Type 0 where
  pub path : List ℕ
  pub children : Array
  pub fs : ℕ

-- Memory; `roots` has the `data` of each `fs_t`, and `root_node` stands at `root_addr`.
pub record Files : Type 0 where
  pub files : ℕ → File
  pub nodes : ℕ → VfsNode
  pub refs : ℕ → FileRef
  pub pairs : ℕ → FileRefPair
  pub mounts : ℕ → MountNode
  pub roots : ℕ → ℕ
  pub root_addr : ℕ
  pub kernel : Kernel

abbrev pub put_file : ℕ → File → (ℕ → File) → (ℕ → File)
put_file p f h = λ q. if q == p then f else h q

-- `kmalloc`
abbrev pub new_memory : Files → ℕ × Files
new_memory s = elim s.kernel.blocks [
  | [] ↦ (null, s)
  | p ∷ ps ↦ (p, record s { kernel = record s.kernel { blocks = ps } })
]

-- a buffer of `MAXFILEPATH` zeros
abbrev pub no_path : List ℕ
no_path = replicate max_path 0

-- the characters of `text` from the place `at` of a buffer on; beyond its end it is a fault
unfoldable pub write_chars : (at : ℕ) → (text buffer : List ℕ) → Outcome (List ℕ)
write_chars at text buffer =
    if leb (at + length text) (length buffer)
    then ok (take at buffer ++ (text ++ drop (at + length text) buffer))
    else fault

-- the string in a buffer
unfoldable pub text_of : List ℕ → List ℕ
text_of [] = []
text_of (c ∷ cs) = let rest = text_of cs in if c == 0 then [] else c ∷ rest
