-- ===== src/Mem/Paging.antt =====
-- arch/i386/mem/paging.c: the page tables. Through the last entry of the directory a table is seen at a fixed
-- place, so the entries are those of the frame that the directory names; this holds for all virtual
-- addresses but the last 4 MiB, which show the tables themselves. What the processor keeps of old
-- entries is not modelled.
pub mod Map
pub mod Release
mod Tests
use brackos.Base.{
  ℕ, zero, suc, ◌+◌, ◌-◌, ◌*◌, ◌/◌, ◌%◌, ◌^◌, Bool, true, false, not, ◌&&◌, List, [], ◌∷◌, leb,
  ◌==◌, if◌then◌else◌,
}
use brackos.Base.Outcome.{Outcome, ok, fault, hang, ◌>>=◌}
use brackos.Base.Word.{has_bit}

-- `page_directory_table`, the entries of the frames by address and index, the frames that
-- `frame_alloc(1)` hands out, those that were given back, and `page_lock`
pub record Paging : Type 0 where
  pub directory : ℕ → ℕ
  pub frames : ℕ → ℕ → ℕ
  pub supply : List ℕ
  pub freed : List ℕ
  pub lock : Bool

-- `PAGE_PRESENT` and `PAGE_PSE`, by their bits
abbrev pub present : ℕ
present = 0

abbrev pub pse : ℕ
pse = 7

abbrev pub dir_of : (virt : ℕ) → ℕ
dir_of virt = virt / 2 ^ 22

abbrev pub tab_of : (virt : ℕ) → ℕ
tab_of virt = virt / 2 ^ 12 % 1024

-- an address without its lowest 12 bits
abbrev pub page_of : ℕ → ℕ
page_of a = a / 4096 * 4096

-- `page_entry_t`: its fields in the word of an entry
abbrev pub entry_address : ℕ → ℕ
entry_address w = w % 2 ^ 20

abbrev pub entry_flags : ℕ → ℕ
entry_flags w = w / 2 ^ 23 % 2 ^ 9

-- the frame of the table for a directory entry, and a write to an entry of it
abbrev pub table_of : (dir : ℕ) → Paging → ℕ
table_of dir s = page_of (s.directory dir)

abbrev pub entry : (virt : ℕ) → Paging → ℕ
entry virt s = s.frames (table_of (dir_of virt) s) (tab_of virt)

abbrev pub put_entry : (virt word : ℕ) → Paging → Paging
put_entry virt word s = record s {
  frames =
      λ f i. if f == table_of (dir_of virt) s && (i == tab_of virt) then word else s.frames f i;
}

abbrev pub put_dir : (dir word : ℕ) → Paging → Paging
put_dir dir word s = record s { directory = λ d. if d == dir then word else s.directory d }

-- `frame_alloc(1)`; NULL is not looked for.
abbrev pub new_table : Paging → ℕ × Paging
new_table s = elim s.supply [ [] ↦ (0, s) | f ∷ fs ↦ (f, record s { supply = fs }) ]

-- the first `if` of `paging_map`
unfoldable pub ensure_table : (dir : ℕ) → Paging → Paging
ensure_table dir s =
    let (f, t) = new_table s in
    if has_bit (s.directory dir) present then s else put_dir dir (f / 4 * 4 + 3) t

-- `paging_map` with its lock held; `flags` has 12 bits.
unfoldable pub map_entry : (physical virt flags : ℕ) → Paging → Bool × Paging
map_entry physical virt flags s =
    let w = entry virt s in
    if has_bit (s.directory (dir_of virt)) pse
    then (false, s)
    else if has_bit (entry_flags w) present
    then (entry_address w == physical && (entry_flags w == flags), s)
    else (true, put_entry virt (page_of physical + flags) s)

unfoldable pub paging_map : (physical virt flags : ℕ) → Paging → Outcome (Bool × Paging)
paging_map physical virt flags s =
    let (answer, t) =
      map_entry (page_of physical) virt flags
        (ensure_table (dir_of virt) (record s { lock = true })) in
    if s.lock then hang else ok (answer, record t { lock = false })

-- `address = 0`, and without the flag for a page that is present
unfoldable pub cleared : (word : ℕ) → ℕ
cleared w =
    let low_cleared = w / 2 ^ 20 * 2 ^ 20 in
    if has_bit (entry_flags w) present then low_cleared - 2 ^ 23 else low_cleared

-- the count of `paging_unmap`, of `n` entries from `i` on
unfoldable pub count_pages : (n i : ℕ) → (entries : ℕ → ℕ) → ℕ
count_pages zero i entries = 0
count_pages (suc n) i entries =
    let rest = count_pages n (i + 1) entries in
    if not (entry_flags (entries i) == 0) && not (entry_address (entries i) == 0)
    then suc rest
    else rest

-- `paging_unmap` with its lock held
unfoldable pub unmap_entry : (virt : ℕ) → Paging → Paging
unmap_entry virt s =
    let t = put_entry virt (cleared (entry virt s)) s in
    let table = table_of (dir_of virt) t in
    if count_pages 1024 0 (t.frames table) == 0
    then put_dir (dir_of virt) 0 (record t { freed = table ∷ t.freed })
    else t

unfoldable pub paging_unmap : (virt : ℕ) → Paging → Outcome (Bool × Paging)
paging_unmap virt s =
    if s.lock
    then hang
    else if not (has_bit (s.directory (dir_of virt)) present)
    then ok (false, s)
    else ok (true, unmap_entry virt s)

-- A table that is not there cannot be read.
unfoldable pub paging_find_physical : (virt : ℕ) → Paging → Outcome ℕ
paging_find_physical virt s =
    if has_bit (s.directory (dir_of virt)) present then ok (page_of (entry virt s)) else fault
