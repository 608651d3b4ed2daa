-- ===== src/Mem/Paging/Tests.antt =====
-- arch/i386/mem/paging.c: runs on a table with two pages.
use brackos.Base.{
  ℕ, ◌^◌, ◌<◌, ◌≡◌, ◌⊎◌, true, false, ◌&&◌, [], ◌∷◌, ◌==◌, if◌then◌else◌, refl, arith,
}
use brackos.Base.Outcome.{ok, fault, ◌>>=◌, Returns}
use brackos.Base.Word.{has_bit}
use brackos.Mem.Paging.{
  Paging, present, dir_of, page_of, entry, entry_flags, entry_address, table_of, paging_map,
  paging_unmap, paging_find_physical,
}
use brackos.Mem.Paging.Map.{HasTable, paging_map-find_physical}
use brackos.Mem.Paging.Release.{mapped, paging_unmap-released, paging_unmap-mapped}

-- a table in the frame at 4096, whose first two entries show the pages at 20480 and 24576
abbrev two_pages : Paging
two_pages = record {
  directory = λ d. if d == 0 then 4099 else 0;
  frames = λ f i. if i == 0 then 20483 else if i == 1 then 24579 else 0;
  supply = [];
  freed = [];
  lock = false;
}

abbrev one_table : HasTable 0 two_pages
one_table = record { there = refl; no_page = refl; unlocked = refl }

-- The page that the first entry shows is replaced.
replaced : (paging_map 28672 0 3 two_pages >>= λ r. paging_find_physical 0 r.1) ≡ ok 28672
unfolding paging_map brackos.Mem.Paging.ensure_table brackos.Mem.Paging.map_entry
    paging_find_physical
replaced = refl

paging_map-find_physical_example :
    (has_bit (entry 0 two_pages) 23 ≡ false
      × (paging_map 28672 0 3 two_pages >>= λ r. paging_find_physical 0 r.1) ≡ ok (page_of 28672))
    ⊎ (has_bit (entry 0 two_pages) 23 ≡ true
        × paging_map 28672 0 3 two_pages
          ≡ ok (
            entry_address (entry 0 two_pages) == page_of 28672
                && (entry_flags (entry 0 two_pages) == 3),
            two_pages,
          ))
paging_map-find_physical_example =
    paging_map-find_physical 28672 0 3 two_pages one_table (omega arith)

two_pages-low : (i : ℕ) → two_pages.frames 4096 i < 2 ^ 23
two_pages-low i = ground arith

paging_unmap-released_example :
    Returns
      (λ r.
        r.0 ≡ true
        × r.1.freed ≡ table_of (dir_of 0) two_pages ∷ two_pages.freed
        × ((other : ℕ) → dir_of other ≡ dir_of 0 → paging_find_physical other r.1 ≡ fault))
      (paging_unmap 0 two_pages)
paging_unmap-released_example = paging_unmap-released 0 two_pages refl refl two_pages-low

paging_unmap-mapped_example :
    Returns
      (λ r. r.0 ≡ has_bit (two_pages.directory (dir_of 0)) present × mapped 0 r.1 ≡ false)
      (paging_unmap 0 two_pages)
paging_unmap-mapped_example = paging_unmap-mapped 0 two_pages refl (omega arith) refl
