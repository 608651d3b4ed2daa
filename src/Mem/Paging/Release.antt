-- ===== src/Mem/Paging/Release.antt =====
-- arch/i386/mem/paging.c: which tables `paging_unmap` gives back.
use brackos.Base.{
  ℕ, zero, suc, ◌+◌, ◌-◌, ◌*◌, ◌/◌, ◌%◌, ◌^◌, ◌<◌, ◌≡◌, refl, sym, ap, ◌∙◌, Bool, true, false, ◌&&◌,
  ◌∷◌, ◌==◌, if◌then◌else◌, Bool-cases, inl, inr, arith,
}
use brackos.Base.Outcome.{ok, fault, Returns, returns}
use brackos.Base.Word.{has_bit}
use brackos.Mem.Paging.Map.{entry-put_entry}
use brackos.Mem.Paging.{
  Paging, present, pse, dir_of, tab_of, entry, entry_flags, table_of, put_entry, put_dir, cleared,
  count_pages, unmap_entry, paging_unmap, paging_find_physical,
}

-- no entry of the table shows an address of 8 MiB or more
abbrev pub IsLow : (entries : ℕ → ℕ) → Type 0
IsLow entries = (i : ℕ) → entries i < 2 ^ 23

flags-low : (w : ℕ) → w < 2 ^ 23 → entry_flags w ≡ 0
flags-low w l = omega arith

cleared-low : (w : ℕ) → w < 2 ^ 23 → cleared w < 2 ^ 23
unfolding cleared
cleared-low w l = rw (flags-low w l) (omega arith)

count_pages-low : (n i : ℕ) (entries : ℕ → ℕ) → IsLow entries → count_pages n i entries ≡ 0
unfolding count_pages
count_pages-low zero i entries l = refl
count_pages-low (suc n) i entries l =
    rw (flags-low (entries i) (l i)) (count_pages-low n (i + 1) entries l)

-- the state after the entry of an address is cleared
abbrev pub wiped : (virt : ℕ) → Paging → Paging
wiped virt s = put_entry virt (cleared (entry virt s)) s

either-low : (b : Bool) {v w : ℕ} → v < 2 ^ 23 → w < 2 ^ 23 → (if b then v else w) < 2 ^ 23
either-low true l k = l
either-low false l k = k

wiped-IsLow :
    (virt : ℕ) (s : Paging)
    → IsLow (s.frames (table_of (dir_of virt) s))
    → IsLow ((wiped virt s).frames (table_of (dir_of virt) s))
wiped-IsLow virt s l i =
    either-low (table_of (dir_of virt) s == table_of (dir_of virt) s && (i == tab_of virt))
      (cleared-low (entry virt s) (l (tab_of virt))) (l i)

unmap_entry-low :
    (virt : ℕ) (s : Paging)
    → IsLow (s.frames (table_of (dir_of virt) s))
    → unmap_entry virt s
      ≡ put_dir
          (dir_of virt)
          0
          (record (wiped virt s) { freed = table_of (dir_of virt) s ∷ s.freed })
unfolding unmap_entry
unmap_entry-low virt s l =
    rw
      (count_pages-low 1024 0 ((wiped virt s).frames (table_of (dir_of virt) s))
        (wiped-IsLow virt s l))
      refl

unmap-there :
    (virt : ℕ) (s : Paging)
    → s.lock ≡ false
    → has_bit (s.directory (dir_of virt)) present ≡ true
    → paging_unmap virt s ≡ ok (true, unmap_entry virt s)
unfolding paging_unmap
unmap-there virt s u h = rw (u, h) refl

unmap-missing :
    (virt : ℕ) (s : Paging)
    → s.lock ≡ false
    → has_bit (s.directory (dir_of virt)) present ≡ false
    → paging_unmap virt s ≡ ok (false, s)
unfolding paging_unmap
unmap-missing virt s u h = rw (u, h) refl

find-gone :
    (virt : ℕ) (s : Paging) → s.directory (dir_of virt) ≡ 0 → paging_find_physical virt s ≡ fault
unfolding paging_find_physical
find-gone virt s h = rw h refl

abbrev emptied : (virt : ℕ) → Paging → Paging
emptied virt s =
    put_dir (dir_of virt) 0 (record (wiped virt s) { freed = table_of (dir_of virt) s ∷ s.freed })

put_dir-here : {d dir : ℕ} → d ≡ dir → (s : Paging) → (put_dir dir 0 s).directory d ≡ 0
put_dir-here k s = ground arith

-- `paging_unmap` of one page gives back the whole table, and empties its entry of the directory, whenever
-- every entry of the table is a word below 2 ^ 23, as an entry for memory below 8 MiB is, however many
-- pages it shows: no address of the same 4 MiB can be looked up after that.
pub paging_unmap-released :
    (virt : ℕ) (s : Paging)
    → s.lock ≡ false
    → has_bit (s.directory (dir_of virt)) present ≡ true
    → IsLow (s.frames (table_of (dir_of virt) s))
    → Returns
        (λ r.
          r.0 ≡ true
          × r.1.freed ≡ table_of (dir_of virt) s ∷ s.freed
          × ((other : ℕ) → dir_of other ≡ dir_of virt → paging_find_physical other r.1 ≡ fault))
        (paging_unmap virt s)
paging_unmap-released virt s u h l =
    rw (unmap-there virt s u h, unmap_entry-low virt s l)
      (returns
        (refl, refl, λ other k. find-gone other (emptied virt s) (put_dir-here k (wiped virt s))))

-- an address whose page the entries in memory show as present, by their lowest bits
abbrev pub mapped : (virt : ℕ) → Paging → Bool
mapped virt s = has_bit (s.directory (dir_of virt)) present && has_bit (entry virt s) present

either-even : (b : Bool) (v w : ℕ) → v % 2 ≡ 0 → w % 2 ≡ 0 → (if b then v else w) % 2 ≡ 0
either-even true v w h k = h
either-even false v w h k = k

cleared-even : (w : ℕ) → cleared w % 2 ≡ 0
unfolding cleared
cleared-even w =
    either-even (has_bit (entry_flags w) present) (w / 2 ^ 20 * 2 ^ 20 - 2 ^ 23)
      (w / 2 ^ 20 * 2 ^ 20) (omega arith) (omega arith)

bit_0 : (w : ℕ) → w % 2 ≡ 0 → w / 2 ^ 0 % 2 ≡ 0
bit_0 w h = omega arith

even-absent : (w : ℕ) → w % 2 ≡ 0 → has_bit w present ≡ false
even-absent w h = ap (λ (n : ℕ). n == 1) (bit_0 w h)

cleared-absent : (w : ℕ) → has_bit (cleared w) present ≡ false
cleared-absent w = even-absent (cleared w) (cleared-even w)

absent-if :
    (b : Bool) (virt : ℕ) (x y : Paging)
    → mapped virt x ≡ false
    → mapped virt y ≡ false
    → mapped virt (if b then x else y) ≡ false
absent-if true virt x y h k = h
absent-if false virt x y h k = k

absent-table :
    (virt : ℕ) (s : Paging)
    → has_bit (s.directory (dir_of virt)) present ≡ false
    → mapped virt s ≡ false
absent-table virt s h = rw h refl

absent-dir : (virt : ℕ) (s : Paging) → s.directory (dir_of virt) ≡ 0 → mapped virt s ≡ false
absent-dir virt s h = rw h refl

and-false : (b : Bool) → (b && false) ≡ false
and-false true = refl
and-false false = refl

absent-entry :
    (virt : ℕ) (s : Paging) → has_bit (entry virt s) present ≡ false → mapped virt s ≡ false
absent-entry virt s h = ap (λ b. has_bit (s.directory (dir_of virt)) present && b) h ∙ and-false _

unmap_entry-absent : (virt : ℕ) (s : Paging) → mapped virt (unmap_entry virt s) ≡ false
unfolding unmap_entry
unmap_entry-absent virt s =
    absent-if (count_pages 1024 0 ((wiped virt s).frames (table_of (dir_of virt) s)) == 0) virt
      (emptied virt s) (wiped virt s)
      (absent-dir virt (emptied virt s) (put_dir-here refl (wiped virt s)))
      (absent-entry virt (wiped virt s) (
        ap (λ w. has_bit w present) (entry-put_entry virt (cleared (entry virt s)) s)
        ∙ cleared-absent (entry virt s)))

-- After `paging_unmap` of an address below the last 4 MiB, and in no page of 4 MiB, with the lock free, the
-- entries in memory do not show a page there: that of the directory, or that of the table, has its
-- lowest bit clear, whether there was a table or not, whether the page was mapped or not, and whether
-- the table is given back or not. The answer tells whether there was a table. An entry that the
-- processor holds already is not flushed, and may still show the page.
pub paging_unmap-mapped :
    (virt : ℕ) (s : Paging)
    → s.lock ≡ false
    → dir_of virt < 1023
    → has_bit (s.directory (dir_of virt)) pse ≡ false
    → Returns
        (λ r. r.0 ≡ has_bit (s.directory (dir_of virt)) present × mapped virt r.1 ≡ false)
        (paging_unmap virt s)
paging_unmap-mapped virt s u l p = elim (Bool-cases (has_bit (s.directory (dir_of virt)) present)) [
  | inl h ↦ rw (unmap-there virt s u h) (returns (sym h, unmap_entry-absent virt s))
  | inr h ↦ rw (unmap-missing virt s u h) (returns (sym h, absent-table virt s h))
]
