-- ===== src/Mem/Paging/Map.antt =====
-- arch/i386/mem/paging.c: a mapped page is found, and which pages can be mapped again.
use brackos.Base.{
  ℕ, ◌+◌, ◌<◌, ◌≡◌, refl, sym, ap, ◌∙◌, ◌⊎◌, Bool, true, false, ◌&&◌, ◌==◌, if◌then◌else◌,
  Bool-cases, inl, inr, arith,
}
use brackos.Base.Outcome.{Outcome, ok, hang, ◌>>=◌}
use brackos.Base.Word.{has_bit}
use brackos.Mem.Paging.{
  Paging, present, pse, dir_of, page_of, entry, entry_flags, entry_address, put_entry, ensure_table,
  map_entry, paging_map, paging_find_physical,
}

-- The table for the address is there, and its directory entry is no page of 4 MiB.
pub record HasTable (virt : ℕ) (s : Paging) : Type 0 where
  pub there : has_bit (s.directory (dir_of virt)) present ≡ true
  pub no_page : has_bit (s.directory (dir_of virt)) pse ≡ false
  pub unlocked : s.lock ≡ false

bit_23 : (w : ℕ) → has_bit (entry_flags w) present ≡ has_bit w 23
bit_23 w = ap (λ (n : ℕ). n == 1) (omega arith)

page_of-entry : (a flags : ℕ) → flags < 4096 → page_of (page_of (page_of a) + flags) ≡ page_of a
page_of-entry a flags l = omega arith

ensure-there :
    (dir : ℕ) (s : Paging) → has_bit (s.directory dir) present ≡ true → ensure_table dir s ≡ s
unfolding ensure_table
ensure-there dir s h = rw h refl

entry-written :
    (physical virt flags : ℕ) (s : Paging)
    → has_bit (s.directory (dir_of virt)) pse ≡ false
    → has_bit (entry_flags (entry virt s)) present ≡ false
    → map_entry physical virt flags s ≡ (true, put_entry virt (page_of physical + flags) s)
unfolding map_entry
entry-written physical virt flags s h e = rw (h, e) refl

entry-kept :
    (physical virt flags : ℕ) (s : Paging)
    → has_bit (s.directory (dir_of virt)) pse ≡ false
    → has_bit (entry_flags (entry virt s)) present ≡ true
    → map_entry physical virt flags s
      ≡ (entry_address (entry virt s) == physical && (entry_flags (entry virt s) == flags), s)
unfolding map_entry
entry-kept physical virt flags s h e = rw (h, e) refl

-- what `paging_map` returns of the answer of its two parts
abbrev released : (s : Paging) → Bool × Paging → Outcome (Bool × Paging)
released s r = if s.lock then hang else ok (r.0, record r.1 { lock = false })

unlock :
    (s : Paging)
    → s.lock ≡ false
    → (r : Bool × Paging) → r.1.lock ≡ false
    → released s (r.0, record r.1 { lock = true }) ≡ ok r
unlock s h r k = rw h (ap (λ (b : Bool). ok (r.0, record r.1 { lock = b })) (sym k))

map-parts :
    (physical virt flags : ℕ) (s : Paging)
    → has_bit (s.directory (dir_of virt)) present ≡ true
    → paging_map physical virt flags s
      ≡ released s (map_entry (page_of physical) virt flags (record s { lock = true }))
unfolding paging_map
map-parts physical virt flags s h =
    ap (λ (t : Paging). released s (map_entry (page_of physical) virt flags t))
      (ensure-there (dir_of virt) (record s { lock = true }) h)

map-written :
    (physical virt flags : ℕ) (s : Paging)
    → HasTable virt s
    → has_bit (entry virt s) 23 ≡ false
    → paging_map physical virt flags s
      ≡ ok (true, put_entry virt (page_of (page_of physical) + flags) s)
map-written physical virt flags s h e =
    map-parts physical virt flags s h.there
    ∙ ap (released s) (
        entry-written (page_of physical) virt flags (record s { lock = true }) h.no_page
          (bit_23 (entry virt s) ∙ e))
    ∙ unlock s h.unlocked (true, put_entry virt (page_of (page_of physical) + flags) s) h.unlocked

map-kept :
    (physical virt flags : ℕ) (s : Paging)
    → HasTable virt s
    → has_bit (entry virt s) 23 ≡ true
    → paging_map physical virt flags s
      ≡ ok (
        entry_address (entry virt s) == page_of physical && (entry_flags (entry virt s) == flags),
        s,
      )
map-kept physical virt flags s h e =
    map-parts physical virt flags s h.there
    ∙ ap (released s) (
        entry-kept (page_of physical) virt flags (record s { lock = true }) h.no_page
          (bit_23 (entry virt s) ∙ e))
    ∙ unlock s h.unlocked
        (
          entry_address (entry virt s) == page_of physical && (entry_flags (entry virt s) == flags),
          s,
        )
        h.unlocked

find-there :
    (virt : ℕ) (s : Paging)
    → has_bit (s.directory (dir_of virt)) present ≡ true
    → paging_find_physical virt s ≡ ok (page_of (entry virt s))
unfolding paging_find_physical
find-there virt s h = rw h refl

pub entry-put_entry : (virt word : ℕ) (s : Paging) → entry virt (put_entry virt word s) ≡ word
entry-put_entry virt word s = ground arith

-- What `paging_map` does for an address whose table is there and is no page of 4 MiB. Whether the page
-- counts as mapped is read from bit 23 of its entry: when that is clear the entry is overwritten, whatever
-- page it showed, and `paging_find_physical` then gives the new page; when it is set, nothing changes, and
-- the answer compares the low 20 bits and the high 9 bits of the entry with the page and the flags.
pub paging_map-find_physical :
    (physical virt flags : ℕ) (s : Paging)
    → HasTable virt s
    → flags < 4096
    → (has_bit (entry virt s) 23 ≡ false
        × (paging_map physical virt flags s >>= λ r. paging_find_physical virt r.1)
          ≡ ok (page_of physical))
      ⊎ (has_bit (entry virt s) 23 ≡ true
          × paging_map physical virt flags s
            ≡ ok (
              entry_address (entry virt s) == page_of physical
                  && (entry_flags (entry virt s) == flags),
              s,
            ))
paging_map-find_physical physical virt flags s h l = elim (Bool-cases (has_bit (entry virt s) 23)) [
  | inl e ↦ inr (e, map-kept physical virt flags s h e)
  | inr e ↦
      let word = page_of (page_of physical) + flags in
      inl (
        e,
        ap (λ o. o >>= λ r. paging_find_physical virt r.1) (map-written physical virt flags s h e)
            ∙ find-there virt (put_entry virt word s) h.there
            ∙ ap (λ w. ok (page_of w)) (entry-put_entry virt word s)
            ∙ ap ok (page_of-entry physical flags l),
      )
]
