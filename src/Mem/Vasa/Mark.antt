-- ===== src/Mem/Vasa/Mark.antt =====
-- `vasa_mark` of kernel/mem/vasa.c, for a range that is the whole of the first free chunk.
use brackos.Base.{
  ℕ, suc, ◌≤◌, ◌≡◌, ◌≢◌, ◌⊎◌, ◌∙◌, refl, ap, true, false, List, [], ◌∷◌, leb, ◌==◌, inl, inr,
  length, arith,
}
use brackos.Base.Outcome.{ok, ◌>>=◌, Returns, Returns-ok}
use brackos.Base.Word.{add32}
use brackos.Mem.Vasa.{Vasa, null, write, set_head, vasa_add_node, mark_found, mark_loop, vasa_mark}
use brackos.Mem.Vasa.Chain.{
  Chain, Distinct, cover, IsChunk, AllChunks, Agree, Agree-of, Chain-Agree, cover-Agree,
  AllChunks-Agree,
}
use brackos.Mem.Vasa.Insert.{Inserted, covers-same, vasa_add_node-Inserted}

-- the state in which `vasa_mark` puts the first free node `x` into the used list
unhooked : (x flags : ℕ) → Vasa → Vasa
unhooked x flags s = write x (record (s.mem x) { flags = flags }) (set_head true (s.mem x).next s)

mark-unhooked :
    (k flags x : ℕ) (s : Vasa)
    → x ≢ null
    → s.free_head ≡ x
    → IsChunk (s.mem x)
    → vasa_mark (suc k) (s.mem x).base (s.mem x).length true flags s
      ≡ (vasa_add_node (suc k) x true (unhooked x flags s) >>= λ t. ok (true, t))
unfolding vasa_mark mark_loop mark_found unhooked
mark-unhooked k flags x s some free big =
    let some_x : (x == null) ≡ false = ground arith in
    let grows : leb (add32 (s.mem x).base (s.mem x).length) (s.mem x).base ≡ false = ground arith in
    let same : leb (s.mem x).base (s.mem x).base ≡ true = ground arith in
    let end : leb (add32 (s.mem x).base (s.mem x).length) (add32 (s.mem x).base (s.mem x).length)
        ≡ true =
      ground arith in
    let same' : ((s.mem x).base == (s.mem x).base) ≡ true = ground arith in
    let end' : (add32 (s.mem x).base (s.mem x).length == add32 (s.mem x).base (s.mem x).length)
        ≡ true =
      ground arith in
    simp (free, some_x, grows, same, end, same', end')

-- `vasa_mark` to used of the whole chunk of the first free node answers true, but it takes the node out
-- by the head of the wrong list: the free list still starts at the node, and the used list, whatever
-- it was, is now the node and the nodes that were free behind it, so at every address it covers what
-- the free list covered.
pub vasa_mark-swaps :
    (k flags p x : ℕ) (xs : List ℕ) (s : Vasa)
    → length xs ≤ k
    → Chain s.mem s.free_head (x ∷ xs)
    → Distinct (x ∷ xs)
    → AllChunks s.mem (x ∷ xs)
    → (t : Vasa) × (vasa_mark (suc k) (s.mem x).base (s.mem x).length true flags s ≡ ok (true, t))
      × (t.free_head ≡ x)
      × (used' : List ℕ) × Chain t.mem t.used_head used'
      × (cover t.mem used' p ≡ cover s.mem (x ∷ xs) p)
unfolding unhooked
vasa_mark-swaps k flags p x xs s h c d all =
    let (t, e, i) = Returns-ok inserted in
    let (free, used', chain, same) = marked t i in
    (
      t,
      mark-unhooked k flags x s c.1 c.0 all.0 ∙ ap (λ r. r >>= λ u. ok (true, u)) e,
      free,
      used',
      chain,
      same,
    )
  where
    u : Vasa
    u = unhooked x flags s

    self : (x == x) ≡ true
    self = ground arith

    agree : Agree s.mem u.mem xs
    agree = Agree-of s.mem u.mem x x xs (λ q a b. ground arith) d.0 d.0

    Marked : Vasa → Type 0
    Marked t =
        (t.free_head ≡ x)
        × (used' : List ℕ) × Chain t.mem t.used_head used'
        × (cover t.mem used' p ≡ cover s.mem (x ∷ xs) p)

    ready : (xs : List ℕ) → Chain s.mem (s.mem x).next xs → (xs ≢ []) ⊎ ((u.mem x).next ≡ null)
    ready [] c = inr (rw self c)
    ready (y ∷ ys) c = inl cc

    marked : (t : Vasa) → Inserted true x null xs p u t → Marked t
    marked t i = (
      i.other_head ∙ c.0,
      i.items,
      i.chain,
      i.covered
          ∙ rw
              (
                cover-Agree s.mem u.mem xs p agree,
                covers-same (u.mem x) (s.mem x) p (rw self refl) (rw self refl),
              )
              (omega arith),
    )

    inserted : Returns (Inserted true x null xs p u) (vasa_add_node (suc k) x true u)
    inserted =
        vasa_add_node-Inserted (suc k) x true p xs u (omega arith) c.1 d.0
          (Chain-Agree s.mem u.mem (s.mem x).next xs agree c.2) d.1
          (AllChunks-Agree s.mem u.mem xs agree all.1) (rw self all.0) (ready xs c.2)
