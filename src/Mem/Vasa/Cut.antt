-- ===== src/Mem/Vasa/Cut.antt =====
-- `vasa_alloc` of kernel/mem/vasa.c at a node that is long enough: the chunk is cut from its start, or
-- the node is taken whole.
use brackos.Base.{
  ℕ, ◌+◌, ◌<◌, ◌≡◌, ◌≢◌, refl, sym, ap, true, false, List, ◌∷◌, leb, ltb, ◌==◌, Bool-cases, inl,
  inr, arith,
}
use brackos.Base.Outcome.{ok, ◌>>=◌, Returns}
use brackos.Base.Word.{add32, sub32}
use brackos.Mem.Vasa.{
  VasaNode, Vasa, null, write, release, padding, cut_waste, take_node, vasa_node_alloc, unlink,
  vasa_add_node, alloc_found,
}
use brackos.Mem.Vasa.Chain.{
  Apart-more, covers, IsChunk, Agree, Agree-of, Chain-Agree, cover-Agree, AllChunks-Agree,
}
use brackos.Mem.Vasa.Insert.{link, covers-same}
use brackos.Mem.Vasa.Taken.{chunk, Taken, Ready, Cut, Cut-Taken}

split_chunk :
    (size p : ℕ) (a b : VasaNode)
    → IsChunk a
    → 0 < size
    → size < a.length
    → b.base ≡ add32 a.base size
    → b.length ≡ sub32 a.length size
    → IsChunk b × (covers b p + covers (chunk a.base size) p ≡ covers a p)
unfolding covers
split_chunk size p a b ha h0 h e0 e1 = ground arith

module _ (fuel type size flags n p : ℕ) (rest used : List ℕ) where
  -- the state when the chunk is cut from the start of `x`
  split_state : (x : ℕ) → Vasa → Vasa
  split_state x s =
      write n
        (record { next = null; type = type; base = (s.mem x).base; length = size; flags = flags })
        (record (write x
          (record (s.mem x) {
            base = add32 (s.mem x).base size;
            length = sub32 (s.mem x).length size;
          })
          s) { supply = rest })

  split_Cut :
      (x prev : ℕ) (ys : List ℕ) (s : Vasa)
      → Ready fuel type size flags n p rest used prev (x ∷ ys) s
      → size < (s.mem x).length
      → Cut fuel type size flags n p rest used n (s.mem x).base prev (x ∷ ys) s (split_state x s)
  unfolding split_state
  split_Cut x prev ys s h longer = record {
    items = x ∷ ys;
    chain = (
      at_prev,
      h.free_chain.1,
      rw at_x (Chain-Agree s.mem u.mem (s.mem x).next ys agree h.free_chain.2),
    );
    distinct = h.free_distinct;
    items_apart = Apart-more (x ∷ ys) n used h.n_free h.apart;
    chunks = (big.0, AllChunks-Agree s.mem u.mem ys agree h.free_chunks.1);
    within = λ q a. a;
    covered = omega (arith, big.1, cover-Agree s.mem u.mem ys p agree);
    m_next = rw at_n refl;
    m_base = rw at_n refl;
    m_length = rw at_n refl;
    m_some = h.n_some;
    m_used = h.n_used;
    m_prev = h.n_prev;
    m_origin = λ q a b. a;
    fits = ground (arith, h.free_chunks.0.0);
    prev_base = ap (λ k. k.base) same_prev;
    prev_length = ap (λ k. k.length) same_prev;
    others = λ q a b d. others q d.0 b;
    used_same = Agree-of s.mem u.mem x n used others h.apart.0 h.n_used;
    used_head = refl;
    same_head = λ a. refl;
  }
    where
      u : Vasa
      u = split_state x s

      others : (q : ℕ) → q ≢ x → q ≢ n → u.mem q ≡ s.mem q
      others q a b = ground arith

      at_x : u.mem x ≡ record (s.mem x) {
        base = add32 (s.mem x).base size;
        length = sub32 (s.mem x).length size;
      }
      at_x = ground (arith, h.n_free.0)

      at_n :
          u.mem n
          ≡ record { next = null; type = type; base = (s.mem x).base; length = size; flags = flags }
      at_n = ground arith

      same_prev : u.mem prev ≡ s.mem prev
      same_prev = others prev h.prev_free.0 (λ e. h.n_prev (sym e))

      at_prev : link false prev u ≡ x
      at_prev = rw same_prev h.free_chain.0

      big :
          IsChunk (u.mem x)
          × (covers (u.mem x) p + covers (chunk (s.mem x).base size) p ≡ covers (s.mem x) p)
      big =
          split_chunk size p (s.mem x) (u.mem x) h.free_chunks.0 h.some_size longer (rw at_x refl)
            (rw at_x refl)

      agree : Agree s.mem u.mem ys
      agree = Agree-of s.mem u.mem x n ys others h.free_distinct.0 h.n_free.1

  -- the state when the node `x` is taken whole
  whole_state : (prev x : ℕ) → Vasa → Vasa
  whole_state prev x s =
      write x
        (record { next = null; type = type; base = (s.mem x).base; length = size; flags = flags })
        (unlink fuel false prev x s)

  whole_Cut :
      (x prev : ℕ) (ys : List ℕ) (s : Vasa)
      → Ready fuel type size flags n p rest used prev (x ∷ ys) s
      → size ≡ (s.mem x).length
      → Cut fuel type size flags n p rest used x
          (s.mem x).base
          prev
          (x ∷ ys)
          s
          (whole_state prev x s)
  unfolding whole_state
  whole_Cut x prev ys s h same = record {
    items = ys;
    chain = rw at_prev (Chain-Agree s.mem u.mem (s.mem x).next ys agree h.free_chain.2);
    distinct = h.free_distinct.1;
    items_apart = Apart-more ys x used h.free_distinct.0 h.apart.1;
    chunks = AllChunks-Agree s.mem u.mem ys agree h.free_chunks.1;
    within = λ q a. a.1;
    covered = omega (
      arith,
      cover-Agree s.mem u.mem ys p agree,
      covers-same (chunk (s.mem x).base size) (s.mem x) p refl same,
    );
    m_next = rw at_x refl;
    m_base = rw at_x refl;
    m_length = rw at_x refl;
    m_some = h.free_chain.1;
    m_used = h.apart.0;
    m_prev = λ e. h.prev_free.0 (sym e);
    m_origin = λ q a b. b.0;
    fits = ground (arith, h.free_chunks.0.0);
    prev_base = prev_fields.0;
    prev_length = prev_fields.1;
    others = λ q a b d. others q a d.0;
    used_same = Agree-of s.mem u.mem prev x used others h.prev_used h.apart.0;
    used_head = ground arith;
    same_head = λ a. ground arith;
  }
    where
      u : Vasa
      u = whole_state prev x s

      others : (q : ℕ) → q ≢ prev → q ≢ x → u.mem q ≡ s.mem q
      others q a b = elim (Bool-cases (prev == null)) [
        | inl e ↦ rw e (ground arith)
        | inr ne ↦ rw ne (ground arith)
      ]

      some_x : prev ≢ x
      some_x = h.prev_free.0

      at_x :
          u.mem x
          ≡ record { next = null; type = type; base = (s.mem x).base; length = size; flags = flags }
      at_x = ground arith

      prev_fields :
          ((u.mem prev).base ≡ (s.mem prev).base) × ((u.mem prev).length ≡ (s.mem prev).length)
      prev_fields = (ground arith, ground arith)

      at_prev : link false prev u ≡ (s.mem x).next
      at_prev = elim (Bool-cases (prev == null)) [
        | inl e ↦ rw e (ground arith)
        | inr ne ↦ rw ne (ground arith)
      ]

      agree : Agree s.mem u.mem ys
      agree = Agree-of s.mem u.mem prev x ys others h.prev_free.1 h.free_distinct.0

  found_longer :
      (x prev : ℕ) (s : Vasa)
      → padding flags ≡ 0
      → s.supply ≡ n ∷ rest
      → ltb size (s.mem x).length ≡ true
      → alloc_found fuel type size flags prev x s
        ≡ (vasa_add_node fuel n true (split_state x s) >>= λ v. ok ((s.mem x).base, release v))
  unfolding alloc_found cut_waste take_node vasa_node_alloc split_state
  found_longer x prev s no_pad stock longer = simp (no_pad, longer, stock)

  found_whole :
      (x prev : ℕ) (s : Vasa)
      → padding flags ≡ 0
      → ltb size (s.mem x).length ≡ false
      → alloc_found fuel type size flags prev x s
        ≡ (vasa_add_node fuel x true (whole_state prev x s) >>= λ v. ok ((s.mem x).base, release v))
  unfolding alloc_found cut_waste take_node whole_state
  found_whole x prev s no_pad same = simp (no_pad, same)

  pub alloc_found-Taken :
      (x prev : ℕ) (ys : List ℕ) (s : Vasa)
      → Ready fuel type size flags n p rest used prev (x ∷ ys) s
      → leb size (s.mem x).length ≡ true
      → Returns (Taken n prev (x ∷ ys) used size p s) (alloc_found fuel type size flags prev x s)
  alloc_found-Taken x prev ys s h fits = elim (Bool-cases (ltb size (s.mem x).length)) [
    | inl longer ↦ rw (found_longer x prev s h.no_pad h.stock longer) (
        Cut-Taken fuel type size flags n p rest used n (s.mem x).base prev (x ∷ ys) s
          (split_state x s) h (split_Cut x prev ys s h (ground arith)))
    | inr same ↦ rw (found_whole x prev s h.no_pad same) (
        Cut-Taken fuel type size flags n p rest used x (s.mem x).base prev (x ∷ ys) s
          (whole_state prev x s) h (whole_Cut x prev ys s h (ground arith)))
  ]
