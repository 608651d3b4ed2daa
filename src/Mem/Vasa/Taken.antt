-- ===== src/Mem/Vasa/Taken.antt =====
-- `vasa_alloc` of kernel/mem/vasa.c: the chunk is out of the free list and goes into the used list.
use brackos.Base.{
  ℕ, ◌+◌, ◌^◌, ◌<◌, ◌≡◌, ◌≢◌, refl, sym, ap, ◌∙◌, true, false, List, [], ◌∷◌, inr, length,
}
use brackos.Base.Outcome.{ok, ◌>>=◌, Returns, returns, Returns-bind}
use brackos.Mem.Vasa.{VasaNode, Vasa, null, release, padding, vasa_add_node}
use brackos.Mem.Vasa.Chain.{
  Agree-Apart, Apart-within, Mem, Chain, NotIn, Distinct, covers, cover, AllChunks, Agree,
  Chain-Agree, cover-Agree, AllChunks-Agree, NotIn-null, Apart,
}
use brackos.Mem.Vasa.Insert.{link-same, Inserted, link, vasa_add_node-Inserted, covers-same}

-- the chunk that is handed out
abbrev pub chunk : (ptr size : ℕ) → VasaNode
chunk ptr size = record { next = 0; type = 0; base = ptr; length = size; flags = 0 }

-- What taking `size` bytes from the free nodes `xs` behind `prev` does, seen at the address `p`;
-- `n` is the node that the supply holds ready.
pub record Taken (n prev : ℕ) (xs used : List ℕ) (size p : ℕ) (s : Vasa) (r : ℕ × Vasa)
    : Type 0 where
  pub free_items : List ℕ
  pub used_items : List ℕ
  pub free_chain : Chain r.1.mem (link false prev r.1) free_items
  pub used_chain : Chain r.1.mem r.1.used_head used_items
  pub free_distinct : Distinct free_items
  pub used_distinct : Distinct used_items
  pub apart : Apart free_items used_items
  pub free_chunks : AllChunks r.1.mem free_items
  pub used_chunks : AllChunks r.1.mem used_items
  pub free_within : (q : ℕ) → NotIn q xs → NotIn q free_items
  pub used_within : (q : ℕ) → q ≢ n → NotIn q xs → NotIn q used → NotIn q used_items
  pub free_covered : cover r.1.mem free_items p + covers (chunk r.0 size) p ≡ cover s.mem xs p
  pub used_covered : cover r.1.mem used_items p ≡ cover s.mem used p + covers (chunk r.0 size) p
  pub prev_base : prev ≢ null → (r.1.mem prev).base ≡ (s.mem prev).base
  pub prev_length : prev ≢ null → (r.1.mem prev).length ≡ (s.mem prev).length
  pub outside :
      (q : ℕ) → q ≢ null → q ≢ prev → q ≢ n → NotIn q xs → NotIn q used → r.1.mem q ≡ s.mem q
  pub same_head : prev ≢ null → r.1.free_head ≡ s.free_head
  pub unlocked : r.1.lock ≡ false

-- No free node is long enough.
abbrev pub NoneFits : Mem → (size : ℕ) → List ℕ → Type 0
NoneFits m size [] = Unit
NoneFits m size (x ∷ xs) = ((m x).length < size) × NoneFits m size xs

module _ (fuel type size flags n p : ℕ) (rest used : List ℕ) where
  -- What `vasa_alloc` asks of the state, with the walk behind `prev`.
  pub record Ready (prev : ℕ) (xs : List ℕ) (s : Vasa) : Type 0 where
    pub no_pad : padding flags ≡ 0
    pub some_size : 0 < size
    pub small : size < 2 ^ 32
    pub enough : length used < fuel
    pub stock : s.supply ≡ n ∷ rest
    pub n_some : n ≢ null
    pub n_free : NotIn n xs
    pub n_used : NotIn n used
    pub n_prev : n ≢ prev
    pub prev_free : NotIn prev xs
    pub prev_used : NotIn prev used
    pub free_chain : Chain s.mem (link false prev s) xs
    pub used_chain : Chain s.mem s.used_head used
    pub free_distinct : Distinct xs
    pub used_distinct : Distinct used
    pub apart : Apart xs used
    pub free_chunks : AllChunks s.mem xs
    pub used_chunks : AllChunks s.mem used

  -- The state `u` in which the free list has given up the chunk at `ptr` and the node `m` holds it.
  pub record Cut (m ptr prev : ℕ) (xs : List ℕ) (s u : Vasa) : Type 0 where
    pub items : List ℕ
    pub chain : Chain u.mem (link false prev u) items
    pub distinct : Distinct items
    pub items_apart : Apart items (m ∷ used)
    pub chunks : AllChunks u.mem items
    pub within : (q : ℕ) → NotIn q xs → NotIn q items
    pub covered : cover u.mem items p + covers (chunk ptr size) p ≡ cover s.mem xs p
    pub m_next : (u.mem m).next ≡ null
    pub m_base : (u.mem m).base ≡ ptr
    pub m_length : (u.mem m).length ≡ size
    pub m_some : m ≢ null
    pub m_used : NotIn m used
    pub m_prev : m ≢ prev
    pub m_origin : (q : ℕ) → q ≢ n → NotIn q xs → q ≢ m
    pub fits : ptr + size < 2 ^ 32
    pub prev_base : (u.mem prev).base ≡ (s.mem prev).base
    pub prev_length : (u.mem prev).length ≡ (s.mem prev).length
    pub others : (q : ℕ) → q ≢ prev → q ≢ n → NotIn q xs → u.mem q ≡ s.mem q
    pub used_same : Agree s.mem u.mem used
    pub used_head : u.used_head ≡ s.used_head
    pub same_head : prev ≢ null → u.free_head ≡ s.free_head

  pub Cut-Taken :
      (m ptr prev : ℕ) (xs : List ℕ) (s u : Vasa)
      → Ready prev xs s
      → Cut m ptr prev xs s u
      → Returns
          (Taken n prev xs used size p s)
          (vasa_add_node fuel m true u >>= λ v. ok (ptr, release v))
  Cut-Taken m ptr prev xs s u h c =
      Returns-bind
        (vasa_add_node-Inserted fuel m true p used u h.enough c.m_some c.m_used
          (rw c.used_head (Chain-Agree s.mem u.mem s.used_head used c.used_same h.used_chain))
          h.used_distinct (AllChunks-Agree s.mem u.mem used c.used_same h.used_chunks)
          (rw (c.m_base, c.m_length) (c.fits, h.some_size)) (inr c.m_next))
        λ v i. returns (taken v i)
    where
      taken :
          (v : Vasa)
          → Inserted true m null used p u v
          → Taken n prev xs used size p s (ptr, release v)
      taken v i = record {
        free_items = c.items;
        used_items = i.items;
        free_chain = rw at_prev (Chain-Agree u.mem v.mem (link false prev u) c.items agree c.chain);
        used_chain = i.chain;
        free_distinct = c.distinct;
        used_distinct = i.distinct;
        apart = Apart-within c.items (m ∷ used) i.items i.within c.items_apart;
        free_chunks = AllChunks-Agree u.mem v.mem c.items agree c.chunks;
        used_chunks = i.chunks;
        free_within = c.within;
        used_within = λ q a b d. i.within q (c.m_origin q a b, d);
        free_covered =
            ap (λ k. k + covers (chunk ptr size) p) (cover-Agree u.mem v.mem c.items p agree)
            ∙ c.covered;
        used_covered =
            i.covered
            ∙ rw (
              cover-Agree s.mem u.mem used p c.used_same,
              covers-same (u.mem m) (chunk ptr size) p c.m_base c.m_length,
            );
        prev_base = λ a. ap (λ k. k.base) (same_prev a) ∙ c.prev_base;
        prev_length = λ a. ap (λ k. k.length) (same_prev a) ∙ c.prev_length;
        outside = λ q z a b d e. i.outside q z (c.m_origin q b d, e) ∙ c.others q a b d;
        same_head = λ a. i.other_head ∙ c.same_head a;
        unlocked = refl;
      }
        where
          agree : Agree u.mem v.mem c.items
          agree =
              Agree-Apart u.mem v.mem c.items (m ∷ used) i.outside
                (NotIn-null u.mem _ c.items c.chain) c.items_apart

          same_prev : prev ≢ null → v.mem prev ≡ u.mem prev
          same_prev a = i.outside prev a ((λ e. c.m_prev (sym e)), h.prev_used)

          at_prev : link false prev v ≡ link false prev u
          at_prev = link-same false prev u v i.other_head same_prev
