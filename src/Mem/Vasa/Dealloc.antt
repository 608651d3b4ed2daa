-- ===== src/Mem/Vasa/Dealloc.antt =====
-- `vasa_dealloc` of kernel/mem/vasa.c: a node goes from the used list into the free list.
use brackos.Base.{
  ℕ, zero, suc, ◌+◌, ◌<◌, ◌≡◌, ◌≢◌, refl, sym, ap, ◌∙◌, ◌&&◌, ◌⊎◌, Bool, true, false, List, [], ◌∷◌,
  ◌++◌, leb, ◌==◌, Bool-cases, inl, inr, length, arith,
}
use brackos.Base.Outcome.{ok, ◌>>=◌, Returns, returns, Returns-ok, Returns-mono, Returns-bind}
use brackos.Base.Word.{add32}
use brackos.Mem.Vasa.{
  VasaNode, Vasa, null, acquire, release, unlink, vasa_add_node, dealloc_loop, vasa_dealloc,
}
use brackos.Mem.Vasa.Chain.{
  Mem, Chain, NotIn, Distinct, covers, cover, AllChunks, Agree, Agree-of, Chain-Agree, cover-Agree,
  AllChunks-Agree, NotIn-null, Apart, Apart-more, Apart-sym, Agree-Apart, Apart-within, IsValid,
  Agree-trans,
}
use brackos.Mem.Vasa.Insert.{link-same, covers-same, Inserted, link, vasa_add_node-Inserted}

-- the test of `vasa_dealloc`, both ends of the chunk included
abbrev pub is_at : (ptr : ℕ) → VasaNode → Bool
is_at ptr n = leb n.base ptr && leb ptr (add32 n.base n.length)

abbrev pub NoneAt : Mem → (ptr : ℕ) → List ℕ → Type 0
NoneAt m ptr [] = Unit
NoneAt m ptr (x ∷ xs) = (is_at ptr (m x) ≡ false) × NoneAt m ptr xs

-- What giving back the chunk at `ptr`, of the used nodes `xs` behind `prev`, does, seen at the
-- address `p`.
record Freed (ptr prev : ℕ) (xs free : List ℕ) (p : ℕ) (s t : Vasa) : Type 0 where
  front : List ℕ
  node : ℕ
  back : List ℕ
  splits : xs ≡ front ++ (node ∷ back)
  front_away : NoneAt s.mem ptr front
  node_at : is_at ptr (s.mem node) ≡ true
  free_items : List ℕ
  used_items : List ℕ
  used_same : used_items ≡ front ++ back
  free_chain : Chain t.mem t.free_head free_items
  used_chain : Chain t.mem (link true prev t) used_items
  free_distinct : Distinct free_items
  used_distinct : Distinct used_items
  apart : Apart used_items free_items
  free_chunks : AllChunks t.mem free_items
  used_chunks : AllChunks t.mem used_items
  free_within : (q : ℕ) → NotIn q xs → NotIn q free → NotIn q free_items
  used_within : (q : ℕ) → NotIn q xs → NotIn q used_items
  free_covered : cover t.mem free_items p ≡ cover s.mem free p + covers (s.mem node) p
  used_covered : cover t.mem used_items p + covers (s.mem node) p ≡ cover s.mem xs p
  prev_base : prev ≢ null → (t.mem prev).base ≡ (s.mem prev).base
  prev_length : prev ≢ null → (t.mem prev).length ≡ (s.mem prev).length
  outside : (q : ℕ) → q ≢ null → q ≢ prev → NotIn q xs → NotIn q free → t.mem q ≡ s.mem q
  same_head : prev ≢ null → t.used_head ≡ s.used_head
  unlocked : t.lock ≡ false

module _ (fuel ptr p : ℕ) (free : List ℕ) where
  -- What `vasa_dealloc` asks of the state, with the walk behind `prev`.
  record Ready (prev : ℕ) (xs : List ℕ) (s : Vasa) : Type 0 where
    some_free : free ≢ []
    enough : length free < fuel
    prev_used : NotIn prev xs
    prev_free : NotIn prev free
    free_chain : Chain s.mem s.free_head free
    used_chain : Chain s.mem (link true prev s) xs
    free_distinct : Distinct free
    used_distinct : Distinct xs
    apart : Apart xs free
    free_chunks : AllChunks s.mem free
    used_chunks : AllChunks s.mem xs

  found-Freed :
      (prev x : ℕ) (ys : List ℕ) (s : Vasa)
      → Ready prev (x ∷ ys) s
      → is_at ptr (s.mem x) ≡ true
      → Returns
          (Freed ptr prev (x ∷ ys) free p s)
          (vasa_add_node fuel x false (unlink fuel true prev x s) >>= λ t. ok (release t))
  found-Freed prev x ys s h here =
      Returns-bind
        (vasa_add_node-Inserted fuel x false p free u h.enough h.used_chain.1 h.apart.0
          (rw same_free (Chain-Agree s.mem u.mem s.free_head free agree_free h.free_chain))
          h.free_distinct (AllChunks-Agree s.mem u.mem free agree_free h.free_chunks)
          (rw at_x h.used_chunks.0) (inl h.some_free))
        λ t i. returns (freed t i)
    where
      u : Vasa
      u = unlink fuel true prev x s

      others : (q : ℕ) → q ≢ prev → u.mem q ≡ s.mem q
      others q a = elim (Bool-cases (prev == null)) [
        | inl e ↦ rw e refl
        | inr ne ↦ rw ne (ground arith)
      ]

      at_x : u.mem x ≡ s.mem x
      at_x = others x (λ e. h.prev_used.0 (sym e))

      same_free : u.free_head ≡ s.free_head
      same_free = ground arith

      agree_free : Agree s.mem u.mem free
      agree_free = Agree-of s.mem u.mem prev prev free (λ q a b. others q a) h.prev_free h.prev_free

      agree_used : Agree s.mem u.mem ys
      agree_used =
          Agree-of s.mem u.mem prev prev ys (λ q a b. others q a) h.prev_used.1 h.prev_used.1

      prev_fields :
          ((u.mem prev).base ≡ (s.mem prev).base) × ((u.mem prev).length ≡ (s.mem prev).length)
      prev_fields = (ground arith, ground arith)

      at_prev : link true prev u ≡ (s.mem x).next
      at_prev = elim (Bool-cases (prev == null)) [
        | inl e ↦ rw e (ground arith)
        | inr ne ↦ rw ne (ground arith)
      ]

      freed :
          (t : Vasa)
          → Inserted false x null free p u t
          → Freed ptr prev (x ∷ ys) free p s (release t)
      freed t i = record {
        front = [];
        node = x;
        back = ys;
        splits = refl;
        front_away = tt;
        node_at = here;
        free_items = i.items;
        used_items = ys;
        used_same = refl;
        free_chain = i.chain;
        used_chain =
            rw (link_t ∙ at_prev) (Chain-Agree s.mem t.mem (s.mem x).next ys agree h.used_chain.2);
        free_distinct = i.distinct;
        used_distinct = h.used_distinct.1;
        apart = Apart-within ys (x ∷ free) i.items i.within apart;
        free_chunks = i.chunks;
        used_chunks = AllChunks-Agree s.mem t.mem ys agree h.used_chunks.1;
        free_within = λ q a b. i.within q (a.0, b);
        used_within = λ q a. a.1;
        free_covered = i.covered ∙ rw (cover-Agree s.mem u.mem free p agree_free, at_x) refl;
        used_covered = omega (arith, cover-Agree s.mem t.mem ys p agree);
        prev_base = λ a. ap (λ k. k.base) (same_prev a) ∙ prev_fields.0;
        prev_length = λ a. ap (λ k. k.length) (same_prev a) ∙ prev_fields.1;
        outside = λ q z a b d. i.outside q z (b.0, d) ∙ others q a;
        same_head = λ a. i.other_head ∙ ground arith;
        unlocked = refl;
      }
        where
          apart : Apart ys (x ∷ free)
          apart = Apart-more ys x free h.used_distinct.0 h.apart.1

          agree' : Agree u.mem t.mem ys
          agree' =
              Agree-Apart u.mem t.mem ys (x ∷ free) i.outside
                (NotIn-null s.mem (s.mem x).next ys h.used_chain.2) apart

          agree : Agree s.mem t.mem ys
          agree = Agree-trans s.mem u.mem t.mem ys agree_used agree'

          same_prev : prev ≢ null → t.mem prev ≡ u.mem prev
          same_prev a = i.outside prev a (h.prev_used.0, h.prev_free)

          link_t : link true prev t ≡ link true prev u
          link_t = link-same true prev u t i.other_head same_prev

  -- behind the node `x`, whose chunk does not hold `ptr`
  walk-Freed :
      (prev x : ℕ) (ys : List ℕ) (s t : Vasa)
      → Ready prev (x ∷ ys) s
      → is_at ptr (s.mem x) ≡ false
      → Freed ptr x ys free p s t
      → Freed ptr prev (x ∷ ys) free p s t
  walk-Freed prev x ys s t h away f = record {
    front = x ∷ f.front;
    node = f.node;
    back = f.back;
    splits = ap (λ l. x ∷ l) f.splits;
    front_away = (away, f.front_away);
    node_at = f.node_at;
    free_items = f.free_items;
    used_items = x ∷ f.used_items;
    used_same = ap (λ l. x ∷ l) f.used_same;
    free_chain = f.free_chain;
    used_chain = (at_prev, some_x, rw some_x' at f.used_chain);
    free_distinct = f.free_distinct;
    used_distinct = (f.used_within x h.used_distinct.0, f.used_distinct);
    apart = (f.free_within x h.used_distinct.0 h.apart.0, f.apart);
    free_chunks = f.free_chunks;
    used_chunks = (rw (f.prev_base some_x, f.prev_length some_x) h.used_chunks.0, f.used_chunks);
    free_within = λ q a b. f.free_within q a.1 b;
    used_within = λ q a. (a.0, f.used_within q a.1);
    free_covered = f.free_covered;
    used_covered = omega (
      arith,
      f.used_covered,
      covers-same (t.mem x) (s.mem x) p (f.prev_base some_x) (f.prev_length some_x),
    );
    prev_base = λ a. ap (λ k. k.base) (same_prev a);
    prev_length = λ a. ap (λ k. k.length) (same_prev a);
    outside = λ q z a b d. f.outside q z b.0 b.1 d;
    same_head = λ a. f.same_head some_x;
    unlocked = f.unlocked;
  }
    where
      some_x : x ≢ null
      some_x = h.used_chain.1

      some_x' : (x == null) ≡ false
      some_x' = ground arith

      same_prev : prev ≢ null → t.mem prev ≡ s.mem prev
      same_prev a = f.outside prev a h.prev_used.0 h.prev_used.1 h.prev_free

      at_prev : link true prev t ≡ x
      at_prev = link-same true prev s t (f.same_head some_x) same_prev ∙ h.used_chain.0

  walk-Ready : (prev x : ℕ) (ys : List ℕ) (s : Vasa) → Ready prev (x ∷ ys) s → Ready x ys s
  walk-Ready prev x ys s h = record {
    some_free = h.some_free;
    enough = h.enough;
    prev_used = h.used_distinct.0;
    prev_free = h.apart.0;
    free_chain = h.free_chain;
    used_chain = rw some_x h.used_chain.2;
    free_distinct = h.free_distinct;
    used_distinct = h.used_distinct.1;
    apart = h.apart.1;
    free_chunks = h.free_chunks;
    used_chunks = h.used_chunks.1;
  }
    where
      some_x : (x == null) ≡ false
      some_x = ground (arith, h.used_chain.1)

  Answered : (prev : ℕ) → List ℕ → (s t : Vasa) → Type 0
  Answered prev xs s t = (NoneAt s.mem ptr xs × (t ≡ release s)) ⊎ Freed ptr prev xs free p s t

  walk-Answered :
      (prev x : ℕ) (ys : List ℕ) (s t : Vasa)
      → Ready prev (x ∷ ys) s
      → is_at ptr (s.mem x) ≡ false
      → Answered x ys s t
      → Answered prev (x ∷ ys) s t
  unfolding Answered
  walk-Answered prev x ys s t h away (inl a) = inl ((away, a.0), a.1)
  walk-Answered prev x ys s t h away (inr f) = inr (walk-Freed prev x ys s t h away f)

  dealloc_loop-Answered :
      (k prev head : ℕ) (xs : List ℕ) (s : Vasa)
      → length xs < k
      → head ≡ link true prev s
      → Ready prev xs s
      → Returns (Answered prev xs s) (dealloc_loop fuel k ptr prev head s)
  unfolding dealloc_loop Answered
  dealloc_loop-Answered zero prev head xs s hk e h = absurd (omega arith)
  dealloc_loop-Answered (suc k) prev head [] s hk e h =
      let none_left : (head == null) ≡ true = ground (arith, e ∙ h.used_chain) in
      rw none_left (returns (inl (tt, refl)))
  dealloc_loop-Answered (suc k) prev head (x ∷ ys) s hk e h =
      let here : head ≡ x = e ∙ h.used_chain.0 in
      let some_left : (head == null) ≡ false = ground (arith, h.used_chain.1) in
      let some_x : (x == null) ≡ false = ground (arith, h.used_chain.1) in
      rw (some_left, here)
        (elim (Bool-cases (is_at ptr (s.mem x))) [
          | inl held ↦ rw held (Returns-mono (λ t f. inr f) (found-Freed prev x ys s h held))
          | inr away ↦ rw away (
              Returns-mono (λ t. walk-Answered prev x ys s t h away)
                (dealloc_loop-Answered k x (s.mem x).next ys s (omega arith) (rw some_x refl)
                  (walk-Ready prev x ys s h)))
        ])

-- What `vasa_dealloc` needs besides valid lists: the lock is free, the walks have fuel, and the free
-- list is not empty.
pub record CanDealloc (fuel : ℕ) (free used : List ℕ) (s : Vasa) : Type 0 where
  pub valid : IsValid s free used
  pub unlocked : s.lock ≡ false
  pub some_free : free ≢ []
  pub free_fuel : length free < fuel
  pub used_fuel : length used < fuel

-- What `vasa_dealloc` leaves, seen at the address `p`.
abbrev pub Deallocated : (ptr p : ℕ) → (free used : List ℕ) → (s t : Vasa) → Type 0
Deallocated ptr p free used s t =
    (NoneAt s.mem ptr used × (t ≡ s))
    ⊎ ((front : List ℕ) × (x : ℕ) × (back : List ℕ) × (free' : List ℕ) × (used
          ≡ front ++ (x ∷ back))
        × NoneAt s.mem ptr front
        × (is_at ptr (s.mem x) ≡ true)
        × IsValid t free' (front ++ back)
        × (t.lock ≡ false)
        × (cover t.mem free' p ≡ cover s.mem free p + covers (s.mem x) p)
        × (cover t.mem (front ++ back) p + covers (s.mem x) p ≡ cover s.mem used p))

locked_first :
    (fuel ptr : ℕ) (s : Vasa)
    → s.lock ≡ false
    → vasa_dealloc fuel ptr s
      ≡ dealloc_loop fuel fuel ptr null s.used_head (record s { lock = true })
unfolding vasa_dealloc acquire
locked_first fuel ptr s free = simp free

-- `vasa_dealloc` on valid lists, of which the free one is not empty, with the lock free, returns. Either no
-- used chunk has the pointer in it or at its end, and the state is as it was; or the first used node
-- whose chunk does is taken out of the used list, the other nodes stay in it in their order, the
-- lists are valid again and the lock is free, and at every address the used list has lost, and the
-- free list has gained, just the chunk of this node.
pub vasa_dealloc-Deallocated :
    (fuel ptr p : ℕ) (free used : List ℕ) (s : Vasa)
    → CanDealloc fuel free used s
    → (t : Vasa) × (vasa_dealloc fuel ptr s ≡ ok t) × Deallocated ptr p free used s t
unfolding Answered
vasa_dealloc-Deallocated fuel ptr p free used s h = rw (locked_first fuel ptr s h.unlocked) (
    Returns-ok (
      Returns-mono answer (
        dealloc_loop-Answered fuel ptr p free fuel null s.used_head used locked h.used_fuel refl
          ready)))
  where
    locked : Vasa
    locked = record s { lock = true }

    v : IsValid s free used
    v = h.valid

    ready : Ready fuel ptr p free null used locked
    ready = record {
      some_free = h.some_free;
      enough = h.free_fuel;
      prev_used = NotIn-null s.mem s.used_head used v.used_chain;
      prev_free = NotIn-null s.mem s.free_head free v.free_chain;
      free_chain = v.free_chain;
      used_chain = v.used_chain;
      free_distinct = v.free_distinct;
      used_distinct = v.used_distinct;
      apart = Apart-sym free used v.apart;
      free_chunks = v.free_chunks;
      used_chunks = v.used_chunks;
    }

    restored : record s { lock = false } ≡ s
    restored = rw⁻¹ h.unlocked refl

    left_valid :
        (t : Vasa) (f : Freed ptr null used free p locked t) → IsValid t f.free_items f.used_items
    left_valid t f = record {
      free_chain = f.free_chain;
      used_chain = f.used_chain;
      free_distinct = f.free_distinct;
      used_distinct = f.used_distinct;
      apart = Apart-sym f.used_items f.free_items f.apart;
      free_chunks = f.free_chunks;
      used_chunks = f.used_chunks;
    }

    answer :
        (t : Vasa) → Answered fuel ptr p free null used locked t → Deallocated ptr p free used s t
    answer t (inl (a, e)) = inl (a, e ∙ restored)
    answer t (inr f) = inr (
      f.front,
      f.node,
      f.back,
      f.free_items,
      f.splits,
      f.front_away,
      f.node_at,
      rw f.used_same at (left_valid t f),
      f.unlocked,
      f.free_covered,
      rw f.used_same at f.used_covered,
    )
