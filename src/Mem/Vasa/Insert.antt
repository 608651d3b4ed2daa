-- ===== src/Mem/Vasa/Insert.antt =====
-- `vasa_add_node` of kernel/mem/vasa.c: a node put into a list.
use brackos.Base.{
  ℕ, zero, suc, ◌+◌, ◌<◌, ◌≡◌, ◌≢◌, refl, sym, ap, ◌∙◌, ◌&&◌, ◌⊎◌, not, Bool, true, false, List, [],
  ◌∷◌, ltb, ◌==◌, if◌then◌else◌, Bool-cases, inl, inr, min, length, arith,
}
use brackos.Base.Outcome.{ok, Returns, returns, Returns-mono}
use brackos.Base.Word.{add32}
use brackos.Mem.Vasa.{
  VasaNode, Vasa, null, write, set_next, head_of, set_head, vasa_congruent, vasa_merge_node,
  add_loop, vasa_add_node,
}
use brackos.Mem.Vasa.Chain.{
  Chain, NotIn, Distinct, covers, cover, IsChunk, AllChunks, Agree, Agree-of, Chain-Agree,
  cover-Agree, AllChunks-Agree, merged-IsChunk, NotIn-null,
}

-- where a walk that came from `prev` stands
abbrev pub link : (used : Bool) → (prev : ℕ) → Vasa → ℕ
link used prev s = if prev == null then head_of used s else (s.mem prev).next

pub link-same :
    (used : Bool) (prev : ℕ) (s t : Vasa)
    → head_of used t ≡ head_of used s
    → (prev ≢ null → t.mem prev ≡ s.mem prev)
    → link used prev t ≡ link used prev s
link-same used prev s t head at_prev = elim (Bool-cases (prev == null)) [
  | inl e ↦ rw e head
  | inr ne ↦ rw (ne, at_prev (ground arith)) refl
]

-- What putting `node` among the nodes `xs` behind `prev` does, seen at the address `p`.
pub record Inserted (used : Bool) (node prev : ℕ) (xs : List ℕ) (p : ℕ) (s t : Vasa) : Type 0 where
  pub items : List ℕ
  pub chain : Chain t.mem (link used prev t) items
  pub distinct : Distinct items
  pub within : (q : ℕ) → NotIn q (node ∷ xs) → NotIn q items
  pub chunks : AllChunks t.mem items
  pub covered : cover t.mem items p ≡ cover s.mem xs p + covers (s.mem node) p
  pub prev_base : (t.mem prev).base ≡ (s.mem prev).base
  pub prev_length : (t.mem prev).length ≡ (s.mem prev).length
  pub outside : (q : ℕ) → q ≢ prev → NotIn q (node ∷ xs) → t.mem q ≡ s.mem q
  pub other_head : head_of (not used) t ≡ head_of (not used) s
  pub same_head : prev ≢ null → head_of used t ≡ head_of used s
  pub same_lock : t.lock ≡ s.lock
  pub same_supply : t.supply ≡ s.supply

pub covers-same :
    (a b : VasaNode) (p : ℕ) → a.base ≡ b.base → a.length ≡ b.length → covers a p ≡ covers b p
unfolding covers
covers-same a b p e0 e1 = rw (e0, e1)

-- The `next` field does not count.
pub covers-next : (n : VasaNode) (q p : ℕ) → covers (record n { next = q }) p ≡ covers n p
unfolding covers
covers-next n q p = refl

Returns-if :
    (P : Vasa → Type 0) (b : Bool) (x y : Vasa)
    → P (if b then x else y)
    → Returns P (if b then ok x else ok y)
Returns-if P true x y h = returns h
Returns-if P false x y h = returns h

module _ (used : Bool) (node p : ℕ) where
  -- at the end of the list
  end-Inserted :
      (prev : ℕ) (s : Vasa)
      → node ≢ null
      → node ≢ prev
      → IsChunk (s.mem node)
      → (prev ≢ null) ⊎ ((s.mem node).next ≡ null)
      → Inserted used node prev [] p s
          (if prev == null then set_head used node s else set_next node null (set_next prev node s))
  end-Inserted prev s h0 h1 hc ready = elim (Bool-cases (prev == null)) [
    | inl e ↦ rw e (record {
      items = node ∷ [];
      chain = (ground arith, h0, ground (arith, ready));
      distinct = (tt, tt);
      within = λ q h. h;
      chunks = (hc, tt);
      covered = omega arith;
      prev_base = refl;
      prev_length = refl;
      outside = λ q a b. refl;
      other_head = ground arith;
      same_head = λ h. absurd (h (ground arith));
      same_lock = refl;
      same_supply = refl;
    })
    | inr ne ↦ rw ne (record {
      items = node ∷ [];
      chain = (ground arith, h0, ground arith);
      distinct = (tt, tt);
      within = λ q h. h;
      chunks = (ground arith, tt);
      covered = ground (arith, covers-next (s.mem node) null p);
      prev_base = ground arith;
      prev_length = ground arith;
      outside = λ q a b. ground (arith, b.0);
      other_head = refl;
      same_head = λ h. refl;
      same_lock = refl;
      same_supply = refl;
    })
  ]

  -- in front of the nodes `xs`, if the writes are these
  linked_before :
      (prev x : ℕ) (xs : List ℕ) (s t : Vasa)
      → node ≢ null
      → NotIn node xs
      → NotIn prev xs
      → Chain s.mem x xs
      → Distinct xs
      → AllChunks s.mem xs
      → IsChunk (s.mem node)
      → t.mem node ≡ record (s.mem node) { next = x }
      → link used prev t ≡ node
      → ((q : ℕ) → q ≢ prev → q ≢ node → t.mem q ≡ s.mem q)
      → ((t.mem prev).base ≡ (s.mem prev).base) × ((t.mem prev).length ≡ (s.mem prev).length)
      → (head_of (not used) t ≡ head_of (not used) s) × (t.lock ≡ s.lock) × (t.supply ≡ s.supply)
      → (prev ≢ null → head_of used t ≡ head_of used s)
      → Inserted used node prev xs p s t
  linked_before prev x xs s t h0 hn hp c d all hc here at_node others same_prev same_state same =
      record {
        items = node ∷ xs;
        chain = (at_node, h0, rw here (Chain-Agree s.mem t.mem x xs agree c));
        distinct = (hn, d);
        within = λ q h. h;
        chunks = (rw here hc, AllChunks-Agree s.mem t.mem xs agree all);
        covered =
            rw here
              (omega (arith, cover-Agree s.mem t.mem xs p agree, covers-next (s.mem node) x p));
        prev_base = same_prev.0;
        prev_length = same_prev.1;
        outside = λ q a b. others q a b.0;
        other_head = same_state.0;
        same_head = same;
        same_lock = same_state.1;
        same_supply = same_state.2;
      }
    where
      agree : Agree s.mem t.mem xs
      agree = Agree-of s.mem t.mem prev node xs others hp hn

  before-Inserted :
      (prev x : ℕ) (xs : List ℕ) (s : Vasa)
      → node ≢ null
      → node ≢ prev
      → NotIn node xs
      → NotIn prev xs
      → Chain s.mem x xs
      → Distinct xs
      → AllChunks s.mem xs
      → IsChunk (s.mem node)
      → Inserted used node prev xs p s (
          if prev == null
          then set_head used node (set_next node x s)
          else set_next node x (set_next prev node s))
  before-Inserted prev x xs s h0 h1 hn hp c d all hc = elim (Bool-cases (prev == null)) [
    | inl e ↦ rw e (
        linked_before prev x xs s (set_head used node (set_next node x s)) h0 hn hp c d all hc
          (ground arith) (ground arith) (λ q a b. ground arith) (ground arith, ground arith)
          (ground arith, refl, refl) (λ h. absurd (h (ground arith))))
    | inr ne ↦ rw ne (
        linked_before prev x xs s (set_next node x (set_next prev node s)) h0 hn hp c d all hc
          (ground arith) (ground arith) (λ q a b. ground arith) (ground arith, ground arith)
          (ground arith, refl, refl) (λ h. refl))
  ]

  -- into the chunk `x`, which is congruent
  merge-Inserted :
      (prev x : ℕ) (xs : List ℕ) (s : Vasa)
      → NotIn node (x ∷ xs)
      → NotIn prev (x ∷ xs)
      → x ≡ link used prev s
      → Chain s.mem x (x ∷ xs)
      → Distinct (x ∷ xs)
      → AllChunks s.mem (x ∷ xs)
      → IsChunk (s.mem node)
      → vasa_congruent (s.mem node) (s.mem x) ≡ true
      → Inserted used node prev (x ∷ xs) p s (vasa_merge_node x node s)
  unfolding vasa_merge_node
  merge-Inserted prev x xs s hn hp hx c d all hc touch = record {
    items = x ∷ xs;
    chain =
        (ground (arith, hp.0), c.1, rw self (Chain-Agree s.mem t.mem (s.mem x).next xs agree c.2));
    distinct = d;
    within = λ q h. h.1;
    chunks = (rw self big.0, AllChunks-Agree s.mem t.mem xs agree all.1);
    covered = rw self (omega (arith, big.1, cover-Agree s.mem t.mem xs p agree));
    prev_base = ground (arith, hp.0);
    prev_length = ground (arith, hp.0);
    outside = λ q a b. ground (arith, b.1.0);
    other_head = refl;
    same_head = λ h. refl;
    same_lock = refl;
    same_supply = refl;
  }
    where
      t : Vasa
      t = vasa_merge_node x node s

      agree : Agree s.mem t.mem xs
      agree = Agree-of s.mem t.mem x x xs (λ q a b. ground arith) d.0 d.0

      self : (x == x) ≡ true
      self = ground arith

      merged : VasaNode
      merged = record (s.mem x) {
        base = min (s.mem x).base (s.mem node).base;
        length = add32 (s.mem x).length (s.mem node).length;
      }

      big : IsChunk merged × (covers merged p ≡ covers (s.mem x) p + covers (s.mem node) p)
      big = merged-IsChunk (s.mem x) (s.mem node) p all.0 hc touch merged refl refl

  -- behind the node `x`
  walk-Inserted :
      (prev x : ℕ) (xs : List ℕ) (s t : Vasa)
      → x ≢ null
      → NotIn node (x ∷ xs)
      → NotIn prev (x ∷ xs)
      → node ≢ prev
      → x ≡ link used prev s
      → NotIn x xs
      → AllChunks s.mem (x ∷ xs)
      → Inserted used node x xs p s t
      → Inserted used node prev (x ∷ xs) p s t
  walk-Inserted prev x xs s t hx0 hn hp hnp hx hd all h = record {
    items = x ∷ h.items;
    chain = (at_prev, hx0, rw some_x at h.chain);
    distinct = (h.within x ((λ e. hn.0 (sym e)), hd), h.distinct);
    within = λ q a. (a.1.0, h.within q (a.0, a.1.1));
    chunks = (ground (arith, h.prev_base, h.prev_length), h.chunks);
    covered = omega (arith, h.covered, covers-same (t.mem x) (s.mem x) p h.prev_base h.prev_length);
    prev_base = ap (λ n. n.base) same_prev;
    prev_length = ap (λ n. n.length) same_prev;
    outside = λ q a b. h.outside q b.1.0 (b.0, b.1.1);
    other_head = h.other_head;
    same_head = λ a. h.same_head hx0;
    same_lock = h.same_lock;
    same_supply = h.same_supply;
  }
    where
      same_prev : t.mem prev ≡ s.mem prev
      same_prev = h.outside prev hp.0 ((λ e. hnp (sym e)), hp.1)

      some_x : (x == null) ≡ false
      some_x = ground arith

      same_used : head_of used t ≡ head_of used s
      same_used = h.same_head hx0

      at_prev : link used prev t ≡ x
      at_prev = link-same used prev s t same_used (λ _. same_prev) ∙ sym hx

  add_loop-Inserted :
      (fuel prev head : ℕ) (xs : List ℕ) (s : Vasa)
      → length xs < fuel
      → node ≢ null
      → node ≢ prev
      → NotIn node xs
      → NotIn prev xs
      → head ≡ link used prev s
      → Chain s.mem head xs
      → Distinct xs
      → AllChunks s.mem xs
      → IsChunk (s.mem node)
      → (prev ≢ null) ⊎ ((xs ≢ []) ⊎ ((s.mem node).next ≡ null))
      → Returns (Inserted used node prev xs p s) (add_loop fuel node used prev head s)
  unfolding add_loop
  add_loop-Inserted zero prev head xs s hf h0 hnp hn hp hl c d all hc ready = absurd (omega arith)
  add_loop-Inserted (suc fuel) prev head [] s hf h0 hnp hn hp hl c d all hc ready =
      let none_left : (head == null) ≡ true = ground arith in
      rw none_left (
        Returns-if (Inserted used node prev [] p s) (prev == null) _ _
          (end-Inserted prev s h0 hnp hc (outer ready)))
    where
      outer :
          (prev ≢ null) ⊎ ((◌≢◌ {A = List ℕ} [] []) ⊎ ((s.mem node).next ≡ null))
          → (prev ≢ null) ⊎ ((s.mem node).next ≡ null)
      outer (inl a) = inl a
      outer (inr (inl a)) = absurd (a refl)
      outer (inr (inr b)) = inr b
  add_loop-Inserted (suc fuel) prev head (x ∷ xs) s hf h0 hnp hn hp hl c d all hc ready =
      let e : head ≡ x = c.0 in
      let some_left : (head == null) ≡ false = ground (arith, c.1) in
      rw (some_left, e)
        (elim (Bool-cases (vasa_congruent (s.mem node) (s.mem x) && not used)) [
          | inl touch ↦ rw touch (
              returns
                (merge-Inserted prev x xs s hn hp (sym e ∙ hl) (rw e at c) d all hc (ground arith)))
          | inr apart ↦ elim (Bool-cases (ltb (s.mem node).base (s.mem x).base)) [
            | inl below ↦
                rw (apart, below)
                  (Returns-if (Inserted used node prev (x ∷ xs) p s) (prev == null) _ _
                    (before-Inserted prev x (x ∷ xs) s h0 hnp hn hp (rw e at c) d all hc))
            | inr above ↦
                rw (apart, above)
                  (Returns-mono
                    (λ t. walk-Inserted prev x xs s t c.1 hn hp hnp (sym e ∙ hl) d.0 all)
                    (add_loop-Inserted fuel x (s.mem x).next xs s (omega arith) h0 hn.0 hn.1 d.0
                      (behind (ground (arith, c.1))) c.2 d.1 all.1 hc (inl c.1)))
          ]
        ])
    where
      behind : (x == null) ≡ false → (s.mem x).next ≡ link used x s
      behind f = rw f

-- `vasa_add_node` of a chunk into a list that does not hold it, with fuel for the list, returns. The
-- node goes among the list's nodes, or is merged into one of them; at every address the list then
-- covers what it and the chunk covered, and no other node and not the other list is written. The
-- list must not be empty, unless the node's `next` is NULL already.
pub vasa_add_node-Inserted :
    (fuel node : ℕ) (used : Bool) (p : ℕ) (xs : List ℕ) (s : Vasa)
    → length xs < fuel
    → node ≢ null
    → NotIn node xs
    → Chain s.mem (head_of used s) xs
    → Distinct xs
    → AllChunks s.mem xs
    → IsChunk (s.mem node)
    → (xs ≢ []) ⊎ ((s.mem node).next ≡ null)
    → Returns (Inserted used node null xs p s) (vasa_add_node fuel node used s)
unfolding vasa_add_node covers
vasa_add_node-Inserted fuel node true p xs s hf h0 hn c d all hc ready =
    let some_node : (node == null) ≡ false = ground arith in
    rw some_node (
      add_loop-Inserted true node p fuel null s.used_head xs s hf h0 h0 hn
        (NotIn-null s.mem s.used_head xs c) refl c d all hc (inr ready))
vasa_add_node-Inserted fuel node false p xs s hf h0 hn c d all hc ready =
    let some_node : (node == null) ≡ false = ground arith in
    rw some_node (
      Returns-mono uncleared (
        add_loop-Inserted false node p fuel null s.free_head xs cleared hf h0 h0 hn
          (NotIn-null s.mem s.free_head xs c) refl
          (Chain-Agree s.mem cleared.mem s.free_head xs agree c) d
          (AllChunks-Agree s.mem cleared.mem xs agree all) (rw (self) hc) (inr (next_of ready))))
  where
    self : (node == node) ≡ true
    self = ground arith

    cleared : Vasa
    cleared = write node (record (s.mem node) { flags = 0 }) s

    agree : Agree s.mem cleared.mem xs
    agree = Agree-of s.mem cleared.mem node node xs (λ q a b. ground arith) hn hn

    next_of : (xs ≢ []) ⊎ ((s.mem node).next ≡ null) → (xs ≢ []) ⊎ ((cleared.mem node).next ≡ null)
    next_of (inl a) = inl a
    next_of (inr e) = inr (rw self e)

    uncleared :
        (t : Vasa) → Inserted false node null xs p cleared t → Inserted false node null xs p s t
    uncleared t h = record {
      items = h.items;
      chain = h.chain;
      distinct = h.distinct;
      within = h.within;
      chunks = h.chunks;
      covered = h.covered ∙ rw (cover-Agree s.mem cleared.mem xs p agree, self);
      prev_base = h.prev_base ∙ ground arith;
      prev_length = h.prev_length ∙ ground arith;
      outside = λ q a b. h.outside q a b ∙ ground (arith, b.0);
      other_head = h.other_head;
      same_head = h.same_head;
      same_lock = h.same_lock;
      same_supply = h.same_supply;
    }
