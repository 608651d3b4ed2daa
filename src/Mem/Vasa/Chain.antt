-- ===== src/Mem/Vasa/Chain.antt =====
-- The lists of kernel/mem/vasa.c as sequences of addresses, and what their chunks cover.
use brackos.Base.{
  ℕ, ◌+◌, ◌^◌, ◌<◌, ◌≡◌, ◌≢◌, refl, sym, ◌∙◌, ◌&&◌, true, List, [], ◌∷◌, leb, ltb, ◌==◌,
  if◌then◌else◌, min, arith,
}
pub use brackos.Base.{NotIn, Distinct}
use brackos.Base.Word.{add32}
use brackos.Mem.Vasa.{VasaNode, Vasa, null, vasa_congruent}

abbrev pub Mem : Type 0
Mem = ℕ → VasaNode

abbrev pub put : Mem → ℕ → VasaNode → Mem
put m p n = λ q. if q == p then n else m q

-- From `p` the `next` pointers lead through the nodes `xs` to NULL.
abbrev pub Chain : Mem → ℕ → List ℕ → Type 0
Chain m p [] = p ≡ null
Chain m p (x ∷ xs) = (p ≡ x) × (x ≢ null) × Chain m (m x).next xs

-- 1 if the address `p` lies in the chunk
unfoldable pub covers : VasaNode → (p : ℕ) → ℕ
covers n p = if leb n.base p && ltb p (n.base + n.length) then 1 else 0

-- the number of nodes whose chunks hold `p`
abbrev pub cover : Mem → List ℕ → (p : ℕ) → ℕ
cover m [] p = 0
cover m (x ∷ xs) p = covers (m x) p + cover m xs p

-- No chunk runs past the end of the address space, and none is empty.
abbrev pub IsChunk : VasaNode → Type 0
IsChunk n = (n.base + n.length < 2 ^ 32) × (0 < n.length)

abbrev pub AllChunks : Mem → List ℕ → Type 0
AllChunks m [] = Unit
AllChunks m (x ∷ xs) = IsChunk (m x) × AllChunks m xs

-- the same nodes at the addresses of a list
abbrev pub Agree : (m m' : Mem) → List ℕ → Type 0
Agree m m' [] = Unit
Agree m m' (x ∷ xs) = (m' x ≡ m x) × Agree m m' xs

pub Agree-of :
    (m m' : Mem) (a b : ℕ) (xs : List ℕ)
    → ((q : ℕ) → q ≢ a → q ≢ b → m' q ≡ m q)
    → NotIn a xs
    → NotIn b xs
    → Agree m m' xs
Agree-of m m' a b [] f ha hb = tt
Agree-of m m' a b (x ∷ xs) f ha hb =
    (f x (λ e. ha.0 (sym e)) (λ e. hb.0 (sym e)), Agree-of m m' a b xs f ha.1 hb.1)

pub Chain-Agree : (m m' : Mem) (p : ℕ) (xs : List ℕ) → Agree m m' xs → Chain m p xs → Chain m' p xs
Chain-Agree m m' p [] g c = c
Chain-Agree m m' p (x ∷ xs) g c = (c.0, c.1, rw (g.0) (Chain-Agree m m' (m x).next xs g.1 c.2))

pub cover-Agree : (m m' : Mem) (xs : List ℕ) (p : ℕ) → Agree m m' xs → cover m' xs p ≡ cover m xs p
cover-Agree m m' [] p g = refl
cover-Agree m m' (x ∷ xs) p g = rw (g.0, cover-Agree m m' xs p g.1)

pub AllChunks-Agree : (m m' : Mem) (xs : List ℕ) → Agree m m' xs → AllChunks m xs → AllChunks m' xs
AllChunks-Agree m m' [] g c = tt
AllChunks-Agree m m' (x ∷ xs) g c = (rw (g.0) (c.0), AllChunks-Agree m m' xs g.1 c.1)

pub NotIn-null : (m : Mem) (p : ℕ) (xs : List ℕ) → Chain m p xs → NotIn null xs
NotIn-null m p [] c = tt
NotIn-null m p (x ∷ xs) c = (λ e. c.1 (sym e), NotIn-null m (m x).next xs c.2)

-- What `vasa_merge_node` makes of two congruent chunks covers what they covered.
pub merged-IsChunk :
    (a b : VasaNode) (p : ℕ)
    → IsChunk a
    → IsChunk b
    → vasa_congruent b a ≡ true
    → (n : VasaNode) → n.base ≡ min a.base b.base
    → n.length ≡ add32 a.length b.length
    → IsChunk n × (covers n p ≡ covers a p + covers b p)
unfolding covers vasa_congruent
merged-IsChunk a b p ha hb h n e0 e1 = ground arith

abbrev pub Apart : List ℕ → List ℕ → Type 0
Apart [] ys = Unit
Apart (x ∷ xs) ys = NotIn x ys × Apart xs ys

pub Agree-Apart :
    (m m' : Mem) (xs ys : List ℕ)
    → ((q : ℕ) → q ≢ null → NotIn q ys → m' q ≡ m q)
    → NotIn null xs
    → Apart xs ys
    → Agree m m' xs
Agree-Apart m m' [] ys f h a = tt
Agree-Apart m m' (x ∷ xs) ys f h a = (f x (λ e. h.0 (sym e)) a.0, Agree-Apart m m' xs ys f h.1 a.1)

pub Apart-within :
    (xs ys zs : List ℕ) → ((q : ℕ) → NotIn q ys → NotIn q zs) → Apart xs ys → Apart xs zs
Apart-within [] ys zs f a = tt
Apart-within (x ∷ xs) ys zs f a = (f x a.0, Apart-within xs ys zs f a.1)

pub Apart-more : (xs : List ℕ) (m : ℕ) (ys : List ℕ) → NotIn m xs → Apart xs ys → Apart xs (m ∷ ys)
Apart-more [] m ys h a = tt
Apart-more (x ∷ xs) m ys h a = (((λ e. h.0 (sym e)), a.0), Apart-more xs m ys h.1 a.1)

pub Apart-sym : (xs ys : List ℕ) → Apart xs ys → Apart ys xs
Apart-sym [] ys a = nothing ys
  where
    nothing : (ys : List ℕ) → Apart ys []
    nothing [] = tt
    nothing (y ∷ ys) = (tt, nothing ys)
Apart-sym (x ∷ xs) ys a = Apart-more ys x xs a.0 (Apart-sym xs ys a.1)

pub Agree-trans : (m m' m'' : Mem) (xs : List ℕ) → Agree m m' xs → Agree m' m'' xs → Agree m m'' xs
Agree-trans m m' m'' [] f g = tt
Agree-trans m m' m'' (x ∷ xs) f g = (g.0 ∙ f.0, Agree-trans m m' m'' xs f.1 g.1)

-- The two lists of the allocator: chains of distinct nodes that share none, each with a chunk.
pub record IsValid (s : Vasa) (free used : List ℕ) : Type 0 where
  pub free_chain : Chain s.mem s.free_head free
  pub used_chain : Chain s.mem s.used_head used
  pub free_distinct : Distinct free
  pub used_distinct : Distinct used
  pub apart : Apart free used
  pub free_chunks : AllChunks s.mem free
  pub used_chunks : AllChunks s.mem used
