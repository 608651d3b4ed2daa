-- ===== src/Fs/Fid.antt =====
-- kernel/fs/ref.c: the file ids of a task.
use brackos.Base.{
  ℕ, suc, ◌+◌, ◌-◌, ◌≤◌, ◌<◌, ◌^◌, ◌≡◌, ◌≢◌, refl, ap, ◌∙◌, ◌⊎◌, true, false, some, List, [], ◌∷◌,
  ◌++◌, ◌==◌, inl, inr, length, take, set, get_or, arith,
}
use brackos.Base.Outcome.{ok, fault, ◌>>=◌, Returns, returns}
use brackos.Std.Array.{Array, list_add, low_bytes, words_of}
use brackos.Std.Array.Add.{Holds, list_add-Holds}
use brackos.Std.Array.Rem.{list_rem-mixes}
use brackos.Tasks.{Task, Kernel}
use brackos.Fs.{Files, FileRefPair, null}
use brackos.Fs.Ref.{file_ref_new, add_ref, take_fid, link_ref, find_fid, file_ref_close}

-- pairs at which there is something, and of which none has the fid
abbrev pub NoFid : (ℕ → FileRefPair) → (fid : ℕ) → List ℕ → Type 0
NoFid pairs fid [] = Unit
NoFid pairs fid (w ∷ ws) = (w ≢ null) × ((pairs w).fid ≢ fid) × NoFid pairs fid ws

-- The first pair with the fid stands behind `ws`.
pub find_fid-behind :
    (fid i p more : ℕ) (ws bs : List ℕ) (pairs : ℕ → FileRefPair)
    → take (suc (length ws)) bs ≡ ws ++ (p ∷ [])
    → NoFid pairs fid ws
    → p ≢ null
    → (pairs p).fid ≡ fid
    → find_fid (suc (length ws + more)) i fid bs pairs ≡ ok (some (i + length ws, p))
unfolding find_fid
find_fid-behind fid i p more [] [] pairs e n a f = absurd cc
find_fid-behind fid i p more [] (b ∷ bs) pairs e n a f =
    let h : b ≡ p = cc in
    let z : (b == null) ≡ false = ground arith in
    let k : ((pairs b).fid == fid) ≡ true = rw h (ground arith) in
    rw (z, k, h) (ap (λ (j : ℕ). ok (some (j, p))) (omega arith))
find_fid-behind fid i p more (w ∷ ws) [] pairs e n a f = absurd cc
find_fid-behind fid i p more (w ∷ ws) (b ∷ bs) pairs e n a f =
    let h : b ≡ w = cc in
    let t : take (suc (length ws)) bs ≡ ws ++ (p ∷ []) = cc in
    let z : (b == null) ≡ false = ground (arith, n.0) in
    let k : ((pairs b).fid == fid) ≡ false = rw h (ground (arith, n.1)) in
    let c : suc (length ws) + more ≡ suc (length ws + more) = omega arith in
    rw (c, z, k)
      (find_fid-behind fid (i + 1) p more ws bs pairs t n.2 a f
        ∙ ap (λ (j : ℕ). ok (some (j, p))) (omega arith))

-- a state with the next blocks of memory
abbrev with_blocks : List ℕ → Files → Files
with_blocks ps s = record s { kernel = record s.kernel { blocks = ps } }

new-added :
    (fresh : ℕ → ℕ) (file flags : ℕ) (s : Files) (ref : ℕ) (ps : List ℕ)
    → s.kernel.blocks ≡ ref ∷ ps
    → ref ≢ null
    → s.kernel.current ≢ null
    → file_ref_new fresh true file flags s
      ≡ add_ref fresh true file flags ref (s.kernel.heap s.kernel.current) (with_blocks ps s)
unfolding file_ref_new
new-added fresh file flags s ref ps b n c =
    let x : (ref == null) ≡ false = ground arith in
    let y : (s.kernel.current == null) ≡ false = ground arith in rw (b, x, y) refl

-- the state in front of the new reference
abbrev ahead : Task → List ℕ → Files → Files
ahead t ps s = with_blocks ps (take_fid t s)

added-linked :
    (fresh : ℕ → ℕ) (file flags ref : ℕ) (t : Task) (s : Files) (pair : ℕ) (ps : List ℕ)
    → s.kernel.blocks ≡ pair ∷ ps
    → pair ≢ null
    → add_ref fresh true file flags ref t s ≡ (
        list_add fresh true pair t.pairs >>= λ pairs.
        ok (ref, link_ref file flags t.max_fid ref pair pairs (ahead t ps s)))
unfolding add_ref take_fid
added-linked fresh file flags ref t s pair ps b n =
    let x : (pair == null) ≡ false = ground arith in rw (b, x) refl

-- the memory for a reference and its pair, and the pairs of the running task
abbrev pub CanRef : (ref pair : ℕ) → (ps ws : List ℕ) → Kernel → Type 0
CanRef ref pair ps ws k =
    (k.blocks ≡ ref ∷ (pair ∷ ps)) × (k.current ≢ null) × Holds (k.heap k.current).pairs ws

pub file_ref_new-links :
    (fresh : ℕ → ℕ) (file flags : ℕ) (s : Files) (ref pair : ℕ) (ps ws : List ℕ)
    → CanRef ref pair ps ws s.kernel
    → ref ≢ null
    → pair ≢ null
    → length ws < 16
    → Returns
        (λ (r : ℕ × Files). (r.0 ≡ ref) × ((r.1.refs ref).file ≡ file) × (r.1.files ≡ s.files))
        (file_ref_new fresh true file flags s)
unfolding link_ref take_fid
file_ref_new-links fresh file flags s ref pair ps ws h n p l =
    rw run (go (list_add-Holds fresh pair ws task.pairs h.2 (omega arith)))
  where
    task : Task
    task = s.kernel.heap s.kernel.current

    run : file_ref_new fresh true file flags s ≡ (
        list_add fresh true pair task.pairs >>= λ pairs. ok (
          ref,
          link_ref file flags task.max_fid ref pair pairs
              (ahead task ps (with_blocks (pair ∷ ps) s)),
        ))
    run =
        new-added fresh file flags s ref (pair ∷ ps) h.0 n h.1
        ∙ added-linked fresh file flags ref task (with_blocks (pair ∷ ps) s) pair ps refl p

    go :
        ((length ws < 16)
            × (t : Array) × (list_add fresh true pair task.pairs ≡ ok t)
            × Holds t (ws ++ (pair ∷ [])))
          ⊎ ((16 ≤ length ws) × (list_add fresh true pair task.pairs ≡ fault))
        → Returns
            (λ (r : ℕ × Files). (r.0 ≡ ref) × ((r.1.refs ref).file ≡ file) × (r.1.files ≡ s.files))
            (list_add fresh true pair task.pairs >>= λ pairs. ok (
              ref,
              link_ref file flags task.max_fid ref pair pairs
                  (ahead task ps (with_blocks (pair ∷ ps) s)),
            ))
    go (inr (m, e)) = absurd (omega arith)
    go (inl (m, t, e, k)) = rw e (returns (refl, ground arith, refl))

-- `file_ref_close` of a reference of the running task whose pair `p` has at most three pairs behind it: the
-- place of `p` gets the low bytes of the next pair's address, as many as there are pairs behind, and
-- the list loses its last pair. So it closes the newest reference, and from an older one it leaves the
-- address of nothing in its place and forgets the newest.
pub file_ref_close-mixes :
    (s : Files) (ref p more : ℕ) (us ws : List ℕ)
    → s.kernel.current ≢ null
    → (s.refs ref).task ≡ s.kernel.current
    → (s.kernel.heap s.kernel.current).pairs.block ≡ some ws
    → (s.kernel.heap s.kernel.current).pairs.index ≡ suc (length us + more)
    → more < 4
    → suc (length us + more) ≤ length ws
    → length ws < 2 ^ 29
    → take (suc (length us)) ws ≡ us ++ (p ∷ [])
    → NoFid s.pairs (s.refs ref).fid us
    → p ≢ null
    → (s.pairs p).fid ≡ (s.refs ref).fid
    → Returns
        (λ t.
          ((t.kernel.heap s.kernel.current).pairs.block
            ≡ some (
                set ws
                  (length us)
                  (low_bytes more (get_or ws (length us) 0) (get_or ws (suc (length us)) 0))))
          × ((t.kernel.heap s.kernel.current).pairs.index ≡ length us + more))
        (file_ref_close ref s)
unfolding file_ref_close
file_ref_close-mixes s ref p more us ws c own b i m fits small e n a f =
    let z : (s.kernel.current == null) ≡ false = ground arith in
    let same : (s.kernel.current == s.kernel.current) ≡ true = ground arith in
    let l = (s.kernel.heap s.kernel.current).pairs in
    let found = find_fid-behind (s.refs ref).fid 0 p more us ws s.pairs e n a f in
    let at : find_fid l.index 0 (s.refs ref).fid (words_of l.block) s.pairs
        ≡ ok (some (length us, p)) =
      rw (i, b) (found ∙ ap (λ (j : ℕ). ok (some (j, p))) (omega arith)) in
    let k : l.index - length us - 1 ≡ more = omega (arith, i) in
    let back : l.index - 1 ≡ length us + more = omega (arith, i) in
    let cut =
      list_rem-mixes (length us) ws l b (omega (arith, i)) (omega (arith, i)) (omega (arith, i))
        (omega (arith, i)) in
    rw (z, at, own, z, cut) (returns (rw (same, k) refl, rw same back))
