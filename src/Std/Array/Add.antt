-- ===== src/Std/Array/Add.antt =====
-- `list_add` and `list_find` of std/list.c.
use brackos.Base.{
  ℕ, zero, suc, ◌+◌, ◌/◌, ◌^◌, ◌≤◌, ◌<◌, ◌≡◌, refl, ◌∙◌, true, false, some, List, [], ◌∷◌, ◌++◌,
  ltb, length, take, set, length-append, arith, ◌⊎◌, Bool-cases, inl, inr,
}
use brackos.Base.Outcome.{ok, fault}
use brackos.Base.Word.{add32}
use brackos.Mem.Slub.{kmalloc_block_for_size, block_for}
use brackos.Std.Array.{Array, words_of, resize, store, list_add}

-- The array has the pointers `xs`, and `count` is as `list_init` left it.
pub record Holds (l : Array) (xs : List ℕ) : Type 0 where
  pub start : take (length xs) (words_of l.block) ≡ xs
  pub filled : l.index ≡ length xs
  pub uncounted : l.count ≡ 0

length-resize : (fresh : ℕ → ℕ) (n i : ℕ) (ws : List ℕ) → length (resize fresh n i ws) ≡ n
unfolding resize
length-resize fresh zero i ws = refl
length-resize fresh (suc n) i [] = let h = length-resize fresh n (i + 1) [] in omega arith
length-resize fresh (suc n) i (w ∷ ws) = let h = length-resize fresh n (i + 1) ws in omega arith

take-resize :
    (fresh : ℕ → ℕ) (n i : ℕ) (ws xs : List ℕ)
    → length xs ≤ n
    → take (length xs) ws ≡ xs
    → take (length xs) (resize fresh n i ws) ≡ xs
unfolding resize
take-resize fresh n i ws [] h e = refl
take-resize fresh zero i ws (x ∷ xs) h e = absurd (omega arith)
take-resize fresh (suc n) i [] (x ∷ xs) h e = absurd cc
take-resize fresh (suc n) i (w ∷ ws) (x ∷ xs) h e =
    let behind : take (length xs) ws ≡ xs = cc in
    let head : w ≡ x = cc in
    let rest = take-resize fresh n (i + 1) ws xs (omega arith) behind in rw (head, rest) refl

take-set :
    (ws xs : List ℕ) (d : ℕ)
    → length xs < length ws
    → take (length xs) ws ≡ xs
    → take (length (xs ++ (d ∷ []))) (set ws (length xs) d) ≡ xs ++ (d ∷ [])
take-set [] xs d h e = absurd (omega arith)
take-set (w ∷ ws) [] d h e = refl
take-set (w ∷ ws) (x ∷ xs) d h e =
    let behind : take (length xs) ws ≡ xs = cc in
    let head : w ≡ x = cc in
    let rest = take-set ws xs d (omega arith) behind in rw (head, rest) refl

store-Holds :
    (value : ℕ) (l : Array) (xs : List ℕ)
    → Holds l xs
    → length xs < length (words_of l.block)
    → length xs < 2 ^ 31
    → (t : Array) × (store value l ≡ ok t) × Holds t (xs ++ (value ∷ []))
unfolding store
store-Holds value l xs h room small =
    let inside : ltb l.index (length (words_of l.block)) ≡ true = ground (arith, h.filled) in
    (
      record l { block = some (set (words_of l.block) l.index value); index = add32 l.index 1 },
      rw inside refl,
      record {
        start = rw (h.filled) (take-set (words_of l.block) xs value room h.start);
        filled = ground (arith, h.filled, length-append xs (value ∷ []));
        uncounted = h.uncounted;
      },
    )

store-fault : (value : ℕ) (l : Array) → length (words_of l.block) ≤ l.index → store value l ≡ fault
unfolding store
store-fault value l h =
    let outside : ltb l.index (length (words_of l.block)) ≡ false = ground arith in rw outside refl

block_of_32 : kmalloc_block_for_size 32 / 4 ≡ 16
unfolding kmalloc_block_for_size block_for
block_of_32 = refl

-- `list_add` on a list of fewer than sixteen pointers, with memory, puts the pointer behind them. From
-- sixteen pointers on it writes past its block: it asks for 32 bytes each time, and has 64.
pub list_add-Holds :
    (fresh : ℕ → ℕ) (value : ℕ) (xs : List ℕ) (l : Array)
    → Holds l xs
    → length xs < 2 ^ 31
    → ((length xs < 16)
        × (t : Array) × (list_add fresh true value l ≡ ok t)
        × Holds t (xs ++ (value ∷ [])))
      ⊎ ((16 ≤ length xs) × (list_add fresh true value l ≡ fault))
unfolding list_add
list_add-Holds fresh value xs l h small = elim (Bool-cases (ltb (length xs) 16)) [
  | inl e ↦
      let few : length xs < 16 = ground arith in
      let (t, e, held) =
        store-Holds value grown xs (grown-Holds few) (omega (arith, sixteen)) small in
      inl (few, t, added ∙ e, held)
  | inr ne ↦
      let many : 16 ≤ length xs = ground arith in
      inr (many, added ∙ store-fault value grown (omega (arith, sixteen, h.filled)))
]
  where
    grown : Array
    grown = record l { block = some (resize fresh 16 0 (words_of l.block)) }

    sixteen : length (resize fresh 16 0 (words_of l.block)) ≡ 16
    sixteen = length-resize fresh 16 0 (words_of l.block)

    added : list_add fresh true value l ≡ store value grown
    added =
        let more : ltb 0 (add32 l.index 1) ≡ true = ground (arith, h.filled) in
        rw (h.uncounted, more, block_of_32) refl

    grown-Holds : length xs < 16 → Holds grown xs
    grown-Holds few = record {
      start = take-resize fresh 16 0 (words_of l.block) xs (omega arith) h.start;
      filled = h.filled;
      uncounted = h.uncounted;
    }
