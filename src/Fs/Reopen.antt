-- ===== src/Fs/Reopen.antt =====
-- kernel/fs/vfs.c: what `create` makes in the root directory is found there afterwards.
use brackos.Base.{
  ℕ, zero, suc, ◌<◌, ◌≡◌, ◌≢◌, refl, sym, ap, ◌∙◌, ◌⊎◌, true, false, some, List, [], ◌∷◌, ◌++◌, leb,
  ◌==◌, Bool-cases, inl, inr, length, drop, replicate, same_name, same_name_refl, NotIn, arith,
}
use brackos.Base.Outcome.{Returns, returns, Returns-mono, Returns-bind}
use brackos.Fs.{File, Files, null, max_path, slash, no_path, text_of, put_file}
use brackos.Fs.Tree.{Resolved, no_file, file_resolve, file_alloc, file_add_child}
use brackos.Fs.Vfs.{create, has_slash}
use brackos.Fs.Parts.{
  Friends, FirstNamed, NoneNamed, AllChars, IsPart, written, text_of-written, find_friend-first,
  comp_of-part, rest_of-part,
}
use brackos.Fs.Walk.{down, stop, if_empty-nonempty, part-round, last-missing, last-empty}
use brackos.Fs.Create.{file_resolve-named}

-- The root directory's file `root` and the files `xs` in it, none of which has the name.
pub record RootHas (h : ℕ → File) (root : ℕ) (xs : List ℕ) : Type 0 where
  pub root_file : root ≢ null
  pub unnamed : (h root).name ≡ []
  pub alone : (h root).next ≡ null
  pub files : Friends h (h root).child xs

text_of-chars : (last : List ℕ) → AllChars last → text_of (last ++ []) ≡ last
unfolding text_of
text_of-chars [] a = refl
text_of-chars (c ∷ cs) a =
    let z : (c == 0) ≡ false = ground (arith, a.0) in rw (z, text_of-chars cs a.2) refl

zeros-over :
    (n : ℕ) (last : List ℕ)
    → AllChars last
    → text_of (last ++ drop (length last) (replicate n 0)) ≡ last
unfolding text_of
zeros-over zero [] a = refl
zeros-over (suc n) [] a = refl
zeros-over zero (c ∷ cs) a =
    let z : (c == 0) ≡ false = ground (arith, a.0) in rw (z, text_of-chars cs a.2) refl
zeros-over (suc n) (c ∷ cs) a =
    let z : (c == 0) ≡ false = ground (arith, a.0) in rw (z, zeros-over n cs a.2) refl

has_slash-part : (last : List ℕ) → AllChars last → has_slash last ≡ false
has_slash-part [] a = refl
has_slash-part (c ∷ cs) a =
    let z : (c == slash) ≡ false = ground (arith, a.1) in rw (z, has_slash-part cs a.2) refl

module _ (h : ℕ → File) (fuel rounds root : ℕ) (last : List ℕ) (xs : List ℕ) where
  pub missing-root :
      RootHas h root xs
      → IsPart last × (last ≢ [])
      → NoneNamed h last xs
      → length xs < fuel
      → 1 < fuel
      → Returns
          (λ r. (r.found ≡ null) × (text_of r.last_file ≡ last) × (r.prev_file ≡ root))
          (file_resolve (suc (suc rounds)) fuel root (slash ∷ last) no_path h)
  unfolding file_resolve
  missing-root r a n l m =
      let same : same_name (h root).name [] ≡ true = rw (r.unnamed) refl in
      let chain : Friends h root (root ∷ []) = (refl, r.root_file, r.alone) in
      let found =
        find_friend-first fuel root [] h (root ∷ []) root chain (inl (same, refl)) (omega arith) in
      let z : (root == null) ≡ false = ground (arith, r.root_file) in
      rw
        (
          part-round h fuel (suc rounds) root root root [] (slash ∷ last) no_path
              (λ e. absurd (let f = ap length e in omega (arith, f))) r.root_file
              (comp_of-part [] last tt) (tt, omega arith) (omega arith) found.0,
          z,
          rest_of-part [] last tt,
          if_empty-nonempty last _ _ a.1,
        )
        (elim (Bool-cases ((h root).child == null)) [
          | inl e ↦
              let c : (h root).child ≡ null = ground arith in
              rw (c, last-empty h fuel rounds root last (written [] no_path) a (omega arith))
                (returns (refl, zeros-over 128 last a.0.0, refl))
          | inr e ↦
              rw
                (last-missing h fuel rounds (h root).child root last (written [] no_path) xs a
                  (omega arith) (ground arith) r.files n l)
                (returns (
                  refl,
                  text_of-written last (drop (length (last ++ (0 ∷ []))) (written [] no_path))
                      a.0.0,
                  refl,
                ))
        ])

-- the heap behind `create`
pub record Made (h g : ℕ → File) (root file : ℕ) (last : List ℕ) : Type 0 where
  name : (g file).name ≡ last
  next : (g file).next ≡ (h root).child
  first : (g root).child ≡ file
  others : (x : ℕ) → x ≢ file → (g x).next ≡ (h x).next
  names : (x : ℕ) → x ≢ file → (g x).name ≡ (h x).name

Friends-off :
    (h g : ℕ → File) (file p : ℕ) (xs : List ℕ)
    → ((x : ℕ) → x ≢ file → (g x).next ≡ (h x).next)
    → NotIn file xs
    → Friends h p xs
    → Friends g p xs
Friends-off h g file p [] f n c = c
Friends-off h g file p (x ∷ xs) f n c =
    (c.0, c.1, rw (f x (λ e. n.0 (sym e))) (Friends-off h g file (h x).next xs f n.1 c.2))

pub found-again :
    (h g : ℕ → File) (fuel rounds root file : ℕ) (last : List ℕ) (xs : List ℕ)
    → RootHas h root xs
    → Made h g root file last
    → IsPart last × (last ≢ [])
    → file ≢ null
    → file ≢ root
    → NotIn file xs
    → suc (length xs) < fuel
    → Returns
        (λ r. (r.found ≡ file) × (r.prev_file ≡ root))
        (file_resolve (suc (suc rounds)) fuel root (slash ∷ last) no_path g)
found-again h g fuel rounds root file last xs r m a n d out l = go (
    file_resolve-named g fuel (suc (suc rounds)) root (g root).child root [] [] last (last ∷ [])
      (file ∷ xs)
      (down (root ∷ []) (refl, r.root_file, m.others root (λ e. d (sym e)) ∙ r.alone)
        (inl (rw (m.names root (λ e. d (sym e)), r.unnamed) refl, refl)) (omega arith) stop)
      ((tt, omega arith), a) (omega arith) (λ e. n (sym m.first ∙ e))
      (m.first, n, rw (m.next) (Friends-off h g file (h root).child xs m.others out r.files))
      (omega arith))
  where
    same : same_name (g file).name last ≡ true
    same = rw (m.name) (same_name_refl last)

    go :
        ((q : ℕ) × FirstNamed g last (file ∷ xs) q
            × (q ≢ null)
            × Returns
                (λ r. (r.found ≡ q) × (r.prev_file ≡ root))
                (file_resolve (suc (suc rounds)) fuel root (slash ∷ last) no_path g))
          ⊎ (NoneNamed g last (file ∷ xs)
              × Returns
                  (λ r. (r.found ≡ null) × (text_of r.last_file ≡ last) × (r.prev_file ≡ root))
                  (file_resolve (suc (suc rounds)) fuel root (slash ∷ last) no_path g))
        → Returns
            (λ r. (r.found ≡ file) × (r.prev_file ≡ root))
            (file_resolve (suc (suc rounds)) fuel root (slash ∷ last) no_path g)
    go (inl (q, (inl f), z, t)) = Returns-mono (λ r w. (w.0 ∙ f.1, w.1)) t
    go (inl (q, (inr f), z, t)) = absurd (let e : true ≡ false = sym same ∙ f.0 in cc)
    go (inr (f, t)) = absurd (let e : true ≡ false = sym same ∙ f.0 in cc)

-- `file_add_child` of a new file to the root directory, whether it is empty or not
add_child-Made :
    (h : ℕ → File) (root file fs node : ℕ) (last : List ℕ)
    → root ≢ null
    → file ≢ null
    → file ≢ root
    → Returns
        (λ g. Made h g root file last)
        (file_add_child root file
          (put_file file (record no_file { fs = fs; name = last; node = node }) h))
unfolding file_add_child
add_child-Made h root file fs node last n m d =
    let o : (root == file) ≡ false = ground arith in
    let z : (file == null) ≡ false = ground arith in
    rw o (elim (Bool-cases ((h root).child == null)) [
      | inl e ↦ rw e (
          returns record {
            name = ground arith;
            next = ground arith;
            first = ground arith;
            others = λ x k. ground arith;
            names = λ x k. ground arith;
          })
      | inr e ↦
          rw (e, z)
            (returns record {
              name = ground arith;
              next = ground arith;
              first = ground arith;
              others = λ x k. ground arith;
              names = λ x k. ground arith;
            })
    ])

pub create-Made :
    (s : Files) (r : Resolved) (fs node file : ℕ) (ps : List ℕ) (last : List ℕ)
    → s.kernel.blocks ≡ node ∷ (file ∷ ps)
    → node ≢ null
    → file ≢ null
    → r.prev_file ≢ null
    → file ≢ r.prev_file
    → IsPart last
    → text_of r.last_file ≡ last
    → Returns
        (λ made.
          (made.0 ≡ some file)
          × Made s.files made.1.files r.prev_file file last
          × (made.1.kernel ≡ record s.kernel { blocks = ps }))
        (create fs r s)
unfolding create file_alloc
create-Made s r fs node file ps last b n m p d a t =
    let u : (node == null) ≡ false = ground arith in
    let v : (file == null) ≡ false = ground arith in
    let w : leb max_path (length last) ≡ false = ground (arith, a.1) in
    rw (b, t, has_slash-part last a.0, w, u, v)
      (Returns-bind (add_child-Made s.files r.prev_file file fs node last p m d)
        λ g k. returns (refl, k, refl))
