-- ===== src/Fs/Open.antt =====
-- kernel/fs/vfs.c: `vfs_open` of a path that leads to no file, with `O_WRT`.
use mathlib.Core.Path.{subst}
use brackos.Base.{
  ℕ, suc, ◌<◌, ◌≡◌, ◌≢◌, refl, sym, ◌∙◌, true, false, ◌||◌, Option, none, some, List, [], ◌∷◌, Bool,
  ◌==◌, length, NotIn, arith,
}
use brackos.Base.Outcome.{Outcome, ok, ◌>>=◌, Returns, Returns-mono, Returns-bind, Returns-ok}
use brackos.Base.Word.{has_bit}
use brackos.Std.Array.Add.{Holds}
use brackos.Fs.{File, Files, null, slash, wrt, rd, no_path}
use brackos.Fs.Tree.{Resolved, file_resolve}
use brackos.Fs.Vfs.{create, open_flags, vfs_open}
use brackos.Fs.Parts.{IsPart, NoneNamed}
use brackos.Fs.Fid.{CanRef, file_ref_new-links}
use brackos.Fs.Reopen.{RootHas, Made, missing-root, found-again, create-Made}

-- what `vfs_open` does with the answer of `create`
abbrev opened : (fresh : ℕ → ℕ) → (flags : ℕ) → Option ℕ × Files → Outcome (ℕ × Files)
opened fresh flags made = elim made.0 [
  | none ↦ ok (null, made.1)
  | some file ↦ open_flags fresh true flags file made.1
]

or_true : (b : Bool) → (b || true) ≡ true
or_true true = refl
or_true false = refl

opened-links :
    (fresh : ℕ → ℕ) (flags file ref pair : ℕ) (ps ws : List ℕ) (made : Option ℕ × Files)
    → has_bit flags wrt ≡ true
    → made.0 ≡ some file
    → CanRef ref pair ps ws made.1.kernel
    → ref ≢ null
    → pair ≢ null
    → length ws < 16
    → Returns
        (λ r. (r.0 ≡ ref) × ((r.1.refs ref).file ≡ file) × (r.1.files ≡ made.1.files))
        (opened fresh flags made)
unfolding open_flags
opened-links fresh flags file ref pair ps ws made w m c n p l =
    rw (m, w, or_true (has_bit flags rd))
      (file_ref_new-links fresh file flags made.1 ref pair ps ws c n p l)

made-opened :
    (rounds fuel fs flags : ℕ) (fresh : ℕ → ℕ) (path : List ℕ) (s : Files) (r : Resolved)
    → r.prev_file ≢ null
    → r.found ≡ null
    → has_bit flags wrt ≡ true
    → file_resolve rounds fuel (s.roots fs) path no_path s.files ≡ ok r
    → vfs_open rounds fuel fresh true fs path flags s ≡ (create fs r s >>= opened fresh flags)
unfolding vfs_open
made-opened rounds fuel fs flags fresh path s r p f w run =
    let z : (r.prev_file == null) ≡ false = ground arith in
    let y : (r.found == null) ≡ true = ground arith in rw (run, z, y, w) refl

-- `vfs_open` with `O_WRT` of a path of one part that no file in the root directory has for its name, with
-- memory for a node, the file `file`, a reference and its pair, and fewer than 16 references of the
-- running task: it answers the reference, which is to the new file, and behind that the same path
-- leads to this file, in the root directory.
pub vfs_open-creates :
    (s : Files) (fs fuel rounds flags node file ref pair : ℕ) (fresh : ℕ → ℕ)
    (ps last xs ws : List ℕ)
    → RootHas s.files (s.roots fs) xs
    → IsPart last × (last ≢ [])
    → NoneNamed s.files last xs
    → suc (length xs) < fuel
    → has_bit flags wrt ≡ true
    → s.kernel.blocks ≡ node ∷ (file ∷ (ref ∷ (pair ∷ ps)))
    → node ≢ null
    → file ≢ null
    → ref ≢ null
    → pair ≢ null
    → NotIn file (s.roots fs ∷ xs)
    → s.kernel.current ≢ null
    → Holds (s.kernel.heap s.kernel.current).pairs ws
    → length ws < 16
    → Returns
        (λ t.
          (t.0 ≡ ref)
          × ((t.1.refs ref).file ≡ file)
          × Returns
              (λ r. (r.found ≡ file) × (r.prev_file ≡ s.roots fs))
              (file_resolve (suc (suc rounds)) fuel (s.roots fs) (slash ∷ last) no_path t.1.files))
        (vfs_open (suc (suc rounds)) fuel fresh true fs (slash ∷ last) flags s)
vfs_open-creates s fs fuel rounds flags node file ref pair fresh ps last xs ws h a unnamed l w b n m
      rn pn out c held few =
    let (r, run, q) = Returns-ok (
      missing-root s.files fuel rounds (s.roots fs) last xs h a unnamed (omega arith)
        (omega arith)) in
    let there : r.prev_file ≢ null = λ e. h.root_file (sym q.2 ∙ e) in
    rw (made-opened (suc (suc rounds)) fuel fs flags fresh (slash ∷ last) s r there q.0 w run) (
      Returns-bind
        (create-Made s r fs node file (ref ∷ (pair ∷ ps)) last b n m there (λ e. out.0 (e ∙ q.2))
          a.0 q.1)
        λ made k.
          Returns-mono
            (λ t z. (
              z.0,
              z.1,
              found-again s.files t.1.files fuel rounds (s.roots fs) file last xs h
                  (subst (λ (g : ℕ → File). Made s.files g (s.roots fs) file last) (sym z.2)
                    (subst (λ (x : ℕ). Made s.files made.1.files x file last) q.2 k.1))
                  a m out.0 out.1 l,
            ))
            (opened-links fresh flags file ref pair ps ws made w k.0
              (subst (CanRef ref pair ps ws) (sym k.2) (refl, c, held)) rn pn few))
