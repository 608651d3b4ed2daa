-- ===== src/Fs/Create.antt =====
-- kernel/fs/file.c and vfs.c: what a path leads to, and under which name a new file is made.
use brackos.Base.{
  ℕ, ◌≤◌, ◌<◌, ◌≡◌, ◌≢◌, refl, ◌⊎◌, true, false, List, [], ◌∷◌, ◌++◌, ◌==◌, Bool-cases, inl, inr,
  length, drop, replicate, same_name, arith,
}
use brackos.Base.Outcome.{Returns, returns}
use brackos.Fs.{File, null, no_path, text_of}
use brackos.Fs.Tree.{file_resolve}
use brackos.Fs.Parts.{Friends, FirstNamed, NoneNamed, AllChars, join, AllParts, text_of-written}
use brackos.Fs.Walk.{Goes, Goes-AtLast, last-found, last-missing, last-empty}

pub named :
    (h : ℕ → File) (name : List ℕ) (xs : List ℕ)
    → ((q : ℕ) × FirstNamed h name xs q) ⊎ NoneNamed h name xs
named h name [] = inr tt
named h name (x ∷ xs) = go (Bool-cases (same_name (h x).name name)) (named h name xs)
  where
    go :
        (same_name (h x).name name ≡ true) ⊎ (same_name (h x).name name ≡ false)
        → ((q : ℕ) × FirstNamed h name xs q) ⊎ NoneNamed h name xs
        → ((q : ℕ) × FirstNamed h name (x ∷ xs) q) ⊎ NoneNamed h name (x ∷ xs)
    go (inl e) r = inl (x, inl (e, refl))
    go (inr e) (inl (q, f)) = inl (q, inr (e, f))
    go (inr e) (inr n) = inr (e, n)

-- On a path whose parts but the last name files, each in the directory of the file before, and whose
-- last directory is not empty: `file_resolve` finds the first file of that directory with the last
-- part for its name; if there is none it answers NULL and leaves the last part in `last_file`. Either way
-- it leaves the file of the last directory in `prev_file`.
pub file_resolve-named :
    (h : ℕ → File) (fuel rounds p dir prev_dir : ℕ) (name before last : List ℕ)
    (names : List (List ℕ)) (xs : List ℕ)
    → Goes h fuel p p [] name names dir prev_dir before last
    → AllParts name names
    → length names < rounds
    → dir ≢ null
    → Friends h dir xs
    → length xs < fuel
    → ((q : ℕ) × FirstNamed h last xs q
        × (q ≢ null)
        × Returns
            (λ r. (r.found ≡ q) × (r.prev_file ≡ prev_dir))
            (file_resolve rounds fuel p (join name names) no_path h))
      ⊎ (NoneNamed h last xs
          × Returns
              (λ r. (r.found ≡ null) × (text_of r.last_file ≡ last) × (r.prev_file ≡ prev_dir))
              (file_resolve rounds fuel p (join name names) no_path h))
unfolding file_resolve
file_resolve-named h fuel rounds p dir prev_dir name before last names xs g a l n c e =
    let w = Goes-AtLast h fuel p p [] name names rounds (replicate 127 0) g a tt (omega arith) l in
    let buffer = (before ++ (0 ∷ [])) ++ w.rest in
    elim (named h last xs) [
      | inl (q, f) ↦
          let found =
            last-found h fuel w.rounds dir prev_dir q last buffer xs w.part w.size c f e in
          inl (q, f, found.1, rw (w.comes, found.0) (returns (refl, refl)))
      | inr f ↦
          let missing =
            last-missing h fuel w.rounds dir prev_dir last buffer xs w.part w.size n c f e in
          inr (
            f,
            rw (w.comes, missing)
                (returns (
                  refl,
                  text_of-written last (drop (length (last ++ (0 ∷ []))) buffer) w.part.0.0,
                  refl,
                )),
          )
    ]

text_of-over :
    (last before rest : List ℕ)
    → AllChars last
    → AllChars before
    → length last ≤ length before
    → text_of (last ++ drop (length last) ((before ++ (0 ∷ [])) ++ rest))
      ≡ last ++ drop (length last) before
unfolding text_of
text_of-over [] before rest a b l = text_of-written before rest b
text_of-over (c ∷ cs) [] rest a b l = absurd (omega arith)
text_of-over (c ∷ cs) (d ∷ ds) rest a b l =
    let z : (c == 0) ≡ false = ground (arith, a.0) in
    rw (z, text_of-over cs ds rest a.2 b.2 (omega arith)) refl

-- On such a path into an empty directory, with a last part that is not longer than the part before
-- it, `file_resolve` leaves the last part written over the part before it: the name under which
-- `vfs_open` then makes the file.
pub file_resolve-overlays :
    (h : ℕ → File) (fuel rounds p prev_dir : ℕ) (name before last : List ℕ) (names : List (List ℕ))
    → Goes h fuel p p [] name names null prev_dir before last
    → AllParts name names
    → length names < rounds
    → length last ≤ length before
    → Returns
        (λ r.
          (r.found ≡ null)
          × (r.prev_file ≡ prev_dir)
          × (text_of r.last_file ≡ last ++ drop (length last) before))
        (file_resolve rounds fuel p (join name names) no_path h)
unfolding file_resolve
file_resolve-overlays h fuel rounds p prev_dir name before last names g a l s =
    let w = Goes-AtLast h fuel p p [] name names rounds (replicate 127 0) g a tt (omega arith) l in
    let buffer = (before ++ (0 ∷ [])) ++ w.rest in
    rw (w.comes, last-empty h fuel w.rounds prev_dir last buffer w.part w.size)
      (returns (refl, refl, text_of-over last before w.rest w.part.0.0 w.chars s))
