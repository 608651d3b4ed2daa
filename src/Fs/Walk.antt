-- ===== src/Fs/Walk.antt =====
-- kernel/fs/file.c: file_resolve follows a path through the tree of files.
use brackos.Base.{
  ℕ, zero, suc, ◌+◌, ◌≤◌, ◌<◌, ◌≡◌, ◌≢◌, refl, sym, ap, ◌∙◌, true, false, List, [], ◌∷◌, ◌++◌, leb,
  ◌==◌, if◌then◌else◌, length, drop, arith,
}
use brackos.Base.Outcome.{Outcome, ok}
use brackos.Fs.{File, null, max_path, write_chars, text_of}
use brackos.Fs.Tree.{Resolved, if_empty, comp_of, rest_of, find_friend, not_found, resolve_from}
use brackos.Fs.Parts.{
  Friends, FirstNamed, NoneNamed, IsPart, join, AllParts, AllChars, find_friend-first,
  find_friend-none, comp_of-part, rest_of-part, comp_of-last, rest_of-last, written,
  write_chars-part, length-written, text_of-written,
}

-- Along the parts `name`, `names` of a path from the directory `p`, each the name of a file in the
-- directory that the part before names: the last part is `last`, to be looked for in the directory `dir`
-- of the file `prev_dir`, and `before` is the part in front of it. `fuel` is for the walk through a
-- directory.
pub data Goes (h : ℕ → File) (fuel : ℕ)
    : (p prev : ℕ)
      → (old name : List ℕ) → (names : List (List ℕ)) → (dir prev_dir : ℕ) → (before last : List ℕ)
      → Type 0 where
  stop : {p prev : ℕ} {old name : List ℕ} → Goes h fuel p prev old name [] p prev old name
  down :
      {p prev d dir prev_dir : ℕ} {old name n before last : List ℕ} {ns : List (List ℕ)}
      (xs : List ℕ)
      → Friends h p xs
      → FirstNamed h name xs d
      → length xs < fuel
      → Goes h fuel (h d).child d name n ns dir prev_dir before last
      → Goes h fuel p prev old name (n ∷ ns) dir prev_dir before last

resolve-round :
    (rounds fuel file : ℕ) (path buffer new : List ℕ) (prev found : ℕ) (h : ℕ → File)
    → path ≢ []
    → file ≢ null
    → write_chars 0 (comp_of path ++ (0 ∷ [])) buffer ≡ ok new
    → find_friend fuel file (text_of new) h ≡ ok found
    → resolve_from (suc rounds) fuel file path buffer prev h ≡ (
        if found == null
        then not_found (rest_of path) new prev
        else if_empty
            (rest_of path)
            (ok record { found = found; last_file = new; prev_file = prev })
            (resolve_from rounds fuel (h found).child (rest_of path) new found h))
unfolding resolve_from
resolve-round rounds fuel file [] buffer new prev found h n m w f = absurd (n refl)
resolve-round rounds fuel file (c ∷ cs) buffer new prev found h n m w f =
    let z : (file == null) ≡ false = ground arith in rw (z, w, f) refl

join-nonempty : (name : List ℕ) (names : List (List ℕ)) → AllParts name names → join name names ≢ []
join-nonempty name [] a = a.1
join-nonempty [] (n ∷ ns) a = λ e. absurd (let f = ap length e in omega (arith, f))
join-nonempty (c ∷ cs) (n ∷ ns) a = λ e. absurd (let f = ap length e in omega (arith, f))

pub if_empty-nonempty : {A : Type 0} (path : List ℕ) (x y : A) → path ≢ [] → if_empty path x y ≡ y
if_empty-nonempty [] x y n = absurd (n refl)
if_empty-nonempty (c ∷ cs) x y n = refl

first-nonnull :
    (h : ℕ → File) (p : ℕ) (name : List ℕ) (xs : List ℕ) (q : ℕ)
    → Friends h p xs
    → FirstNamed h name xs q
    → p ≢ null
first-nonnull h p name [] q c f = absurd f
first-nonnull h p name (x ∷ xs) q c f = λ e. c.1 (sym c.0 ∙ e)

not_found-over :
    (path buffer : List ℕ) (prev : ℕ)
    → length path ≤ length buffer
    → not_found path buffer prev
      ≡ ok record { found = null; last_file = path ++ drop (length path) buffer; prev_file = prev }
unfolding not_found write_chars
not_found-over path buffer prev l =
    let z : 0 + length path ≡ length path = omega arith in
    let e : leb (length path) (length buffer) ≡ true = ground arith in rw (z, e) refl

module _ (h : ℕ → File) (fuel : ℕ) where
  -- A round of `file_resolve` at the directory `p`, of which the part names `found`, or nothing.
  pub part-round :
      (rounds p prev found : ℕ) (name path buffer : List ℕ)
      → path ≢ []
      → p ≢ null
      → comp_of path ≡ name
      → IsPart name
      → length buffer ≡ max_path
      → find_friend fuel p name h ≡ ok found
      → resolve_from (suc rounds) fuel p path buffer prev h ≡ (
          if found == null
          then not_found (rest_of path) (written name buffer) prev
          else if_empty
              (rest_of path)
              (ok record { found = found; last_file = written name buffer; prev_file = prev })
              (resolve_from rounds fuel
                (h found).child
                (rest_of path)
                (written name buffer)
                found
                h))
  part-round rounds p prev found name path buffer n m e a b f =
      resolve-round rounds fuel p path buffer (written name buffer) prev found h n m
        (rw e (write_chars-part name buffer (omega (arith, a.1, b))))
        (rw (text_of-written name (drop (length (name ++ (0 ∷ []))) buffer) a.0) f)

  -- What `file_resolve` comes to at the last part of a path: in the buffer stands the part in front of it.
  pub record AtLast (run : Outcome Resolved) (dir prev_dir : ℕ) (before last : List ℕ)
      : Type 0 where
    pub rounds : ℕ
    pub rest : List ℕ
    pub size : length ((before ++ (0 ∷ [])) ++ rest) ≡ max_path
    pub chars : AllChars before
    pub part : IsPart last × (last ≢ [])
    pub comes :
        run ≡ resolve_from (suc rounds) fuel dir last ((before ++ (0 ∷ [])) ++ rest) prev_dir h

  pub Goes-AtLast :
      (p prev : ℕ) (old name : List ℕ) (names : List (List ℕ)) (rounds : ℕ) (rest : List ℕ)
      {dir prev_dir : ℕ} {before last : List ℕ}
      → Goes h fuel p prev old name names dir prev_dir before last
      → AllParts name names
      → AllChars old
      → length ((old ++ (0 ∷ [])) ++ rest) ≡ max_path
      → length names < rounds
      → AtLast
          (resolve_from rounds fuel p (join name names) ((old ++ (0 ∷ [])) ++ rest) prev h)
          dir
          prev_dir
          before
          last
  Goes-AtLast p prev old name names zero rest g a o b l = absurd (omega arith)
  Goes-AtLast p prev old name [] (suc rounds) rest stop a o b l = record {
    rounds = rounds;
    rest = rest;
    size = b;
    chars = o;
    part = a;
    comes = refl;
  }
  Goes-AtLast p prev old name (n ∷ ns) (suc rounds) rest (down {d = d} xs c f e g) a o b l =
      let buffer = (old ++ (0 ∷ [])) ++ rest in
      let found = find_friend-first fuel p name h xs d c f e in
      let z : (d == null) ≡ false = ground (arith, found.1) in
      rw
        (
          part-round rounds p prev d name (join name (n ∷ ns)) buffer
              (join-nonempty name (n ∷ ns) a) (first-nonnull h p name xs d c f)
              (comp_of-part name (join n ns) a.0.0) a.0 b found.0,
          z,
          rest_of-part name (join n ns) a.0.0,
          if_empty-nonempty (join n ns) _ _ (join-nonempty n ns a.1),
        )
        (Goes-AtLast (h d).child d name n ns rounds (drop (length (name ++ (0 ∷ []))) buffer) g a.1
          a.0.0 (length-written name buffer (omega (arith, a.0.1, b)) ∙ b) (omega arith))

  -- Where the last part names a file of the last directory, that file is found.
  pub last-found :
      (rounds dir prev_dir q : ℕ) (last buffer : List ℕ) (xs : List ℕ)
      → IsPart last × (last ≢ [])
      → length buffer ≡ max_path
      → Friends h dir xs
      → FirstNamed h last xs q
      → length xs < fuel
      → (resolve_from (suc rounds) fuel dir last buffer prev_dir h
          ≡ ok record { found = q; last_file = written last buffer; prev_file = prev_dir })
        × (q ≢ null)
  last-found rounds dir prev_dir q last buffer xs a b c f e =
      let found = find_friend-first fuel dir last h xs q c f e in
      let z : (q == null) ≡ false = ground (arith, found.1) in
      (
        rw
            (
              part-round rounds dir prev_dir q last last buffer a.1
                  (first-nonnull h dir last xs q c f) (comp_of-last last a.0.0) a.0 b found.0,
              z,
              rest_of-last last a.0.0,
            )
            refl,
        found.1,
      )

  -- Where it names none of them, and there are some, the buffer has the last part.
  pub last-missing :
      (rounds dir prev_dir : ℕ) (last buffer : List ℕ) (xs : List ℕ)
      → IsPart last × (last ≢ [])
      → length buffer ≡ max_path
      → dir ≢ null
      → Friends h dir xs
      → NoneNamed h last xs
      → length xs < fuel
      → resolve_from (suc rounds) fuel dir last buffer prev_dir h
        ≡ ok record { found = null; last_file = written last buffer; prev_file = prev_dir }
  last-missing rounds dir prev_dir last buffer xs a b n c f e =
      rw
        (
          part-round rounds dir prev_dir null last last buffer a.1 n (comp_of-last last a.0.0) a.0 b
              (find_friend-none fuel dir last h xs c f e),
          rest_of-last last a.0.0,
        )
        (not_found-over [] (written last buffer) prev_dir (omega arith))

  -- Where the directory is empty, the last part is written over what is in the buffer, without a 0.
  pub last-empty :
      (rounds prev_dir : ℕ) (last buffer : List ℕ)
      → IsPart last × (last ≢ [])
      → length buffer ≡ max_path
      → resolve_from (suc rounds) fuel null last buffer prev_dir h
        ≡ ok record {
          found = null;
          last_file = last ++ drop (length last) buffer;
          prev_file = prev_dir;
        }
  unfolding resolve_from
  last-empty rounds prev_dir [] buffer a b = absurd (a.1 refl)
  last-empty rounds prev_dir (c ∷ cs) buffer a b =
      not_found-over (c ∷ cs) buffer prev_dir (omega (arith, a.0.1, b))
