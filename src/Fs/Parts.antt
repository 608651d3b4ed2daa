-- ===== src/Fs/Parts.antt =====
-- kernel/fs/file.c: file_resolve follows a path through the tree of files.
use brackos.Base.{
  ℕ, zero, suc, ◌+◌, ◌<◌, ◌≡◌, ◌≢◌, refl, sym, ap, ◌∙◌, ◌⊎◌, true, false, List, [], ◌∷◌, ◌++◌, leb,
  ◌==◌, inl, inr, length, drop, length-append, length-drop, same_name, arith,
}
use brackos.Base.Outcome.{ok}
use brackos.Fs.{File, null, max_path, slash, write_chars, text_of}
use brackos.Fs.Tree.{comp_of, rest_of, find_friend}

-- From `p` the `next` pointers lead through the files `xs` to NULL.
abbrev pub Friends : (ℕ → File) → (p : ℕ) → List ℕ → Type 0
Friends h p [] = p ≡ null
Friends h p (x ∷ xs) = (p ≡ x) × (x ≢ null) × Friends h (h x).next xs

-- `q` is the first of the files with the name.
abbrev pub FirstNamed : (ℕ → File) → (name : List ℕ) → List ℕ → (q : ℕ) → Type 0
FirstNamed h name [] q = ⊥
FirstNamed h name (x ∷ xs) q =
    ((same_name (h x).name name ≡ true) × (q ≡ x))
    ⊎ ((same_name (h x).name name ≡ false) × FirstNamed h name xs q)

abbrev pub NoneNamed : (ℕ → File) → (name : List ℕ) → List ℕ → Type 0
NoneNamed h name [] = Unit
NoneNamed h name (x ∷ xs) = (same_name (h x).name name ≡ false) × NoneNamed h name xs

abbrev pub AllChars : List ℕ → Type 0
AllChars [] = Unit
AllChars (c ∷ cs) = (c ≢ 0) × (c ≢ slash) × AllChars cs

-- A part of a path that fits into the buffer with a 0 behind it; it may be empty.
abbrev pub IsPart : List ℕ → Type 0
IsPart name = AllChars name × (length name < max_path)

-- the parts with a '/' between them
abbrev pub join : (name : List ℕ) → (names : List (List ℕ)) → List ℕ
join name [] = name
join name (n ∷ ns) = name ++ (slash ∷ join n ns)

-- All are parts, and the last is not empty.
abbrev pub AllParts : (name : List ℕ) → (names : List (List ℕ)) → Type 0
AllParts name [] = IsPart name × (name ≢ [])
AllParts name (n ∷ ns) = IsPart name × AllParts n ns

pub find_friend-first :
    (fuel p : ℕ) (name : List ℕ) (h : ℕ → File) (xs : List ℕ) (q : ℕ)
    → Friends h p xs
    → FirstNamed h name xs q
    → length xs < fuel
    → (find_friend fuel p name h ≡ ok q) × (q ≢ null)
unfolding find_friend
find_friend-first zero p name h xs q c f l = absurd (omega arith)
find_friend-first (suc fuel) p name h [] q c f l = absurd f
find_friend-first (suc fuel) p name h (x ∷ xs) q c (inl f) l =
    let z : (p == null) ≡ false = ground (arith, c.0, c.1) in
    let e : same_name (h p).name name ≡ true = rw (c.0) (f.0) in
    (rw (z, e) (ap ok (c.0 ∙ sym f.1)), λ n. c.1 (sym f.1 ∙ n))
find_friend-first (suc fuel) p name h (x ∷ xs) q c (inr f) l =
    let z : (p == null) ≡ false = ground (arith, c.0, c.1) in
    let e : same_name (h p).name name ≡ false = rw (c.0) (f.0) in
    let i = find_friend-first fuel (h x).next name h xs q c.2 f.1 (omega arith) in
    (rw (z, e, c.0) (i.0), i.1)

pub find_friend-none :
    (fuel p : ℕ) (name : List ℕ) (h : ℕ → File) (xs : List ℕ)
    → Friends h p xs
    → NoneNamed h name xs
    → length xs < fuel
    → find_friend fuel p name h ≡ ok null
unfolding find_friend
find_friend-none zero p name h xs c f l = absurd (omega arith)
find_friend-none (suc fuel) p name h [] c f l =
    let z : (p == null) ≡ true = ground arith in rw z refl
find_friend-none (suc fuel) p name h (x ∷ xs) c f l =
    let z : (p == null) ≡ false = ground (arith, c.0, c.1) in
    let e : same_name (h p).name name ≡ false = rw (c.0) (f.0) in
    rw (z, e, c.0) (find_friend-none fuel (h x).next name h xs c.2 f.1 (omega arith))

pub comp_of-part : (name rest : List ℕ) → AllChars name → comp_of (name ++ (slash ∷ rest)) ≡ name
unfolding comp_of
comp_of-part [] rest a = refl
comp_of-part (c ∷ cs) rest a =
    let z : (c == slash) ≡ false = ground (arith, a.1) in rw (z, comp_of-part cs rest a.2) refl

pub rest_of-part : (name rest : List ℕ) → AllChars name → rest_of (name ++ (slash ∷ rest)) ≡ rest
unfolding rest_of
rest_of-part [] rest a = refl
rest_of-part (c ∷ cs) rest a =
    let z : (c == slash) ≡ false = ground (arith, a.1) in rw (z, rest_of-part cs rest a.2) refl

pub comp_of-last : (name : List ℕ) → AllChars name → comp_of name ≡ name
unfolding comp_of
comp_of-last [] a = refl
comp_of-last (c ∷ cs) a =
    let z : (c == slash) ≡ false = ground (arith, a.1) in rw (z, comp_of-last cs a.2) refl

pub rest_of-last : (name : List ℕ) → AllChars name → rest_of name ≡ []
unfolding rest_of
rest_of-last [] a = refl
rest_of-last (c ∷ cs) a =
    let z : (c == slash) ≡ false = ground (arith, a.1) in rw (z, rest_of-last cs a.2) refl

-- the buffer with a part and its 0 at the start
abbrev pub written : (name buffer : List ℕ) → List ℕ
written name buffer = (name ++ (0 ∷ [])) ++ drop (length (name ++ (0 ∷ []))) buffer

pub write_chars-part :
    (name buffer : List ℕ)
    → length name < length buffer
    → write_chars 0 (name ++ (0 ∷ [])) buffer ≡ ok (written name buffer)
unfolding write_chars
write_chars-part name buffer l =
    let n = length-append name (0 ∷ []) in
    let z : 0 + length (name ++ (0 ∷ [])) ≡ length (name ++ (0 ∷ [])) = omega arith in
    let e : leb (length (name ++ (0 ∷ []))) (length buffer) ≡ true = ground (arith, n) in
    rw (z, e) refl

pub length-written :
    (name buffer : List ℕ)
    → length name < length buffer
    → length (written name buffer) ≡ length buffer
length-written name buffer l =
    let t = name ++ (0 ∷ []) in
    omega (
      arith,
      length-append t (drop (length t) buffer),
      length-append name (0 ∷ []),
      length-drop (length t) buffer,
    )

pub text_of-written :
    (name rest : List ℕ) → AllChars name → text_of ((name ++ (0 ∷ [])) ++ rest) ≡ name
unfolding text_of
text_of-written [] rest a = refl
text_of-written (c ∷ cs) rest a =
    let z : (c == 0) ≡ false = ground (arith, a.0) in rw (z, text_of-written cs rest a.2) refl
