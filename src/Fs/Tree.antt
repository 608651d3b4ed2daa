-- ===== src/Fs/Tree.antt =====
-- kernel/fs/file.c: the tree of files. Walks along `next` take fuel.
use brackos.Base.{
  ℕ, zero, suc, Bool, none, some, List, [], ◌∷◌, ◌++◌, ltb, leb, ◌==◌, if◌then◌else◌, length, set,
  get_or, same_name,
}
use brackos.Base.Outcome.{Outcome, ok, fault, out_of_fuel, ◌>>=◌}
use brackos.Base.Word.{add32}
use brackos.Std.Array.{Array, list_add, list_find, words_of}
use brackos.Fs.{File, Files, null, max_path, slash, put_file, new_memory, write_chars, text_of}

-- a file after `MEMZERO`
abbrev pub no_file : File
no_file = record {
  fs = 0;
  name = [];
  node = 0;
  keys = record { block = none; index = 0; count = 0 };
  vals = record { block = none; index = 0; count = 0 };
  next = 0;
  child = 0;
}

unfoldable pub file_alloc : (name : List ℕ) → (fs node : ℕ) → Files → ℕ × Files
file_alloc name fs node s =
    let (p, t) = new_memory s in
    let f = record no_file { fs = fs; name = name; node = node } in
    if leb max_path (length name)
    then (null, s)
    else if p == null
    then (null, t)
    else (p, record t { files = put_file p f t.files })

unfoldable pub file_add_friend : (root friend : ℕ) → (ℕ → File) → (ℕ → File)
file_add_friend root friend h =
    let g = put_file friend (record (h friend) { next = (h root).next }) h in
    put_file root (record (g root) { next = friend }) g

unfoldable pub file_add_child : (root child : ℕ) → (ℕ → File) → Outcome (ℕ → File)
file_add_child root child h =
    let g = put_file child (record (h child) { next = (h root).child }) h in
    if (h root).child == null
    then ok (put_file root (record (h root) { child = child }) h)
    else if child == null
    then fault
    else ok (put_file root (record (g root) { child = child }) g)

unfoldable pub file_count_friends : (fuel file count : ℕ) → (ℕ → File) → Outcome ℕ
file_count_friends zero file count h = out_of_fuel
file_count_friends (suc fuel) file count h =
    let rest = file_count_friends fuel (h file).next (add32 count 1) h in
    if file == null then ok count else rest

-- `list->data[index] = value`
abbrev pub write_at : (index value : ℕ) → Array → Outcome Array
write_at index value l =
    if ltb index (length (words_of l.block))
    then ok (record l { block = some (set (words_of l.block) index value) })
    else fault

-- `fresh` and `memory` are what `list_add` takes.
unfoldable pub file_stat_set :
    (fresh : ℕ → ℕ) → (memory : Bool) → (file key value : ℕ) → (ℕ → File) → Outcome (ℕ → File)
file_stat_set fresh memory file key value h = list_find key (h file).keys >>= λ found. elim found [
  | some i ↦ write_at i value (h file).vals >>= λ vals.
      ok (put_file file (record (h file) { vals = vals }) h)
  | none ↦ list_add fresh memory key (h file).keys >>= λ keys.
      list_add fresh memory value (h file).vals >>= λ vals.
      ok (put_file file (record (h file) { keys = keys; vals = vals }) h)
]

unfoldable pub file_stat_get : (file key : ℕ) → (ℕ → File) → Outcome ℕ
file_stat_get file key h = list_find key (h file).keys >>= λ found. elim found [
  | none ↦ ok null
  | some i ↦
      if ltb i (length (words_of (h file).vals.block))
      then ok (get_or (words_of (h file).vals.block) i 0)
      else fault
]

-- the path up to the next '/', and what stands behind it
unfoldable pub comp_of : List ℕ → List ℕ
comp_of [] = []
comp_of (c ∷ cs) = let rest = comp_of cs in if c == slash then [] else c ∷ rest

unfoldable pub rest_of : List ℕ → List ℕ
rest_of [] = []
rest_of (c ∷ cs) = let rest = rest_of cs in if c == slash then cs else rest

-- the search among the friends of a file; `null` for none
unfoldable pub find_friend : (fuel search : ℕ) → (name : List ℕ) → (ℕ → File) → Outcome ℕ
find_friend zero search name h = out_of_fuel
find_friend (suc fuel) search name h =
    let rest = find_friend fuel (h search).next name h in
    if search == null then ok null else if same_name (h search).name name then ok search else rest

-- What `file_resolve` answers, and what it leaves in `last_file` and `prev_file`
pub record Resolved : Type 0 where
  pub found : ℕ
  pub last_file : List ℕ
  pub prev_file : ℕ

-- from "We reached the end" on; no 0 is written behind the characters.
unfoldable pub not_found : (path last_file : List ℕ) → (prev : ℕ) → Outcome Resolved
not_found path last_file prev = write_chars 0 path last_file >>= λ buffer.
    ok record { found = null; last_file = buffer; prev_file = prev }

abbrev pub if_empty {ℓ} : {A : Type ℓ} → List ℕ → A → A → A
if_empty [] x y = x
if_empty (c ∷ cs) x y = y

-- the loop of `file_resolve`; each round takes a part of the path.
unfoldable pub resolve_from :
    (rounds fuel file : ℕ) → (path last_file : List ℕ) → (prev : ℕ) → (ℕ → File) → Outcome Resolved
resolve_from zero fuel file path last_file prev h = out_of_fuel
resolve_from (suc rounds) fuel file [] last_file prev h = not_found [] last_file prev
resolve_from (suc rounds) fuel file (c ∷ cs) last_file prev h =
    let name = comp_of (c ∷ cs) in
    let rest = rest_of (c ∷ cs) in
    let down = λ (found : ℕ) (buffer : List ℕ).
      resolve_from rounds fuel (h found).child rest buffer found h in
    if file == null
    then not_found (c ∷ cs) last_file prev
    else (write_chars 0 (name ++ (0 ∷ [])) last_file >>= λ buffer.
        find_friend fuel file (text_of buffer) h >>= λ found.
        if found == null
        then not_found rest buffer prev
        else if_empty rest (ok record { found = found; last_file = buffer; prev_file = prev })
            (down found buffer))

unfoldable pub file_resolve :
    (rounds fuel file : ℕ) → (path last_file : List ℕ) → (ℕ → File) → Outcome Resolved
file_resolve rounds fuel file path last_file h = resolve_from rounds fuel file path last_file file h
