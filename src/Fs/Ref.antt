-- ===== src/Fs/Ref.antt =====
-- kernel/fs/ref.c: the references of the running task to files. `fresh` and `memory` are what `list_add`
-- takes.
use brackos.Base.{
  ℕ, zero, suc, ◌+◌, ◌%◌, Bool, Option, none, some, List, [], ◌∷◌, ◌==◌, if◌then◌else◌,
}
use brackos.Base.Outcome.{Outcome, ok, fault, ◌>>=◌}
use brackos.Base.Word.{add32}
use brackos.Std.Array.{Array, list_add, list_rem, words_of}
use brackos.Tasks.{Task, Event, load, put, log}
use brackos.Fs.{Files, FileRef, FileRefPair, null, fid_invalid, new_memory}

-- `current_task->files.max_fid++`
unfoldable pub take_fid : Task → Files → Files
take_fid task s = record s {
  kernel = put s.kernel.current (record task { max_fid = add32 task.max_fid 1 }) s.kernel;
}

-- the reference `ref`, the pair `pair`, and the list of pairs with it
unfoldable pub link_ref : (file flags fid ref pair : ℕ) → (pairs : Array) → Files → Files
link_ref file flags fid ref pair pairs s =
    let current = s.kernel.current in
    let r : FileRef = record {
      fid = fid;
      file = file;
      index = 0;
      task = current;
      flags = flags % 256;
    } in
    record s {
      refs = λ q. if q == ref then r else s.refs q;
      pairs = λ q. if q == pair then record { fid = fid; ref = ref } else s.pairs q;
      kernel = put current (record (s.kernel.heap current) { pairs = pairs }) s.kernel;
    }

-- `file_ref_new` from the file id on
unfoldable pub add_ref :
    (fresh : ℕ → ℕ) → (memory : Bool) → (file flags ref : ℕ) → Task → Files → Outcome (ℕ × Files)
add_ref fresh memory file flags ref task s =
    let (pair, t) = new_memory (take_fid task s) in
    if pair == null
    then ok (null, record t { kernel = log (Event.freed ref) t.kernel })
    else (list_add fresh memory pair task.pairs >>= λ pairs.
        ok (ref, link_ref file flags task.max_fid ref pair pairs t))

unfoldable pub file_ref_new :
    (fresh : ℕ → ℕ) → (memory : Bool) → (file flags : ℕ) → Files → Outcome (ℕ × Files)
file_ref_new fresh memory file flags s =
    let (ref, t) = new_memory s in
    if ref == null
    then ok (null, t)
    else (load t.kernel.current t.kernel >>= λ task. add_ref fresh memory file flags ref task t)

-- the place of the first of the pointers, from `i` on, to a pair with the `fid`; a pointer at NULL, or
-- one that the block does not have, is a fault.
unfoldable pub find_fid :
    (rounds i fid : ℕ) → (ws : List ℕ) → (ℕ → FileRefPair) → Outcome (Option (ℕ × ℕ))
find_fid zero i fid ws pairs = ok none
find_fid (suc rounds) i fid [] pairs = fault
find_fid (suc rounds) i fid (w ∷ ws) pairs =
    let rest = find_fid rounds (i + 1) fid ws pairs in
    if w == null then fault else if (pairs w).fid == fid then ok (some (i, w)) else rest

-- The first argument of the C function, a task, is not used.
unfoldable pub file_ref_resolve : (fid : ℕ) → Files → Outcome ℕ
file_ref_resolve fid s =
    if fid == fid_invalid
    then ok null
    else (load s.kernel.current s.kernel >>= λ task.
        find_fid task.pairs.index 0 fid (words_of task.pairs.block) s.pairs >>= λ found.
        elim found [ none ↦ ok null | some (i, pair) ↦ ok (s.pairs pair).ref ])

unfoldable pub file_ref_close : (ref : ℕ) → Files → Outcome Files
file_ref_close ref s = load s.kernel.current s.kernel >>= λ task.
    find_fid task.pairs.index 0 (s.refs ref).fid (words_of task.pairs.block) s.pairs >>= λ found.
    elim found [
      | none ↦ ok (record s { kernel = log (Event.freed ref) s.kernel })
      | some (i, pair) ↦ load (s.refs ref).task s.kernel >>= λ owner.
          list_rem i owner.pairs >>= λ pairs. ok (record s {
            kernel = log (Event.freed ref) (
                log (Event.freed pair)
                  (put (s.refs ref).task (record owner { pairs = pairs }) s.kernel));
          })
    ]
