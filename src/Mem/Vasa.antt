-- ===== src/Mem/Vasa.antt =====
-- kernel/mem/vasa.c: the virtual address space allocator. Its nodes stand in `mem` at their
-- addresses, and two lists are threaded through them. `supply` holds the addresses that
-- `vasa_node_alloc` will return, in order; once it is empty the function returns NULL, through which
-- its callers write: a fault. What a new node holds is whatever `mem` has at its address.
pub mod Chain
pub mod Insert
pub mod Taken
pub mod Cut
pub mod Alloc
pub mod Dealloc
pub mod Flaws
pub mod Mark
pub mod Start
mod Tests
use brackos.Base.{
  ℕ, zero, suc, ◌+◌, ◌-◌, ◌*◌, ◌/◌, ◌%◌, ◌^◌, Bool, true, false, not, ◌&&◌, Option, none, some,
  List, [], ◌∷◌, ltb, leb, ◌==◌, if◌then◌else◌, min,
}
use brackos.Base.Outcome.{Outcome, ok, fault, hang, out_of_fuel, ◌>>=◌}
use brackos.Base.Word.{add32, sub32, has_bit}

-- `vasa_node_t`; `type` is a number of `vasa_memtype_t`
pub record VasaNode : Type 0 where
  pub next : ℕ
  pub type : ℕ
  pub base : ℕ
  pub length : ℕ
  pub flags : ℕ

abbrev pub null : ℕ
null = 0

-- `vasa_t`, with the store of the nodes; `released` are the addresses given to `kfree`
pub record Vasa : Type 0 where
  pub free_head : ℕ
  pub used_head : ℕ
  pub lock : Bool
  pub mem : ℕ → VasaNode
  pub supply : List ℕ
  pub released : List ℕ

unfoldable pub acquire : Vasa → Outcome Vasa
acquire s = if s.lock then hang else ok (record s { lock = true })

abbrev pub release : Vasa → Vasa
release s = record s { lock = false }

-- `*p = n`
abbrev pub write : ℕ → VasaNode → Vasa → Vasa
write p n s = record s { mem = λ q. if q == p then n else s.mem q }

abbrev pub set_next : (p q : ℕ) → Vasa → Vasa
set_next p q s = write p (record (s.mem p) { next = q }) s

abbrev pub head_of : (used : Bool) → Vasa → ℕ
head_of used s = if used then s.used_head else s.free_head

abbrev pub set_head : (used : Bool) → ℕ → Vasa → Vasa
set_head used p s = record s {
  free_head = if used then s.free_head else p;
  used_head = if used then p else s.used_head;
}

unfoldable pub vasa_congruent : VasaNode → VasaNode → Bool
vasa_congruent a b =
    if ltb a.base b.base then add32 a.base a.length == b.base else add32 b.base b.length == a.base

unfoldable pub vasa_merge_node : (a b : ℕ) → Vasa → Vasa
vasa_merge_node a b s =
    let n = s.mem a in
    let m = s.mem b in
    record (write a (record n { base = min n.base m.base; length = add32 n.length m.length }) s) {
      released = b ∷ s.released;
    }

-- `vasa_node_alloc`, and the write through the pointer that it returns
unfoldable pub vasa_node_alloc : Vasa → Outcome (ℕ × Vasa)
vasa_node_alloc s = elim s.supply [ [] ↦ fault | p ∷ rest ↦ ok (p, record s { supply = rest }) ]

-- the `while` of `vasa_add_node` and what follows it, on fuel
pub add_loop : ℕ → (node : ℕ) → (used : Bool) → (prev head : ℕ) → Vasa → Outcome Vasa
add_loop zero node used prev head s = out_of_fuel
add_loop (suc fuel) node used prev head s =
    let rest = add_loop fuel node used head (s.mem head).next s in
    if head == null
    then (if prev == null
        then ok (set_head used node s)
        else ok (set_next node null (set_next prev node s)))
    else if vasa_congruent (s.mem node) (s.mem head) && not used
    then ok (vasa_merge_node head node s)
    else if ltb (s.mem node).base (s.mem head).base
    then (if prev == null
        then ok (set_head used node (set_next node head s))
        else ok (set_next node head (set_next prev node s)))
    else rest

abbrev pub page_align : ℕ
page_align = 5

abbrev pub two_page_align : ℕ
two_page_align = 6

unfoldable pub padding : (flags : ℕ) → ℕ
padding flags =
    if has_bit flags page_align then 0x1000 else if has_bit flags two_page_align then 0x2000 else 0

-- `APPLY_PAD`: `pad` is a power of two, so `& ~(pad - 1)` rounds down to a multiple.
unfoldable pub apply_pad : (value pad : ℕ) → ℕ
apply_pad value pad = sub32 (add32 value pad) 1 / pad * pad

-- Each list is walked on `fuel`: its length and one more are enough.
module _ (fuel : ℕ) where
  unfoldable pub vasa_add_node : (node : ℕ) → (used : Bool) → Vasa → Outcome Vasa
  vasa_add_node node used s =
      if node == null
      then ok s
      else let cleared = if used then s else write node (record (s.mem node) { flags = 0 }) s in
        add_loop fuel node used null (head_of used cleared) cleared

  -- Take `head` out of a list: its predecessor, or the head pointer of the list named by `used`,
  -- skips it.
  abbrev pub unlink : (used : Bool) → (prev head : ℕ) → Vasa → Vasa
  unlink used prev head s =
      if prev == null then set_head used (s.mem head).next s else set_next prev (s.mem head).next s

  -- `vasa_mark` at a node whose chunk holds the range
  unfoldable pub mark_found :
      (base length : ℕ) → (used : Bool) → (flags prev head : ℕ) → Vasa → Outcome (Bool × Vasa)
  unfolding vasa_add_node vasa_node_alloc
  mark_found base length used flags prev head s =
      let their_base = (s.mem head).base in
      let their_end = add32 their_base (s.mem head).length in
      let end = add32 base length in
      if base == their_base && end == their_end
      then (let t = unlink used prev head s in
          vasa_add_node head used (write head (record (t.mem head) { flags = flags }) t) >>= λ u.
          ok (true, u))
      else (let t = write head (record (s.mem head) { length = sub32 base their_base }) s in
          vasa_node_alloc t >>= λ (be, u).
          vasa_add_node be used
            (write be (record (u.mem be) { base = base; length = length; flags = flags }) u)
          >>= λ v. vasa_node_alloc v >>= λ (en, w).
              vasa_add_node en (not used) (
                write en
                  (record (w.mem en) {
                    base = end;
                    length = sub32 their_end end;
                    flags = (w.mem head).flags;
                  })
                  w)
              >>= λ x. ok (true, x))

  pub mark_loop :
      ℕ → (base length : ℕ) → (used : Bool) → (flags prev head : ℕ) → Vasa → Outcome (Bool × Vasa)
  mark_loop zero base length used flags prev head s = out_of_fuel
  mark_loop (suc k) base length used flags prev head s =
      let their_base = (s.mem head).base in
      let their_end = add32 their_base (s.mem head).length in
      let rest = mark_loop k base length used flags head (s.mem head).next s in
      if head == null
      then ok (false, s)
      else if leb their_end their_base
      then ok (false, s)
      else if leb their_base base && leb (add32 base length) their_end
      then mark_found base length used flags prev head s
      else rest

  unfoldable pub vasa_mark : (base length : ℕ) → (used : Bool) → ℕ → Vasa → Outcome (Bool × Vasa)
  unfolding mark_loop
  vasa_mark base length used flags s =
      mark_loop fuel base length used flags null (head_of (not used) s) s

  pub flags_loop : ℕ → (base head : ℕ) → Vasa → Outcome ℕ
  flags_loop zero base head s = out_of_fuel
  flags_loop (suc k) base head s =
      let rest = flags_loop k base (s.mem head).next s in
      if head == null
      then ok 0
      else if (s.mem head).base == base
      then ok (s.mem head).flags
      else rest

  unfoldable pub vasa_get_flags : (base : ℕ) → Vasa → Outcome ℕ
  vasa_get_flags base s = flags_loop fuel base s.used_head s

  pub dealloc_loop : ℕ → (ptr prev head : ℕ) → Vasa → Outcome Vasa
  dealloc_loop zero ptr prev head s = out_of_fuel
  dealloc_loop (suc k) ptr prev head s =
      let start = (s.mem head).base in
      let end = add32 start (s.mem head).length in
      let rest = dealloc_loop k ptr head (s.mem head).next s in
      if head == null
      then ok (release s)
      else if leb start ptr && leb ptr end
      then (vasa_add_node head false (unlink true prev head s) >>= λ t. ok (release t))
      else rest

  unfoldable pub vasa_dealloc : (ptr : ℕ) → Vasa → Outcome Vasa
  unfolding acquire
  vasa_dealloc ptr s = acquire s >>= λ t. dealloc_loop fuel ptr null t.used_head t

  -- The waste node of `vasa_alloc`: none without padding or without waste. `head->base` is written
  -- back as it was.
  unfoldable pub cut_waste : (type flags pad waste head : ℕ) → Vasa → Outcome (Option ℕ × Vasa)
  unfolding vasa_node_alloc
  cut_waste type flags pad waste head s =
      if ltb 0 pad && ltb 0 waste
      then (vasa_node_alloc s >>= λ (w, t).
          let base = (s.mem head).base in
          let u =
            write w
              (record { next = head; type = type; base = base; length = waste; flags = flags }) t in
          ok (
            some w,
            write head
                (record (u.mem head) { base = base; length = sub32 (u.mem head).length waste }) u,
          ))
      else ok (none, s)

  -- The node that `vasa_alloc` takes: a new one, with the chunk cut from the start of `head`, or
  -- `head` itself, unlinked.
  unfoldable pub take_node : (size prev head : ℕ) → Vasa → Outcome (ℕ × Vasa)
  unfolding vasa_node_alloc
  take_node size prev head s =
      if ltb size (s.mem head).length
      then vasa_node_alloc (
          write head
            (record (s.mem head) {
              base = add32 (s.mem head).base size;
              length = sub32 (s.mem head).length size;
            })
            s)
      else ok (head, unlink false prev head s)

  -- `vasa_alloc` at a node that is long enough
  unfoldable pub alloc_found : (type size flags prev head : ℕ) → Vasa → Outcome (ℕ × Vasa)
  unfolding cut_waste take_node vasa_add_node
  alloc_found type size flags prev head s =
      let pad = padding flags in
      let base = (s.mem head).base in
      let ptr = if ltb 0 pad then apply_pad base pad else base in
      let waste = if ltb 0 pad then sub32 ptr base else 0 in
      cut_waste type flags pad waste head s >>= λ (waste_node, t).
      take_node size prev head t >>= λ (node, u).
      vasa_add_node node true (
        write node (record { next = null; type = type; base = ptr; length = size; flags = flags })
          u)
      >>= λ v. elim waste_node [
        | none ↦ ok (ptr, release v)
        | some w ↦ vasa_add_node w false v >>= λ x. ok (ptr, release x)
      ]

  pub alloc_loop : ℕ → (type size flags prev head : ℕ) → Vasa → Outcome (ℕ × Vasa)
  alloc_loop zero type size flags prev head s = out_of_fuel
  alloc_loop (suc k) type size flags prev head s =
      let rest = alloc_loop k type size flags head (s.mem head).next s in
      if head == null
      then ok (null, release s)
      else if leb (add32 size (padding flags)) (s.mem head).length
      then alloc_found type size flags prev head s
      else rest

  unfoldable pub vasa_alloc : (type size flags : ℕ) → Vasa → Outcome (ℕ × Vasa)
  unfolding acquire
  vasa_alloc type size flags s =
      if size == 0
      then ok (null, s)
      else (acquire s >>= λ t. alloc_loop fuel type size flags null t.free_head t)

-- `vasa_init`: the rest of the node stays as it was allocated.
unfoldable pub vasa_init : (start length : ℕ) → Vasa → Outcome Vasa
unfolding vasa_node_alloc
vasa_init start length s = vasa_node_alloc s >>= λ (p, t).
    ok (record (write p (record (t.mem p) { next = null; base = start; length = length }) t) {
      free_head = p;
      used_head = null;
    })
