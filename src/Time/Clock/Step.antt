-- ===== src/Time/Clock/Step.antt =====
-- kernel/time/clock.c: what clock_add and one round of clock_advance do, case by case.
use brackos.Base.{
  ℕ, zero, suc, ◌≡◌, ◌≢◌, refl, sym, ◌∙◌, ◌⊎◌, Bool, true, false, List, [], ◌∷◌, ◌==◌, Bool-cases,
  inl, inr, arith,
}
use brackos.Base.Outcome.{ok, fault, ok-injective}
use brackos.Base.Word.{sub32}
use brackos.Time.Clock.{
  Clock, ClockEvent, null, put, set_root, is_due, delete_event, rearm, advance_from, clock_add,
}

-- No event, or one that has no neighbour.
abbrev pub AtMostOne : Clock → Type 0
AtMostOne s = (s.root ≡ null) ⊎ (((s.heap s.root).prev ≡ null) × ((s.heap s.root).next ≡ null))

pub clock_add-none :
    (time callback : ℕ) (s : Clock) → s.blocks ≡ [] → clock_add time callback s ≡ ok (null, s)
unfolding clock_add
clock_add-none time callback s e = rw e refl

-- the state behind the first event
abbrev pub first_event : (time callback p : ℕ) (ps : List ℕ) → Clock → Clock
first_event time callback p ps s =
    (set_root time callback p
      (put p (record (s.heap p) { next = null; prev = null }) (record s { blocks = ps }))).1

pub clock_add-first :
    (time callback p : ℕ) (ps : List ℕ) (s : Clock)
    → s.blocks ≡ p ∷ ps
    → s.root ≡ null
    → clock_add time callback s ≡ ok (p, first_event time callback p ps s)
unfolding clock_add
clock_add-first time callback p ps s e r =
    let z : (s.root == null) ≡ true = ground arith in rw (e, z) refl

pub clock_add-fault :
    (time callback p : ℕ) (ps : List ℕ) (s : Clock)
    → s.blocks ≡ p ∷ ps
    → s.root ≢ null
    → (s.heap s.root).prev ≡ null
    → clock_add time callback s ≡ fault
unfolding clock_add
clock_add-fault time callback p ps s e r f =
    let z : (s.root == null) ≡ false = ground arith in
    let b : ((s.heap s.root).prev == null) ≡ true = ground arith in rw (e, z, b) refl

List-cases : (l : List ℕ) → (l ≡ []) ⊎ ((p : ℕ) × (ps : List ℕ) × (l ≡ p ∷ ps))
List-cases [] = inl refl
List-cases (p ∷ ps) = inr (p, ps, refl)

-- What `clock_add` does on a list of at most one event.
pub clock_add-cases :
    (time callback : ℕ) (s : Clock)
    → AtMostOne s
    → (clock_add time callback s ≡ ok (null, s))
      ⊎ ((s.root ≢ null) × (clock_add time callback s ≡ fault))
      ⊎ ((p : ℕ) × (ps : List ℕ) × (clock_add time callback s
            ≡ ok (p, first_event time callback p ps s)))
clock_add-cases time callback s h = go (List-cases s.blocks) h
  where
    go :
        (s.blocks ≡ []) ⊎ ((p : ℕ) × (ps : List ℕ) × (s.blocks ≡ p ∷ ps))
        → AtMostOne s
        → (clock_add time callback s ≡ ok (null, s))
          ⊎ ((s.root ≢ null) × (clock_add time callback s ≡ fault))
          ⊎ ((p : ℕ) × (ps : List ℕ) × (clock_add time callback s
                ≡ ok (p, first_event time callback p ps s)))
    go (inl e) h = inl (clock_add-none time callback s e)
    go (inr (p, ps, e)) (inl r) = inr (inr (p, ps, clock_add-first time callback p ps s e r))
    go (inr (p, ps, e)) (inr f) = elim (Bool-cases (s.root == null)) [
      | inl z ↦ inr (inr (p, ps, clock_add-first time callback p ps s e (ground arith)))
      | inr z ↦ inr (inl (ground arith, clock_add-fault time callback p ps s e (ground arith) f.0))
    ]

pub delete_root :
    (freed : ℕ → ClockEvent) (s : Clock)
    → (s.heap s.root).prev ≡ null
    → (s.heap s.root).next ≡ null
    → delete_event freed s.root s ≡ put s.root (freed s.root) (record s { root = null })
unfolding delete_event
delete_root freed s e f =
    let a : ((s.heap s.root).prev == null) ≡ true = ground arith in
    let b : ((s.heap s.root).next == null) ≡ true = ground arith in
    let c : (s.root == s.root) ≡ true = ground arith in rw (a, b, c, f) refl

module _ (freed : ℕ → ClockEvent) (returns : ℕ → Bool) (amount : ℕ) where
  pub advance-at_null :
      (fuel p : ℕ) (s : Clock) → p ≡ null → advance_from freed returns amount (suc fuel) p s ≡ ok s
  unfolding advance_from
  advance-at_null fuel p s z = let a : (p == null) ≡ true = ground arith in rw a refl

  pub advance-null :
      (fuel p : ℕ) (s t : Clock)
      → p ≡ null
      → advance_from freed returns amount fuel p s ≡ ok t
      → t ≡ s
  unfolding advance_from
  advance-null zero p s t z e = cc
  advance-null (suc fuel) p s t z e = sym (ok-injective (sym (advance-at_null fuel p s z) ∙ e))

  -- the event `p` with its counter gone down
  abbrev pub lowered : (p : ℕ) → Clock → Clock
  lowered p s = put p (record (s.heap p) { counter = sub32 (s.heap p).counter amount }) s

  -- the event `p` behind the call of its callback
  abbrev pub called : (p : ℕ) → Clock → Clock
  called p s =
      let t = rearm (s.heap p).type freed p (lowered p s) in
      record t { calls = (s.heap p).callback ∷ t.calls }

  pub advance-later :
      (fuel p : ℕ) (s : Clock)
      → p ≢ null
      → is_due (sub32 (s.heap p).counter amount) ≡ false
      → advance_from freed returns amount (suc fuel) p s
        ≡ advance_from freed returns amount fuel (s.heap p).next (lowered p s)
  unfolding advance_from
  advance-later fuel p s n d =
      let a : (p == null) ≡ false = ground arith in
      let b : (p == p) ≡ true = ground arith in rw (a, d, b) refl

  pub advance-back :
      (fuel p : ℕ) (s : Clock)
      → p ≢ null
      → is_due (sub32 (s.heap p).counter amount) ≡ true
      → returns (s.heap p).callback ≡ true
      → advance_from freed returns amount (suc fuel) p s
        ≡ advance_from freed returns amount fuel ((called p s).heap p).next (called p s)
  unfolding advance_from
  advance-back fuel p s n d r = let a : (p == null) ≡ false = ground arith in rw (a, d, r) refl

  pub advance-away :
      (fuel p : ℕ) (s : Clock)
      → p ≢ null
      → is_due (sub32 (s.heap p).counter amount) ≡ true
      → returns (s.heap p).callback ≡ false
      → advance_from freed returns amount (suc fuel) p s ≡ ok (record (called p s) { gone = true })
  unfolding advance_from
  advance-away fuel p s n d r = let a : (p == null) ≡ false = ground arith in rw (a, d, r) refl
