-- ===== src/Tasks/Ring.antt =====
-- kernel/tasks/scheduler.c: the ring of tasks, and what scheduler_init, scheduler_add and
-- scheduler_advance do to it.
use mathlib.Core.Path.{subst}
use brackos.Base.{
  ℕ, ◌≡◌, ◌≢◌, refl, sym, ◌∙◌, true, false, not, ◌||◌, List, [], ◌∷◌, ◌++◌, ◌==◌, Option, none,
  some, Bool-cases, inl, inr, arith, NotIn, Distinct, NotIn-snoc, Distinct-snoc,
}
use brackos.Base.Outcome.{ok, Returns, returns, Returns-mono}
use brackos.Tasks.{
  Kernel, Task, Event, null, put, preempt, started, cpu_task_schedule, cpu_task_deschedule,
  switch_task, scheduler_advance, scheduler_add, scheduler_init,
}

-- From `p` the `next` pointers lead through the tasks `xs` to `q`.
abbrev pub Links : (ℕ → Task) → (p : ℕ) → List ℕ → (q : ℕ) → Type 0
Links h p [] q = p ≡ q
Links h p (x ∷ xs) q = (p ≡ x) × (x ≢ null) × Links h (h x).next xs q

-- The ring is the running task `c` and then, in the order of their turns, `ts`.
pub record IsRing (c : ℕ) (ts : List ℕ) (k : Kernel) : Type 0 where
  pub path : Links k.heap k.current (c ∷ ts) c
  pub distinct : Distinct (c ∷ ts)

pub Links-same :
    (h g : ℕ → Task) (p : ℕ) (xs : List ℕ) (q : ℕ)
    → ((a : ℕ) → (g a).next ≡ (h a).next)
    → Links h p xs q
    → Links g p xs q
Links-same h g p [] q e c = c
Links-same h g p (x ∷ xs) q e c = (c.0, c.1, rw (e x) (Links-same h g (h x).next xs q e c.2))

-- Only the tasks on the way matter.
pub Links-off :
    (h g : ℕ → Task) (a b : ℕ) (p : ℕ) (xs : List ℕ) (q : ℕ)
    → ((x : ℕ) → x ≢ a → x ≢ b → (g x).next ≡ (h x).next)
    → NotIn a xs
    → NotIn b xs
    → Links h p xs q
    → Links g p xs q
Links-off h g a b p [] q e ha hb c = c
Links-off h g a b p (x ∷ xs) q e ha hb c = (
  c.0,
  c.1,
  rw (e x (λ f. ha.0 (sym f)) (λ f. hb.0 (sym f)))
      (Links-off h g a b (h x).next xs q e ha.1 hb.1 c.2),
)

pub Links-snoc :
    (h : ℕ → Task) (p : ℕ) (xs : List ℕ) (c d : ℕ)
    → Links h p xs c
    → c ≢ null
    → (h c).next ≡ d
    → Links h p (xs ++ (c ∷ [])) d
Links-snoc h p [] c d w n e = (w, n, e)
Links-snoc h p (x ∷ xs) c d w n e = (w.0, w.1, Links-snoc h (h x).next xs c d w.2 n e)

abbrev pub head_of : List ℕ → (c : ℕ) → ℕ
head_of [] c = c
head_of (d ∷ ts) c = d

abbrev pub tail_of : List ℕ → (c : ℕ) → List ℕ
tail_of [] c = []
tail_of (d ∷ ts) c = ts ++ (c ∷ [])

abbrev pub newest : List Event → Option Event
newest [] = none
newest (e ∷ es) = some e

-- What one turn of the scheduler does, from the running task `c` to `d`.
pub record Advanced (c d : ℕ) (k t : Kernel) : Type 0 where
  pub current : t.current ≡ d
  pub irq : t.irq_happening ≡ true
  pub started_first : c ≢ d → t.first_run ≡ false
  pub links : (q : ℕ) → (t.heap q).next ≡ (k.heap q).next
  pub others : (q : ℕ) → q ≢ c → (t.heap q).cpu ≡ (k.heap q).cpu
  pub saved : c ≢ d → k.first_run ≡ false → (t.heap c).cpu.user_regs ≡ k.irq_regs
  pub state : c ≢ d → (t.heap d).state ≡ preempt
  pub resumes : c ≢ d → newest t.events ≡ some (Event.resumed (k.heap d).cpu.user_regs)

switch_task-Advanced :
    (c d : ℕ) (k : Kernel)
    → k.irq_happening ≡ true
    → Advanced c d k (switch_task c d (record k { current = d }))
unfolding switch_task cpu_task_schedule cpu_task_deschedule
switch_task-Advanced c d k irq = record {
  current = ground arith;
  irq = ground arith;
  started_first = λ n. ground arith;
  links = λ q. ground arith;
  others = λ q n. ground arith;
  saved = λ n f. ground arith;
  state = λ n. ground arith;
  resumes = λ n. ground arith;
}

advance_turns :
    (k : Kernel) (d : ℕ)
    → k.irq_happening ≡ true
    → k.current ≢ null
    → (k.heap k.current).next ≡ d
    → d ≢ null
    → (not (d == k.current) || (k.heap d).state == started) ≡ true
    → scheduler_advance k ≡ ok (switch_task k.current d (record k { current = d }))
unfolding scheduler_advance
advance_turns k d irq here next there e = ground arith

advance_stays :
    (k : Kernel) (d : ℕ)
    → k.irq_happening ≡ true
    → k.current ≢ null
    → (k.heap k.current).next ≡ d
    → d ≢ null
    → (not (d == k.current) || (k.heap d).state == started) ≡ false
    → scheduler_advance k ≡ ok (record k { current = d })
unfolding scheduler_advance
advance_stays k d irq here next there e = ground arith

pub scheduler_advance-Advanced :
    (k : Kernel) (d : ℕ)
    → k.irq_happening ≡ true
    → k.current ≢ null
    → (k.heap k.current).next ≡ d
    → d ≢ null
    → Returns (Advanced k.current d k) (scheduler_advance k)
scheduler_advance-Advanced k d irq here next there =
    elim (Bool-cases (not (d == k.current) || (k.heap d).state == started)) [
      | inl e ↦
          rw (advance_turns k d irq here next there e)
            (returns (switch_task-Advanced k.current d k irq))
      | inr e ↦ rw (advance_stays k d irq here next there e) (returns (stays e))
    ]
  where
    stays :
        (not (d == k.current) || (k.heap d).state == started) ≡ false
        → Advanced k.current d k (record k { current = d })
    stays e =
        let same : k.current ≡ d = ground arith in
        record {
          current = refl;
          irq = irq;
          started_first = λ n. absurd (n same);
          links = λ q. refl;
          others = λ q n. refl;
          saved = λ n f. absurd (n same);
          state = λ n. absurd (n same);
          resumes = λ n. absurd (n same);
        }

-- One turn takes the ring on by one task.
pub Advanced-IsRing :
    (c : ℕ) (ts : List ℕ) (k t : Kernel)
    → IsRing c ts k
    → Advanced c (head_of ts c) k t
    → IsRing (head_of ts c) (tail_of ts c) t
Advanced-IsRing c [] k t r a = record {
  path =
      let p = Links-same k.heap t.heap c (c ∷ []) c a.links (refl, r.path.1, r.path.2) in
      (a.current, p.1, p.2);
  distinct = r.distinct;
}
Advanced-IsRing c (d ∷ ts) k t r a = record {
  path =
      let w = r.path.2 in
      let p = Links-same k.heap t.heap (k.heap c).next (d ∷ ts) c a.links w in
      (a.current, w.1, Links-snoc t.heap (t.heap d).next ts c d p.2 r.path.1 (a.links c ∙ w.0));
  distinct = (
    NotIn-snoc d ts c r.distinct.1.0 (λ e. r.distinct.0.0 (sym e)),
    Distinct-snoc ts c r.distinct.0.1 r.distinct.1.1,
  );
}

-- In an interrupt, on a ring, `scheduler_advance` returns, the next task of the ring is the current one
-- and the ring is the same, one task further.
pub scheduler_advance-IsRing :
    (c : ℕ) (ts : List ℕ) (k : Kernel)
    → k.irq_happening ≡ true
    → IsRing c ts k
    → Returns
        (λ t. Advanced c (head_of ts c) k t × IsRing (head_of ts c) (tail_of ts c) t)
        (scheduler_advance k)
scheduler_advance-IsRing c ts k irq r =
    let e = r.path.0 in
    Returns-mono
      (λ t a.
        let b = subst (λ x. Advanced x (head_of ts c) k t) e a in (b, Advanced-IsRing c ts k t r b))
      (scheduler_advance-Advanced k (head_of ts c) irq (λ n. r.path.1 (sym e ∙ n))
        (rw e (next_of ts r.path.2)) (head-null ts r.path.1 r.path.2))
  where
    next_of : (ts : List ℕ) → Links k.heap (k.heap c).next ts c → (k.heap c).next ≡ head_of ts c
    next_of [] w = w
    next_of (d ∷ ts) w = w.0

    head-null : (ts : List ℕ) → c ≢ null → Links k.heap (k.heap c).next ts c → head_of ts c ≢ null
    head-null [] n w = n
    head-null (d ∷ ts) n w = w.1

-- `scheduler_init` of a task makes the ring of that task alone.
pub scheduler_init-IsRing :
    (first : ℕ) (k : Kernel) → first ≢ null → Returns (IsRing first []) (scheduler_init first k)
unfolding scheduler_init
scheduler_init-IsRing first k n =
    let a : (first == null) ≡ false = ground arith in
    rw a (returns record { path = (refl, n, ground arith); distinct = (tt, tt) })

-- the state behind `scheduler_add`
abbrev added : (p : ℕ) → Kernel → Kernel
added p k =
    let k1 = put p (record (k.heap p) { next = (k.heap k.current).next }) k in
    put k.current (record (k1.heap k.current) { next = p }) k1

scheduler_add-added :
    (p : ℕ) (k : Kernel) → p ≢ null → k.current ≢ null → scheduler_add p k ≡ ok (added p k)
unfolding scheduler_add
scheduler_add-added p k n m = ground arith

-- `scheduler_add` of a task that is not in the ring puts it behind the running task.
pub scheduler_add-IsRing :
    (p c : ℕ) (ts : List ℕ) (k : Kernel)
    → p ≢ null
    → NotIn p (c ∷ ts)
    → IsRing c ts k
    → Returns (λ t. IsRing c (p ∷ ts) t × (t.irq_happening ≡ k.irq_happening)) (scheduler_add p k)
scheduler_add-IsRing p c ts k n out r =
    rw (scheduler_add-added p k n (λ z. r.path.1 (sym r.path.0 ∙ z))) (returns (ring, refl))
  where
    here : k.current ≡ c
    here = r.path.0

    old : Links k.heap (k.heap c).next ts c
    old = r.path.2

    at_c : ((added p k).heap c).next ≡ p
    at_c = ground arith

    at_p : ((added p k).heap p).next ≡ (k.heap c).next
    at_p = ground arith

    off : (x : ℕ) → x ≢ c → x ≢ p → ((added p k).heap x).next ≡ (k.heap x).next
    off x a b = ground arith

    ring : IsRing c (p ∷ ts) (added p k)
    ring = record {
      path = (
        here,
        r.path.1,
        (
          at_c,
          n,
          rw at_p (
              Links-off k.heap (added p k).heap c p (k.heap c).next ts c off r.distinct.0 out.1
                old),
        ),
      );
      distinct = (((λ e. out.0 (sym e)), r.distinct.0), (out.1, r.distinct.1));
    }
