-- ===== src/Tasks/Turn.antt =====
-- kernel/tasks/scheduler.c: every task of the ring gets its turn, and goes on where it was stopped.
use mathlib.Core.Path.{subst}
use mathlib.Core.List.{append_assoc, append-nil}
use brackos.Base.{
  ℕ, suc, ◌≡◌, ◌≢◌, sym, ap, ◌∙◌, true, false, some, List, [], ◌∷◌, ◌++◌, length, NotIn, Distinct,
  NotIn-snoc, arith,
}
use brackos.Base.Outcome.{Outcome, ok, ◌>>=◌, Returns, returns, Returns-mono, Returns-bind}
use brackos.Tasks.{Kernel, Event, null, preempt, scheduler_advance, scheduler_add}
use brackos.Tasks.Ring.{IsRing, newest, scheduler_advance-IsRing, scheduler_add-IsRing}

-- interrupts in a row that call `scheduler_advance`, each with the registers that it stops the running
-- task with
unfoldable pub interrupts : (regs : List ℕ) → Kernel → Outcome Kernel
interrupts [] k = ok k
interrupts (q ∷ qs) k = scheduler_advance (record k { irq_regs = q }) >>= interrupts qs

at_interrupt :
    (c : ℕ) (ts : List ℕ) (k : Kernel) (q : ℕ)
    → IsRing c ts k
    → IsRing c ts (record k { irq_regs = q })
at_interrupt c ts k q r = record { path = r.path; distinct = r.distinct }

NotIn-middle : (c : ℕ) (xs : List ℕ) (x : ℕ) (ys : List ℕ) → NotIn c (xs ++ (x ∷ ys)) → c ≢ x
NotIn-middle c [] x ys h = h.0
NotIn-middle c (y ∷ xs) x ys h = NotIn-middle c xs x ys h.1

-- The task `x` runs, from where it was stopped in the state `k`, and the ring goes on as `ts`.
pub record Resumed (x : ℕ) (ts : List ℕ) (k t : Kernel) : Type 0 where
  pub ring : IsRing x ts t
  pub irq : t.irq_happening ≡ true
  pub first_run : t.first_run ≡ false
  pub state : (t.heap x).state ≡ preempt
  pub resumes : newest t.events ≡ some (Event.resumed (k.heap x).cpu.user_regs)

-- On the ring of the running task `c`, the tasks `pre`, the task `x` and the tasks `post`, the last of as
-- many interrupts that call `scheduler_advance` as there are tasks in `pre` and one more resumes `x`,
-- killed or not, with the registers that were saved for it, whatever registers the interrupts come
-- with, and the ring goes on with `post`, then `c`, then `pre`.
pub advances-Resumed :
    (c : ℕ) (pre : List ℕ) (x : ℕ) (post : List ℕ) (regs : List ℕ) (k : Kernel)
    → length regs ≡ suc (length pre)
    → k.irq_happening ≡ true
    → IsRing c (pre ++ (x ∷ post)) k
    → Returns (Resumed x (post ++ (c ∷ pre)) k) (interrupts regs k)
unfolding interrupts
advances-Resumed c pre x post [] k l irq r = absurd (omega arith)
advances-Resumed c [] x post (q ∷ (q' ∷ qs)) k l irq r = absurd (omega arith)
advances-Resumed c [] x post (q ∷ []) k l irq r =
    Returns-bind
      (scheduler_advance-IsRing c (x ∷ post) (record k { irq_regs = q }) irq
        (at_interrupt c (x ∷ post) k q r))
      λ t a.
        let n = NotIn-middle c [] x post r.distinct.0 in
        returns record {
          ring = a.1;
          irq = a.0.irq;
          first_run = a.0.started_first n;
          state = a.0.state n;
          resumes = a.0.resumes n;
        }
advances-Resumed c (d ∷ pre) x post (q ∷ qs) k l irq r =
    Returns-bind
      (scheduler_advance-IsRing c (d ∷ (pre ++ (x ∷ post))) (record k { irq_regs = q }) irq
        (at_interrupt c (d ∷ (pre ++ (x ∷ post))) k q r))
      λ t a.
        let n = NotIn-middle c (d ∷ pre) x post r.distinct.0 in
        let ring = subst (λ l. IsRing d l t) (append_assoc pre (x ∷ post) (c ∷ [])) a.1 in
        Returns-mono
          (λ u b. record {
            ring = subst (λ l. IsRing x l u) (append_assoc post (c ∷ []) (d ∷ pre)) b.ring;
            irq = b.irq;
            first_run = b.first_run;
            state = b.state;
            resumes =
                b.resumes
                ∙ ap (λ (q : ℕ). some (Event.resumed q))
                    (ap (λ g. g.user_regs) (a.0.others x (λ e. n (sym e))));
          })
          (advances-Resumed d pre x (post ++ (c ∷ [])) qs t (omega arith) a.0.irq ring)

-- In a ring of two tasks or more that has been running, as many interrupts that call `scheduler_advance`
-- as the ring has tasks, each with registers of its own, bring it back to the same task and the
-- same order, and the task goes on with the registers `q` of the first of them, which stopped it.
pub advances-round :
    (c d : ℕ) (ts : List ℕ) (q : ℕ) (regs : List ℕ) (k : Kernel)
    → length regs ≡ length (d ∷ ts)
    → k.irq_happening ≡ true
    → k.first_run ≡ false
    → IsRing c (d ∷ ts) k
    → Returns
        (λ u. IsRing c (d ∷ ts) u × (newest u.events ≡ some (Event.resumed q)))
        (interrupts (q ∷ regs) k)
unfolding interrupts
advances-round c d ts q regs k l irq ran r =
    Returns-bind
      (scheduler_advance-IsRing c (d ∷ ts) (record k { irq_regs = q }) irq
        (at_interrupt c (d ∷ ts) k q r))
      λ t a.
        Returns-mono
          (λ u b. (
            b.ring,
            b.resumes ∙ ap (λ (q : ℕ). some (Event.resumed q)) (a.0.saved r.distinct.0.0 ran),
          ))
          (advances-Resumed d ts c [] regs t l a.0.irq a.1)

-- a new task before each call of `scheduler_advance`
unfoldable pub crowd : List ℕ → Kernel → Outcome Kernel
crowd [] k = ok k
crowd (p ∷ ps) k = scheduler_add p k >>= λ t. scheduler_advance t >>= crowd ps

-- tasks that are none of `xs`
abbrev pub AllOff : (ps xs : List ℕ) → Type 0
AllOff [] xs = Unit
AllOff (p ∷ ps) xs = (p ≢ null) × NotIn p xs × AllOff ps xs

AllOff-turned :
    (p c : ℕ) (ts ps : List ℕ) → NotIn p ps → AllOff ps (c ∷ ts) → AllOff ps (p ∷ (ts ++ (c ∷ [])))
AllOff-turned p c ts [] h o = tt
AllOff-turned p c ts (q ∷ ps) h o =
    (o.0, ((λ e. h.0 (sym e)), NotIn-snoc q ts c o.1.1 o.1.0), AllOff-turned p c ts ps h.1 o.2)

-- the running task behind `crowd`, and those that ran before it
abbrev pub last_new : (c : ℕ) → List ℕ → ℕ
last_new c [] = c
last_new c (p ∷ ps) = last_new p ps

abbrev pub ran_before : (c : ℕ) → List ℕ → List ℕ
ran_before c [] = []
ran_before c (p ∷ ps) = c ∷ ran_before p ps

-- If a new task is added before each call of `scheduler_advance`, each call goes on to the new task: the
-- last of the new tasks `ps` runs, all tasks that wait behind the running one at first still wait, first
-- of all and in the same order, and behind them wait the task that ran and the other new tasks,
-- however many there are.
pub crowd-waits :
    (c : ℕ) (ts ps : List ℕ) (k : Kernel)
    → k.irq_happening ≡ true
    → AllOff ps (c ∷ ts)
    → Distinct ps
    → IsRing c ts k
    → Returns (λ u. IsRing (last_new c ps) (ts ++ ran_before c ps) u) (crowd ps k)
unfolding crowd
crowd-waits c ts [] k irq o g r = returns (subst (λ l. IsRing c l k) (sym (append-nil ts)) r)
crowd-waits c ts (p ∷ ps) k irq o g r =
    Returns-bind (scheduler_add-IsRing p c ts k o.0 o.1 r) λ t a.
      Returns-bind (scheduler_advance-IsRing c (p ∷ ts) t (a.1 ∙ irq) a.0) λ u b.
        Returns-mono
          (λ v z.
            subst (λ l. IsRing (last_new p ps) l v) (append_assoc ts (c ∷ []) (ran_before p ps)) z)
          (crowd-waits p (ts ++ (c ∷ [])) ps u b.0.irq (AllOff-turned p c ts ps g.0 o.2) g.1 b.1)
