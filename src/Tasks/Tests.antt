-- ===== src/Tasks/Tests.antt =====
-- Runs of the scheduler and of the process table, and the theorems at a ring of three tasks.
use brackos.Base.{
  ℕ, ◌≡◌, ◌≢◌, refl, true, false, some, [], ◌∷◌, ◌==◌, if◌then◌else◌, ◌⊎◌, ◌++◌, arith,
}
use brackos.Base.Outcome.{Outcome, ok, fault, Returns}
use brackos.Tasks.{
  Kernel, Task, Event, null, no_task, no_cpu, first_regs, max_tasks, zombie, task_create, task_kill,
  task_dealloc, scheduler_advance, pid_find_empty, switch_task, cpu_task_schedule,
  cpu_task_deschedule,
}
use brackos.Tasks.Ring.{IsRing, newest}
use brackos.Tasks.Turn.{
  Resumed, interrupts, advances-Resumed, advances-round, crowd, last_new, ran_before, crowd-waits,
}
use brackos.Tasks.Pid.{IsFirstFree, pid_find_empty-IsFirstFree, begins, Reached-kills_none}
use brackos.Tasks.Free.{task_dealloc-dangling}

abbrev task : (next regs : ℕ) → Task
task next regs = record no_task { next = next; cpu = record no_cpu { user_regs = regs } }

-- 100 runs, then come 200, which was killed, and 300.
abbrev three : Kernel
three = record {
  heap = λ q.
      if q == 100
      then task 200 1
      else if q == 200
      then record (task 300 2) { state = zombie }
      else task 100 3;
  regs = λ a. first_regs 0 0;
  table = λ i. null;
  current = 100;
  first_run = false;
  irq_happening = true;
  irq_regs = 77;
  blocks = 400 ∷ [];
  stacks = 8192 ∷ [];
  events = [];
}

current_of : Outcome Kernel → ℕ
current_of (ok k) = k.current
current_of other = 0

third : current_of (interrupts (1 ∷ (2 ∷ (3 ∷ (4 ∷ (5 ∷ []))))) three) ≡ 300
unfolding current_of interrupts scheduler_advance switch_task cpu_task_schedule cpu_task_deschedule
third = refl

three-IsRing : IsRing 100 (200 ∷ (300 ∷ [])) three
three-IsRing = record {
  path = (refl, omega arith, (refl, omega arith, (refl, omega arith, refl)));
  distinct = omega arith;
}

advances-Resumed_example :
    Returns (Resumed 300 (100 ∷ (200 ∷ [])) three) (interrupts (7 ∷ (8 ∷ [])) three)
advances-Resumed_example =
    advances-Resumed 100 (200 ∷ []) 300 [] (7 ∷ (8 ∷ [])) three refl refl three-IsRing

advances-round_example :
    Returns
      (λ u. IsRing 100 (200 ∷ (300 ∷ [])) u × (newest u.events ≡ some (Event.resumed 77)))
      (interrupts (77 ∷ (78 ∷ (79 ∷ []))) three)
advances-round_example =
    advances-round 100 200 (300 ∷ []) 77 (78 ∷ (79 ∷ [])) three refl refl refl three-IsRing

crowd-waits_example :
    Returns
      (λ u.
        IsRing
          (last_new 100 (400 ∷ (500 ∷ [])))
          ((200 ∷ (300 ∷ [])) ++ ran_before 100 (400 ∷ (500 ∷ [])))
          u)
      (crowd (400 ∷ (500 ∷ [])) three)
crowd-waits_example =
    crowd-waits 100 (200 ∷ (300 ∷ [])) (400 ∷ (500 ∷ [])) three refl (omega arith) (omega arith)
      three-IsRing

pid_find_empty-IsFirstFree_instance : IsFirstFree three.table 0 max_tasks (pid_find_empty three)
pid_find_empty-IsFirstFree_instance = pid_find_empty-IsFirstFree three

Reached-kills_none_example :
    (((task_create (0, 0) 9 three).0 ≡ null)
      ⊎ (((task_create (0, 0) 9 three).1.heap (task_create (0, 0) 9 three).0).pid ≡ 0))
    × (((7 ≡ max_tasks) × (task_kill 7 three ≡ fault))
        ⊎ ((7 ≢ max_tasks) × (task_kill 7 three ≡ ok three)))
Reached-kills_none_example = Reached-kills_none three (0, 0) 9 7 (begins (λ i. refl))

task_dealloc-dangling_instance :
    IsRing 100 (200 ∷ (300 ∷ [])) (task_dealloc 200 three)
    × (newest (task_dealloc 200 three).events ≡ some (Event.freed 200))
task_dealloc-dangling_instance =
    task_dealloc-dangling 100 (200 ∷ (300 ∷ [])) 200 three (omega arith) refl three-IsRing
