-- ===== src/Tasks/Free.antt =====
-- kernel/tasks/task.c: what task_dealloc leaves behind in the ring.
use brackos.Base.{ℕ, ◌≡◌, ◌≢◌, refl, ◌∙◌, some, false, List, ◌∷◌, ◌==◌, Bool-cases, inl, inr, arith}
use brackos.Tasks.{Kernel, CpuTask, Event, null, cpu_task_dealloc, task_dealloc}
use brackos.Tasks.Ring.{IsRing, Links-same, newest}

dealloc-heap : (c : CpuTask) (k : Kernel) → (cpu_task_dealloc c k).heap ≡ k.heap
unfolding cpu_task_dealloc
dealloc-heap c k = ground arith

dealloc-current : (c : CpuTask) (k : Kernel) → (cpu_task_dealloc c k).current ≡ k.current
unfolding cpu_task_dealloc
dealloc-current c k = ground arith

free-current : (p : ℕ) (k : Kernel) → (task_dealloc p k).current ≡ k.current
unfolding task_dealloc
free-current p k = elim (Bool-cases (p == null)) [
  | inl z ↦ rw z refl
  | inr z ↦ rw (z, dealloc-current) (ground arith)
]

free-event :
    (p : ℕ) (k : Kernel) → p ≢ null → newest (task_dealloc p k).events ≡ some (Event.freed p)
unfolding task_dealloc
free-event p k n = let z : (p == null) ≡ false = ground arith in rw z refl

free-links :
    (p : ℕ) (k : Kernel)
    → p ≢ null
    → (k.heap p).previous ≡ null
    → (q : ℕ) → ((task_dealloc p k).heap q).next ≡ (k.heap q).next
unfolding task_dealloc
free-links p k n e q =
    let z : (p == null) ≡ false = ground arith in rw (z, dealloc-heap) (ground arith)

-- `task_dealloc` of a task in whose `previous` there is nothing, which is so for every task that
-- scheduler_add put into the ring, gives its memory back, and leaves it in the ring.
pub task_dealloc-dangling :
    (c : ℕ) (ts : List ℕ) (p : ℕ) (k : Kernel)
    → p ≢ null
    → (k.heap p).previous ≡ null
    → IsRing c ts k
    → IsRing c ts (task_dealloc p k) × (newest (task_dealloc p k).events ≡ some (Event.freed p))
task_dealloc-dangling c ts p k n e r = (
  record {
    path =
        let w =
          Links-same k.heap (task_dealloc p k).heap k.current (c ∷ ts) c (free-links p k n e)
            r.path in
        (free-current p k ∙ w.0, w.1, w.2);
    distinct = r.distinct;
  },
  free-event p k n,
)
