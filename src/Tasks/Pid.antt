-- ===== src/Tasks/Pid.antt =====
-- kernel/tasks/task.c: the process ids, and what a task leaves behind in the ring.
use mathlib.Core.Path.{subst}
use brackos.Base.{
  ℕ, zero, suc, ◌+◌, ◌≤◌, ◌<◌, ◌≡◌, ◌≢◌, refl, ap, ◌∙◌, ◌⊎◌, Bool, true, false, ◌==◌, if◌then◌else◌,
  Bool-cases, inl, inr, arith,
}
use brackos.Base.Outcome.{ok, fault, ok-injective}
use brackos.Tasks.{
  Kernel, CpuTask, null, new_stack, new_block, minus_one, max_tasks, is_negative, find_empty,
  pid_find_empty, cpu_task_alloc, cpu_task_dealloc, cpu_task_kernel_init, task_create,
  task_kernel_create, task_kill, task_dealloc, scheduler_advance, scheduler_add, scheduler_init,
  task_init, switch_task, cpu_task_schedule, cpu_task_deschedule,
}

-- `pid` is the first entry from `from` on, before `to`, that is free, and -1 if there is none.
abbrev pub IsFirstFree : (table : ℕ → ℕ) → (from to pid : ℕ) → Type 0
IsFirstFree table from to pid =
    ((from ≤ pid)
      × (pid < to)
      × (table pid ≡ null)
      × ((i : ℕ) → from ≤ i → i < pid → table i ≢ null))
    ⊎ ((pid ≡ minus_one) × ((i : ℕ) → from ≤ i → i < to → table i ≢ null))

find_empty-IsFirstFree :
    (rounds i : ℕ) (table : ℕ → ℕ) → IsFirstFree table i (i + rounds) (find_empty rounds i table)
unfolding find_empty
find_empty-IsFirstFree zero i table = inr (refl, λ j a b. absurd (omega arith))
find_empty-IsFirstFree (suc rounds) i table = elim (Bool-cases (table i == null)) [
  | inl e ↦ rw e (inl (omega arith, omega arith, ground arith, λ j a b. absurd (omega arith)))
  | inr e ↦ rw e (further (ground arith) (find_empty-IsFirstFree rounds (i + 1) table))
]
  where
    first : table i ≢ null → (j : ℕ) → i ≤ j → (i + 1 ≤ j → table j ≢ null) → table j ≢ null
    first n j a f = elim (Bool-cases (i == j)) [
      | inl e ↦ subst (λ q. table q ≢ null) (ground arith) n
      | inr e ↦ f (ground arith)
    ]

    further :
        table i ≢ null
        → IsFirstFree table (i + 1) (i + 1 + rounds) (find_empty rounds (i + 1) table)
        → IsFirstFree table i (i + suc rounds) (find_empty rounds (i + 1) table)
    further n (inl h) = inl (omega arith, omega arith, h.2, λ j a b. first n j a (λ c. h.3 j c b))
    further n (inr h) = inr (h.0, λ j a b. first n j a (λ c. h.1 j c (omega arith)))

-- `pid_find_empty` answers the least process id that the table has free, and -1 only if all
-- `max_tasks` entries are taken.
pub pid_find_empty-IsFirstFree : (k : Kernel) → IsFirstFree k.table 0 max_tasks (pid_find_empty k)
unfolding pid_find_empty
pid_find_empty-IsFirstFree k = find_empty-IsFirstFree max_tasks 0 k.table

-- one call into the tasks, or an interrupt's begin or end
pub data Step (k : Kernel) : Kernel → Type 0 where
  inits :
      {t : Kernel} (copy : ℕ × ℕ) (name address : ℕ)
      → task_init copy name address k ≡ ok t
      → Step k t
  creates : {t : Kernel} (copy : ℕ × ℕ) (name : ℕ) → (task_create copy name k).1 ≡ t → Step k t
  creates_kernel :
      {t : Kernel} (copy : ℕ × ℕ) (name address : ℕ)
      → (task_kernel_create copy name address k).1 ≡ t
      → Step k t
  kills : {t : Kernel} (pid : ℕ) → task_kill pid k ≡ ok t → Step k t
  frees : {t : Kernel} (p : ℕ) → task_dealloc p k ≡ t → Step k t
  adds : {t : Kernel} (p : ℕ) → scheduler_add p k ≡ ok t → Step k t
  advances : {t : Kernel} → scheduler_advance k ≡ ok t → Step k t
  interrupts :
      {t : Kernel} (b : Bool) (regs : ℕ)
      → record k { irq_happening = b; irq_regs = regs } ≡ t
      → Step k t

-- the states that calls lead to, from a table that is empty, as the linker leaves it
pub data Reached : Kernel → Type 0 where
  begins : {k : Kernel} → ((i : ℕ) → k.table i ≡ null) → Reached k
  goes : {k t : Kernel} → Reached k → Step k t → Reached t

stack-table : (k : Kernel) → (new_stack k).1.table ≡ k.table
stack-table k = ground arith

block-table : (k : Kernel) → (new_block k).1.table ≡ k.table
block-table k = ground arith

alloc-table : (copy : ℕ × ℕ) (p : ℕ) (k : Kernel) → (cpu_task_alloc copy p k).table ≡ k.table
unfolding cpu_task_alloc
alloc-table (phys, virt) p k = elim (Bool-cases ((new_stack k).0 == null)) [
  | inl e ↦ rw (e, stack-table k) refl
  | inr e ↦ rw (e, stack-table k) refl
]

dealloc-table : (c : CpuTask) (k : Kernel) → (cpu_task_dealloc c k).table ≡ k.table
unfolding cpu_task_dealloc
dealloc-table c k = ground arith

init-table : (address p : ℕ) (k : Kernel) → (cpu_task_kernel_init address p k).table ≡ k.table
unfolding cpu_task_kernel_init
init-table address p k = elim (Bool-cases ((new_stack k).0 == null)) [
  | inl e ↦ rw (e, dealloc-table, stack-table k) refl
  | inr e ↦ rw (e, stack-table k) refl
]

create-table : (copy : ℕ × ℕ) (name : ℕ) (k : Kernel) → (task_create copy name k).1.table ≡ k.table
unfolding task_create
create-table copy name k = elim (Bool-cases ((new_block k).0 == null)) [
  | inl e ↦ rw (e, block-table k) refl
  | inr e ↦ rw e (elim (Bool-cases (is_negative (pid_find_empty (new_block k).1))) [
    | inl n ↦ rw (n, block-table k) refl
    | inr n ↦ rw (n, alloc-table, block-table k) refl
  ])
]

kernel-table :
    (copy : ℕ × ℕ) (name address : ℕ) (k : Kernel)
    → (task_kernel_create copy name address k).1.table ≡ k.table
unfolding task_kernel_create
kernel-table copy name address k = elim (Bool-cases ((task_create copy name k).0 == null)) [
  | inl e ↦ rw (e, create-table copy name k) refl
  | inr e ↦ rw (e, init-table, create-table copy name k) refl
]

kill-table : (pid : ℕ) (k t : Kernel) → task_kill pid k ≡ ok t → t.table ≡ k.table
unfolding task_kill
kill-table pid k t e = ground arith

add-table : (p : ℕ) (k t : Kernel) → scheduler_add p k ≡ ok t → t.table ≡ k.table
unfolding scheduler_add
add-table p k t e = ground arith

switch-table : (c d : ℕ) (k : Kernel) → (switch_task c d k).table ≡ k.table
unfolding switch_task cpu_task_schedule cpu_task_deschedule
switch-table c d k = ground arith

advance-table : (k t : Kernel) → scheduler_advance k ≡ ok t → t.table ≡ k.table
unfolding scheduler_advance
advance-table k t e =
    let f =
      switch-table k.current (k.heap k.current).next
        (record k { current = (k.heap k.current).next }) in
    ground (arith, f)

free-table : (p : ℕ) (k : Kernel) (i : ℕ) → k.table i ≡ null → (task_dealloc p k).table i ≡ null
unfolding task_dealloc
free-table p k i e = elim (Bool-cases (p == null)) [
  | inl z ↦ rw z e
  | inr z ↦ rw (z, dealloc-table) (ground arith)
]

init_scheduler-table : (p : ℕ) (k t : Kernel) → scheduler_init p k ≡ ok t → t.table ≡ k.table
unfolding scheduler_init
init_scheduler-table p k t e = ground arith

start-table :
    (b : Bool) (p : ℕ) (k t : Kernel) (i : ℕ)
    → k.table i ≡ null
    → (if b then ok k else scheduler_init p k) ≡ ok t
    → t.table i ≡ null
start-table true p k t i f e = subst (λ u. u.table i ≡ null) (ok-injective e) f
start-table false p k t i f e = ap (λ g. g i) (init_scheduler-table p k t e) ∙ f

init_tasks-table :
    (copy : ℕ × ℕ) (name address : ℕ) (k t : Kernel)
    → task_init copy name address k ≡ ok t
    → (i : ℕ) → t.table i ≡ null
unfolding task_init
init_tasks-table copy name address k t e i =
    let k0 = record k { table = λ j. null } in
    let made = task_kernel_create copy name address k0 in
    start-table (made.0 == null) made.0 made.1 t i
      (ap (λ g. g i) (kernel-table copy name address k0)) e

-- In every state that the calls lead to, the table is empty: nothing writes a task into it.
pub Reached-unlisted : {k : Kernel} → Reached k → (i : ℕ) → k.table i ≡ null
Reached-unlisted (begins h) i = h i
Reached-unlisted (goes {k} {t} r s) i = kept s (Reached-unlisted r i)
  where
    kept : Step k t → k.table i ≡ null → t.table i ≡ null
    kept (inits copy name address e) h = init_tasks-table copy name address k t e i
    kept (creates copy name e) h =
        subst (λ u. u.table i ≡ null) e (ap (λ g. g i) (create-table copy name k) ∙ h)
    kept (creates_kernel copy name address e) h =
        subst (λ u. u.table i ≡ null) e (ap (λ g. g i) (kernel-table copy name address k) ∙ h)
    kept (kills pid e) h = ap (λ g. g i) (kill-table pid k t e) ∙ h
    kept (frees p e) h = subst (λ u. u.table i ≡ null) e (free-table p k i h)
    kept (adds p e) h = ap (λ g. g i) (add-table p k t e) ∙ h
    kept (advances e) h = ap (λ g. g i) (advance-table k t e) ∙ h
    kept (interrupts b regs e) h = subst (λ u. u.table i ≡ null) e h

stack-heap : (k : Kernel) → (new_stack k).1.heap ≡ k.heap
stack-heap k = ground arith

alloc-pid :
    (copy : ℕ × ℕ) (p : ℕ) (k : Kernel) → ((cpu_task_alloc copy p k).heap p).pid ≡ (k.heap p).pid
unfolding cpu_task_alloc
alloc-pid (phys, virt) p k =
    let same : (p == p) ≡ true = ground arith in
    elim (Bool-cases ((new_stack k).0 == null)) [
      | inl e ↦ rw (e, same, stack-heap k) refl
      | inr e ↦ rw (e, same, stack-heap k) refl
    ]

unlisted_pid : (k : Kernel) → k.table 0 ≡ null → pid_find_empty k ≡ 0
unlisted_pid k e = go (pid_find_empty-IsFirstFree k)
  where
    go : IsFirstFree k.table 0 max_tasks (pid_find_empty k) → pid_find_empty k ≡ 0
    go (inl h) = elim (Bool-cases (pid_find_empty k == 0)) [
      | inl z ↦ ground arith
      | inr z ↦ absurd (h.3 0 (omega arith) (ground arith) e)
    ]
    go (inr h) = absurd (h.1 0 (omega arith) (omega arith) e)

create-pid :
    (copy : ℕ × ℕ) (name : ℕ) (k : Kernel)
    → k.table 0 ≡ null
    → ((task_create copy name k).0 ≡ null)
      ⊎ (((task_create copy name k).1.heap (task_create copy name k).0).pid ≡ 0)
unfolding task_create
create-pid copy name k e =
    let f : pid_find_empty (new_block k).1 ≡ 0 =
      unlisted_pid (new_block k).1 (ap (λ g. g 0) (block-table k) ∙ e) in
    let n : is_negative (pid_find_empty (new_block k).1) ≡ false = rw f refl in
    let same : ((new_block k).0 == (new_block k).0) ≡ true = ground arith in
    elim (Bool-cases ((new_block k).0 == null)) [
      | inl z ↦ rw z (inl refl)
      | inr z ↦ rw (z, n) (inr (rw (same, alloc-pid, same, f) refl))
    ]

kill-none :
    (pid : ℕ) (k : Kernel)
    → k.table pid ≡ null
    → ((pid ≡ max_tasks) × (task_kill pid k ≡ fault))
      ⊎ ((pid ≢ max_tasks) × (task_kill pid k ≡ ok k))
unfolding task_kill
kill-none pid k e = elim (Bool-cases (pid == max_tasks)) [
  | inl z ↦ inl (ground arith, ground arith)
  | inr z ↦ inr (ground arith, ground arith)
]

-- In every state that the calls lead to, each task that `task_create` makes gets the process id 0, and
-- `task_kill` of any process id but `max_tasks`, where it reads behind the table, kills nothing.
pub Reached-kills_none :
    (k : Kernel) (copy : ℕ × ℕ) (name pid : ℕ)
    → Reached k
    → (((task_create copy name k).0 ≡ null)
        ⊎ (((task_create copy name k).1.heap (task_create copy name k).0).pid ≡ 0))
      × (((pid ≡ max_tasks) × (task_kill pid k ≡ fault))
          ⊎ ((pid ≢ max_tasks) × (task_kill pid k ≡ ok k)))
Reached-kills_none k copy name pid r =
    (create-pid copy name k (Reached-unlisted r 0), kill-none pid k (Reached-unlisted r pid))
