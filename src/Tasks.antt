-- ===== src/Tasks.antt =====
-- kernel/tasks/task.c, kernel/tasks/scheduler.c and arch/i386/tasks/cpu_task.c: tasks, their process ids and
-- the ring that the scheduler goes around in. A task is known by its address. The blocks that `kmalloc`
-- and the stacks that `memmap` hand out stand in lists, and what the code does to the hardware and to
-- memory that it gives back is a list of events, the newest first.
pub mod Ring
pub mod Turn
pub mod Pid
pub mod Free
mod Tests
use brackos.Base.{
  ℕ, zero, suc, ◌+◌, ◌*◌, ◌-◌, ◌%◌, ◌^◌, Bool, true, false, not, ◌&&◌, ◌||◌, List, [], ◌∷◌, ltb,
  leb, ◌==◌, if◌then◌else◌,
}
use brackos.Base.Outcome.{Outcome, ok, fault, ◌>>=◌}
use brackos.Base.Word.{add32, sub32}
use brackos.Std.Array.{Array, list_init}

abbrev pub null : ℕ
null = 0

-- `cpu_task_t`
pub record CpuTask : Type 0 where
  pub esp : ℕ
  pub cr3_phys : ℕ
  pub cr3_virt : ℕ
  pub stack_bottom : ℕ
  pub stack_top : ℕ
  pub user_regs : ℕ
  pub int_stack_bottom : ℕ
  pub int_stack_top : ℕ

-- `task_t`, with `files` as its two fields. A pid is a 32-bit pattern.
pub record Task : Type 0 where
  pub previous : ℕ
  pub next : ℕ
  pub name : ℕ
  pub pid : ℕ
  pub state : ℕ
  pub cpu : CpuTask
  pub max_fid : ℕ
  pub pairs : Array

-- the registers of `irq_regs_t` that the code sets
pub record IrqRegs : Type 0 where
  pub eflags : ℕ
  pub cs : ℕ
  pub eip : ℕ
  pub ebp : ℕ
  pub esp : ℕ
  pub ds : ℕ
  pub fs : ℕ
  pub es : ℕ

-- `cr3_read` is a call of `paging_load_directory`, which loads nothing.
pub data Event : Type 0 where
  freed : (block : ℕ) → Event
  unmapped : (base length : ℕ) → Event
  esp0_set : (esp : ℕ) → Event
  cr3_read : (directory : ℕ) → Event
  eoi_sent : (irq : ℕ) → Event
  resumed : (regs : ℕ) → Event
  countdown_added : (time : ℕ) → Event

-- `task_pid_table`, `current_task`, `first_run`, `irq_happening`, `irq_current_regs`, and memory
pub record Kernel : Type 0 where
  pub heap : ℕ → Task
  pub regs : ℕ → IrqRegs
  pub table : ℕ → ℕ
  pub current : ℕ
  pub first_run : Bool
  pub irq_happening : Bool
  pub irq_regs : ℕ
  pub blocks : List ℕ
  pub stacks : List ℕ
  pub events : List Event

-- `TASK_STATE_PREEMPT` and so on
abbrev pub preempt : ℕ
preempt = 0

abbrev pub zombie : ℕ
zombie = 3

abbrev pub started : ℕ
started = 4

-- `MAX_TASKS`, that is `(2 << 16) - 1`
abbrev pub max_tasks : ℕ
max_tasks = 131071

-- -1 as a 32-bit pattern, and the test for a negative one
abbrev pub minus_one : ℕ
minus_one = 4294967295

abbrev pub is_negative : ℕ → Bool
is_negative n = leb (2 ^ 31) n

-- the distance of `cpu` from the start of a task, `sizeof(irq_regs_t)`, and `TASK_STACK_SIZE`
abbrev cpu_offset : ℕ
cpu_offset = 20

abbrev regs_size : ℕ
regs_size = 68

abbrev stack_size : ℕ
stack_size = 4096

abbrev pub put : ℕ → Task → Kernel → Kernel
put p t k = record k { heap = λ q. if q == p then t else k.heap q }

-- `*p`
abbrev pub load : ℕ → Kernel → Outcome Task
load p k = if p == null then fault else ok (k.heap p)

abbrev pub log : Event → Kernel → Kernel
log e k = record k { events = e ∷ k.events }

-- `kmalloc(sizeof(task_t))`, and `memmap` of a stack
abbrev pub new_block : Kernel → ℕ × Kernel
new_block k = elim k.blocks [ [] ↦ (null, k) | p ∷ ps ↦ (p, record k { blocks = ps }) ]

abbrev pub new_stack : Kernel → ℕ × Kernel
new_stack k = elim k.stacks [ [] ↦ (null, k) | p ∷ ps ↦ (p, record k { stacks = ps }) ]

abbrev pub no_cpu : CpuTask
no_cpu = record {
  esp = 0;
  cr3_phys = 0;
  cr3_virt = 0;
  stack_bottom = 0;
  stack_top = 0;
  user_regs = 0;
  int_stack_bottom = 0;
  int_stack_top = 0;
}

-- a task after `memset`
abbrev pub no_task : Task
no_task = record {
  previous = 0;
  next = 0;
  name = 0;
  pid = 0;
  state = 0;
  cpu = no_cpu;
  max_fid = 0;
  pairs = list_init;
}

-- the loop of `pid_find_empty`
unfoldable pub find_empty : (rounds i : ℕ) → (table : ℕ → ℕ) → ℕ
find_empty zero i table = minus_one
find_empty (suc rounds) i table =
    let rest = find_empty rounds (i + 1) table in if table i == null then i else rest

unfoldable pub pid_find_empty : Kernel → ℕ
pid_find_empty k = find_empty max_tasks 0 k.table

-- `cpu_task_alloc` of the task `p`; `copy` is what `page_directory_copy` stores.
unfoldable pub cpu_task_alloc : (copy : ℕ × ℕ) → (p : ℕ) → Kernel → Kernel
cpu_task_alloc (phys, virt) p k =
    let (stack, k1) = new_stack k in
    let t = k1.heap p in
    if stack == null
    then log (Event.freed (p + cpu_offset))
        (put p (record t { cpu = record t.cpu { int_stack_bottom = null } }) k1)
    else put p
        (record t {
          cpu = record t.cpu {
            int_stack_bottom = stack;
            int_stack_top = add32 stack stack_size;
            cr3_phys = phys;
            cr3_virt = virt;
          };
        })
        k1

unfoldable pub cpu_task_dealloc : CpuTask → Kernel → Kernel
cpu_task_dealloc c k =
    let k1 =
      if c.stack_bottom == null then k else log (Event.unmapped c.stack_bottom stack_size) k in
    if c.int_stack_bottom == null then k1 else log (Event.unmapped c.int_stack_bottom stack_size) k1

abbrev pub first_regs : (address top : ℕ) → IrqRegs
first_regs address top = record {
  eflags = 514;
  cs = 8;
  eip = address;
  ebp = top;
  esp = top;
  ds = 16;
  fs = 16;
  es = 16;
}

unfoldable pub cpu_task_kernel_init : (address p : ℕ) → Kernel → Kernel
cpu_task_kernel_init address p k =
    let (stack, k1) = new_stack k in
    let t = k1.heap p in
    let c = record t.cpu { stack_bottom = stack } in
    let top = sub32 (add32 stack stack_size) regs_size in
    if stack == null
    then cpu_task_dealloc c (put p (record t { cpu = c }) k1)
    else put p (record t { cpu = record c { stack_top = top; user_regs = top } })
        (record k1 { regs = λ a. if a == top then first_regs address top else k1.regs a })

-- The answer is the task's address.
unfoldable pub task_create : (copy : ℕ × ℕ) → (name : ℕ) → Kernel → ℕ × Kernel
task_create copy name k =
    let (p, k1) = new_block k in
    let pid = pid_find_empty k1 in
    let t = record no_task { name = name; pid = pid; state = started } in
    let k2 = put p t k1 in
    let k3 = cpu_task_alloc copy p k2 in
    if p == null
    then (null, k1)
    else if is_negative pid
    then (null, log (Event.freed p) k2)
    else (p, put p (record (k3.heap p) { max_fid = 0; pairs = list_init }) k3)

unfoldable pub task_kernel_create : (copy : ℕ × ℕ) → (name address : ℕ) → Kernel → ℕ × Kernel
task_kernel_create copy name address k =
    let (p, k1) = task_create copy name k in
    if p == null then (null, k1) else (p, cpu_task_kernel_init address p k1)

-- What stands in the table behind its end is not known.
unfoldable pub task_kill : (pid : ℕ) → Kernel → Outcome Kernel
task_kill pid k =
    if is_negative pid || ltb max_tasks pid
    then ok k
    else if pid == max_tasks
    then fault
    else if k.table pid == null
    then ok k
    else if (k.heap (k.table pid)).state == zombie
    then ok k
    else ok (put (k.table pid) (record (k.heap (k.table pid)) { state = zombie }) k)

-- `task->previous->next = task->next`, and back
abbrev pub unlink_task : Task → Kernel → Kernel
unlink_task t k =
    let k1 =
      if t.previous == null
      then k
      else put t.previous (record (k.heap t.previous) { next = t.next }) k in
    if t.next == null then k1 else put t.next (record (k1.heap t.next) { previous = t.previous }) k1

unfoldable pub task_dealloc : (p : ℕ) → Kernel → Kernel
task_dealloc p k =
    let t = k.heap p in
    let k1 =
      if t.pid == minus_one
      then k
      else record k { table = λ i. if i == t.pid then null else k.table i } in
    let k2 = unlink_task t k1 in
    if p == null then k else log (Event.freed p) (cpu_task_dealloc (k2.heap p).cpu k2)

-- `irq_save_regs` into the task `p`, `tss_update` and what comes behind it
unfoldable pub cpu_task_deschedule : (p : ℕ) → Kernel → Kernel
cpu_task_deschedule p k =
    put p (record (k.heap p) { cpu = record (k.heap p).cpu { user_regs = k.irq_regs } }) k

unfoldable pub cpu_task_schedule : CpuTask → Kernel → Kernel
cpu_task_schedule c k = log (Event.resumed c.user_regs) (
    log (Event.eoi_sent 0)
      (log (Event.cr3_read c.cr3_phys) (log (Event.esp0_set c.int_stack_top) k)))

-- the branch of `scheduler_advance` that goes from the task `previous` to the task `now`
unfoldable pub switch_task : (previous now : ℕ) → Kernel → Kernel
switch_task previous now k =
    let k1 = put now (record (k.heap now) { state = preempt }) k in
    let k2 =
      if k1.first_run then record k1 { first_run = false } else cpu_task_deschedule previous k1 in
    cpu_task_schedule (k2.heap now).cpu k2

unfoldable pub scheduler_advance : Kernel → Outcome Kernel
scheduler_advance k =
    if not k.irq_happening
    then ok k
    else (load k.current k >>= λ previous_task. load previous_task.next k >>= λ task.
        if not (previous_task.next == k.current) || task.state == started
        then ok
            (switch_task k.current previous_task.next (record k { current = previous_task.next }))
        else ok (record k { current = previous_task.next }))

unfoldable pub scheduler_add : (p : ℕ) → Kernel → Outcome Kernel
scheduler_add p k = load k.current k >>= λ now. load p k >>= λ task.
    let k1 = put p (record task { next = now.next }) k in
    ok (put k1.current (record (k1.heap k1.current) { next = p }) k1)

unfoldable pub scheduler_init : (first : ℕ) → Kernel → Outcome Kernel
scheduler_init first k = load first k >>= λ t. ok (
    log (Event.countdown_added 10)
      (put first (record t { next = first }) (record k { current = first })))

unfoldable pub task_init : (copy : ℕ × ℕ) → (name address : ℕ) → Kernel → Outcome Kernel
task_init copy name address k =
    let (p, k1) = task_kernel_create copy name address (record k { table = λ i. null }) in
    if p == null then ok k1 else scheduler_init p k1
