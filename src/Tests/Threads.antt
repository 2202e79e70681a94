-- ===== src/Tests/Threads.antt =====
-- The thread system calls and page faults of the kernel thread, on the toy kernel.
use rust_root_task_demo_mi_d.Prelude.{
  ℕ, ◌+◌, ◌<◌, ◌≤◌, ◌≡◌, refl, [], ◌∷◌, none, arith, ok, ◌==◌, ==_false, ==_refl, true, false,
  if◌then◌else◌,
}
use rust_root_task_demo_mi_d.BTree.{get, insert}
use rust_root_task_demo_mi_d.Sel4.{index_of}
use rust_root_task_demo_mi_d.Alloc.{cnode_of, slot_of}
use rust_root_task_demo_mi_d.Alloc.Steps.{Slots}
use rust_root_task_demo_mi_d.KernelThread.Task.{Sel4Task, Context}
use rust_root_task_demo_mi_d.KernelThread.Task.Mapping.{IsConsistent}
use rust_root_task_demo_mi_d.KernelThread.Server.{Server}
use rust_root_task_demo_mi_d.KernelThread.Thread.{vm_fault}
use rust_root_task_demo_mi_d.KernelThread.Thread.Fault.{ResumeLaws, vm_fault_lem}
use rust_root_task_demo_mi_d.Tests.ToyKernel.{
  Slot, vacant, unmapped, ToyState, toy, put, toy_page_at, toy_retype_laws,
}
use rust_root_task_demo_mi_d.Tests.ToyMapping.{toy_map_laws}

abbrev pub task_of : ℕ → Sel4Task
task_of id = record {
  pid = 0;
  id = id;
  tcb = 40 + id;
  cnode = 50;
  vspace = 60;
  mapped_pt = [];
  mapped_page = [];
  heap = 0x2_0000_0000;
  exit = none;
  clear_child_tid = none;
}

-- The capability of a TCB is in slot 41, and one of a frame in slot 61.
abbrev pub old_slots : ℕ → Slot
old_slots i = if i == 41 then unmapped 103 else if i == 61 then unmapped 100 else vacant

abbrev pub empty_kernel : ToyState
empty_kernel = record {
  room = 100;
  tables_missing = 3;
  cnodes = λ c. c == 0;
  slots = old_slots;
  pages = λ a. none;
  running = λ tcb. false;
}

-- The slots after the first 62 are empty, and so are the root CNode's but for the first.
pub empty_kernel-Slots :
    (next : ℕ) → 62 ≤ next → next < 4096 → Slots toy toy_retype_laws next next 4096 empty_kernel
empty_kernel-Slots next old small = record {
  vacant = λ raw l u. (
    rw (
      ==_false (index_of (cnode_of raw) (slot_of raw)) 41 (omega arith),
      ==_false (index_of (cnode_of raw) (slot_of raw)) 61 (omega arith),
    ),
    omega arith,
  );
  roots = λ c l u. ==_false c 0 (omega arith);
  cnodes = λ c l. let first : c ≡ 0 = omega arith in rw first;
}

abbrev pub two_tasks : Server toy
two_tasks = record {
  machine = record {
    kernel = empty_kernel;
    allocator = record { next = 70; limit = 4096; ut = 1 };
  };
  tasks = (1, task_of 1) ∷ (2, task_of 2) ∷ [];
}

abbrev faulting : Context toy
faulting = record { machine = two_tasks.machine; task = task_of 1 }

faulting-IsConsistent : IsConsistent toy toy_map_laws faulting
unfolding get
faulting-IsConsistent = record { synced = λ b. refl; shallow = λ b u. omega arith; rising = tt }

toy-resume :
    (tcb : ℕ) (s : ToyState)
    → s.slots tcb ≡ unmapped 103
    → (s' : ToyState) × (toy.tcb_resume tcb s ≡ (s', ok tt))
      × (s'.running tcb ≡ true)
      × ((v b : ℕ) → toy_page_at s' b ≡ toy_page_at s b)
      × ((v b : ℕ) → s'.tables_missing ≡ s.tables_missing)
toy-resume tcb s held = (
  record s { running = put s.running tcb true },
  rw held refl,
  rw (==_refl tcb),
  λ v b. refl,
  λ v b. refl,
)

abbrev toy_resume_laws : ResumeLaws toy toy_map_laws
toy_resume_laws = record { Running = λ s tcb. s.running tcb ≡ true; resume = toy-resume }

vm_fault_lem_example :
    (c' : Context toy) × (vm_fault {k = toy} 1 0x5123 two_tasks ≡ (
      record {
        machine = c'.machine;
        tasks = insert 1 c'.task ((1, task_of 1) ∷ (2, task_of 2) ∷ []);
      },
      ok tt,
    ))
    × (c'.task
        ≡ record (task_of 1) { mapped_pt = c'.task.mapped_pt; mapped_page = insert 0x5000 70 [] })
    × IsConsistent toy toy_map_laws c'
    × (c'.machine.kernel.running 41 ≡ true)
unfolding get
vm_fault_lem_example =
    vm_fault_lem toy toy_map_laws toy_resume_laws 1 0x5123 (task_of 1) two_tasks refl (omega arith)
      (omega arith) refl refl faulting-IsConsistent
      (record {
        left = omega arith;
        supplied = omega arith;
        slots = empty_kernel-Slots 70 (omega arith) (omega arith);
      })
