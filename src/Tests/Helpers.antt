-- ===== src/Tests/Helpers.antt =====
-- The tasks of the root task, on the toy kernel.
use rust_root_task_demo_mi_d.Prelude.{◌≡◌, refl, [], arith, ok}
use rust_root_task_demo_mi_d.BTree.{get}
use rust_root_task_demo_mi_d.KernelThread.Task
use rust_root_task_demo_mi_d.KernelThread.Task.Mapping.{IsConsistent}
use rust_root_task_demo_mi_d.KernelThread.Mm.Ranges.{MapsRange}
use rust_root_task_demo_mi_d.TaskHelper.{Helper, root_helper, map_page, map_stack}
use rust_root_task_demo_mi_d.TaskHelper.Agree.{as_context, Agree, map_page-Agree}
use rust_root_task_demo_mi_d.TaskHelper.Stack.{map_stack_lem}
use rust_root_task_demo_mi_d.Tests.ToyKernel.{toy}
use rust_root_task_demo_mi_d.Tests.ToyMapping.{toy_map_laws}
use rust_root_task_demo_mi_d.Tests.Threads.{task_of, empty_kernel, empty_kernel-Slots}

abbrev new_helper : Helper toy
new_helper = record {
  machine = record {
    kernel = empty_kernel;
    allocator = record { next = 70; limit = 4096; ut = 1 };
  };
  vectors = λ i. [];
  task = record {
    tcb = 40;
    cnode = 50;
    vspace = 60;
    mapped_pt = 0;
    mapped_page = [];
    stack_bottom = 0x1_0000_0000;
  };
}

map_page-Agree_example :
    Agree toy
      (task_of 1)
      new_helper
      (Task.map_page {k = toy} 0x5000 61 (as_context toy (task_of 1) new_helper))
      (map_page (root_helper toy) 0x5000 61 new_helper)
map_page-Agree_example = map_page-Agree toy (task_of 1) 0x5000 61 new_helper

new_helper-IsConsistent : IsConsistent toy toy_map_laws (as_context toy (task_of 1) new_helper)
unfolding get
new_helper-IsConsistent = record { synced = λ b. refl; shallow = λ b u. omega arith; rising = tt }

map_stack_example :
    (h' : Helper toy) × (map_stack (root_helper toy) 2 new_helper ≡ (h', ok tt))
    × MapsRange 0xffff_e000 2
        (as_context toy (task_of 1) new_helper).task
        (as_context toy (task_of 1) h').task
    × (h'.task.stack_bottom ≡ 0xffff_e000)
    × IsConsistent toy toy_map_laws (as_context toy (task_of 1) h')
unfolding get
map_stack_example =
    map_stack_lem toy toy_map_laws (task_of 1) 2 0xffff_e000 new_helper refl refl (omega arith)
      (omega arith) (λ b l h. refl) new_helper-IsConsistent
      (record {
        left = omega arith;
        supplied = omega arith;
        slots = empty_kernel-Slots 70 (omega arith) (omega arith);
      })
