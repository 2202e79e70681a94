-- ===== src/Tests/Stacks.antt =====
-- The stack of a task, on the toy kernel.
use rust_root_task_demo_mi_d.Prelude.{◌≡◌, refl, [], ◌∷◌, arith, ok, Returns}
use rust_root_task_demo_mi_d.KernelThread.Server.{Errno}
use rust_root_task_demo_mi_d.KernelThread.Task.{Context, map_page, map_rounds, mapped, add_table}
use rust_root_task_demo_mi_d.Alloc.{
  allocate_and_retyped_fixed_sized, allocate_and_retype, allocate_slot, next_slot, new_cnode,
  retype,
}
use rust_root_task_demo_mi_d.KernelThread.Stack.{
  Desktop, map_stack, stack_pages, fill_stack, push_stack, push_args, push_nums,
}
use rust_root_task_demo_mi_d.KernelThread.Stack.Aligned.{IsStackPtr, map_stack-IsStackPtr}
use rust_root_task_demo_mi_d.Tests.ToyKernel.{toy}
use rust_root_task_demo_mi_d.Tests.Threads.{task_of, empty_kernel}

abbrev pub toy_desktop : Desktop toy
toy_desktop = record {
  own_vspace = 1;
  page_seat_vaddr = 0x9000;
  write_bytes = λ addr bytes s. s;
  write_word = λ addr word s. s;
  revoke = λ cap s. (s, ok tt);
  delete = λ cap s. (s, ok tt);
}

abbrev new_stack : Context toy
new_stack = record {
  machine = record {
    kernel = empty_kernel;
    allocator = record { next = 70; limit = 4000; ut = 1 };
  };
  task = task_of 1;
}

-- Two arguments, as those of exec: the stack pointer is 8 away from a multiple of 16.
map_stack-IsStackPtr_example : Returns (IsStackPtr 2) (
    map_stack {E = Errno} toy_desktop 0 0xe000 0x1_0000
      ((98 ∷ 117 ∷ []) ∷ (45 ∷ []) ∷ [])
      new_stack)
map_stack-IsStackPtr_example =
    map_stack-IsStackPtr Errno toy_desktop 0 0xe000 1 ((98 ∷ 117 ∷ []) ∷ (45 ∷ []) ∷ []) new_stack
      (omega arith)

-- The stack is built, with this stack pointer.
stack_pointer :
    (map_stack {E = Errno} toy_desktop 0 0xe000 0x1_0000
      ((98 ∷ 117 ∷ []) ∷ (45 ∷ []) ∷ [])
      new_stack).1
    ≡ ok 0xff38
unfolding map_stack stack_pages fill_stack push_stack push_args push_nums map_page map_rounds mapped
    add_table allocate_and_retyped_fixed_sized allocate_and_retype allocate_slot next_slot new_cnode
    retype
stack_pointer = refl
