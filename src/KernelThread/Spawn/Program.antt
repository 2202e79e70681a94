-- ===== src/KernelThread/Spawn/Program.antt =====
-- What new tasks are made of: the images and calls that `sys_exec`, `sys_clone` and `test_child` use,
-- crates/kernel-thread/src/syscall/thread/task.rs and crates/kernel-thread/src/child_test.rs, and the
-- flags and arguments of clone of crates/common/src/uspace.rs.
use rust_root_task_demo_mi_d.Prelude.{
  ℕ, ◌+◌, ◌-◌, ◌*◌, ◌/◌, ◌^◌, max, List, [], ◌∷◌, Option, none, some, wrap64, Exec,
}
use rust_root_task_demo_mi_d.Sel4.{Kernel}
use rust_root_task_demo_mi_d.Image.{Loader, Segment}
use rust_root_task_demo_mi_d.KernelThread.Stack.{Desktop, ProgramHeader}

-- The registers of a thread that the code names, and the general ones.
pub record UserContext : Type 0 where
  pub pc : ℕ
  pub sp : ℕ
  pub tpidr : ℕ
  pub gpr : ℕ → ℕ

abbrev pub default_context : UserContext
default_context = record { pc = 0; sp = 0; tpidr = 0; gpr = λ i. 0 }

pub record CloneArgs : Type 0 where
  pub stack : ℕ
  pub flags : ℕ
  pub parent_tid : ℕ
  pub child_tid : ℕ
  pub tls : ℕ
  pub init_fn : ℕ
  pub init_argv : ℕ

abbrev pub default_clone_args : CloneArgs
default_clone_args = record {
  stack = 0;
  flags = 0;
  parent_tid = 0;
  child_tid = 0;
  tls = 0;
  init_fn = 0;
  init_argv = 0;
}

-- `size_of::<CloneArgs>()`.
abbrev pub clone_args_size : ℕ
clone_args_size = 56

abbrev pub clone_vm : ℕ
clone_vm = 2 ^ 8

-- The union of the declared flags: 7 to 24, and 29.
abbrev pub clone_flags : ℕ
clone_flags = 2 ^ 25 - 2 ^ 7 + 2 ^ 29

abbrev pub uspace_stack_top : ℕ
uspace_stack_top = 0x2_0000_0000

abbrev pub uspace_stack_size : ℕ
uspace_stack_size = 0x1_0000

-- What the code reads of an image: the bytes, the headers of type LOAD, the segments, the entry
-- point, the address of `.tbss`, and the address and size of each section.
pub record ElfImage : Type 0 where
  pub bytes : List ℕ
  pub headers : List ProgramHeader
  pub segments : List Segment
  pub entry_point : ℕ
  pub tbss : Option ℕ
  pub sections : List (ℕ × ℕ)

abbrev pub max_end : ℕ → List (ℕ × ℕ) → ℕ
max_end acc [] = acc
max_end acc ((address, size) ∷ sections) = max_end (max acc (wrap64 (address + size))) sections

-- The page behind the last section.
unfoldable pub ipc_buffer_addr : ElfImage → ℕ
ipc_buffer_addr image = wrap64 (max_end 0 image.sections + 4096 - 1) / 4096 * 4096

abbrev pub or_zero : Option ℕ → ℕ
or_zero none = 0
or_zero (some n) = n

-- The further calls of the kernel, on a CNode and a slot of it, a source and a badge, and on TCBs,
-- with what the build puts into the program.
pub record Spawner (k : Kernel) : Type 0 where
  pub desk : Desktop k
  pub loader : Loader k
  pub test_thread : ElfImage
  pub shim : ElfImage
  pub test_args : List (List ℕ)
  pub shim_args : List (List ℕ)
  pub free_page_addr : ℕ
  pub ext_free_page_addr : ℕ
  pub own_tcb : ℕ
  -- `CNodeCapData::new(0, WORD_SIZE - 12)`.
  pub cnode_data : ℕ
  pub copy_into : ℕ → ℕ → ℕ → Exec k.State k.Error (Unit {0})
  pub mint_into : ℕ → ℕ → ℕ → ℕ → Exec k.State k.Error (Unit {0})
  -- A copy to a slot of the own CNode.
  pub copy_here : ℕ → ℕ → Exec k.State k.Error (Unit {0})
  -- The bytes of a page, from one address to another.
  pub copy_page : ℕ → ℕ → k.State → k.State
  pub tcb_configure : ℕ → ℕ → ℕ → ℕ → ℕ → ℕ → ℕ → Exec k.State k.Error (Unit {0})
  pub tcb_set_sched_params : ℕ → ℕ → ℕ → ℕ → Exec k.State k.Error (Unit {0})
  pub tcb_read_all_registers : ℕ → Exec k.State k.Error UserContext
  pub tcb_write_all_registers : ℕ → UserContext → Exec k.State k.Error (Unit {0})
  pub load_clone_args : ℕ → k.State → CloneArgs
