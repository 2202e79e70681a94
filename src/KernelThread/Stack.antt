-- ===== src/KernelThread/Stack.antt =====
-- `map_stack`, `load_elf` and the drop of a `Sel4Task`, crates/kernel-thread/src/task.rs: the stack
-- and the image of a user task, written through pages that are mapped in the own address space for
-- a while.
pub mod Aligned
pub mod Rounds
use rust_root_task_demo_mi_d.Prelude.{
  ℕ, zero, suc, ◌+◌, ◌-◌, ◌*◌, ◌/◌, ◌%◌, ◌^◌, min, List, [], ◌∷◌, ◌++◌, Option, none, some, ltb,
  ◌==◌, if◌then◌else◌, length, take, drop, wrap64, Exec, ok, pure, abort, assert, ◌>>=◌, ◌>>◌,
}
use rust_root_task_demo_mi_d.BTree.{BTreeMap, get, insert, remove}
use rust_root_task_demo_mi_d.Sel4.{Kernel}
use rust_root_task_demo_mi_d.Alloc.{Machine, call, allocate_and_retyped_fixed_sized}
use rust_root_task_demo_mi_d.KernelThread.Task.{
  Sel4Task, Context, page_size, page_steps, on_machine, update_task, map_page,
}

-- The own address space, the address at which pages are mapped for a while, the writes to memory,
-- and the calls that take capabilities away.
pub record Desktop (k : Kernel) : Type 0 where
  pub own_vspace : ℕ
  pub page_seat_vaddr : ℕ
  pub write_bytes : ℕ → List ℕ → k.State → k.State
  pub write_word : ℕ → ℕ → k.State → k.State
  pub revoke : ℕ → Exec k.State k.Error (Unit {0})
  pub delete : ℕ → Exec k.State k.Error (Unit {0})

-- A program header of type LOAD.
pub record ProgramHeader : Type 0 where
  pub offset : ℕ
  pub virtual_addr : ℕ
  pub file_size : ℕ
  pub mem_size : ℕ

abbrev pub stack_align_size : ℕ
stack_align_size = 16

-- `a - b` on `usize`.
abbrev pub sub64 : ℕ → ℕ → ℕ
sub64 a b = wrap64 (a + 2 ^ 64 - wrap64 b)

-- Where an argument of so many bytes goes, below the stack pointer and its end byte.
abbrev pub arg_ptr : ℕ → ℕ → ℕ
arg_ptr stack_ptr len = sub64 (sub64 stack_ptr len) 1 / stack_align_size * stack_align_size

-- The auxiliary vector, in the order of its keys: NULL, PAGESZ, ENTRY, UID, EUID, GID, EGID, EXECFN.
abbrev pub auxv : ℕ → ℕ → List (ℕ × ℕ)
auxv entry_point execfn =
    (0, 0)
    ∷ (6, page_size)
    ∷ (9, entry_point)
    ∷ (11, 0)
    ∷ (12, 0)
    ∷ (13, 0)
    ∷ (14, 0)
    ∷ (31, execfn)
    ∷ []

-- The words in the order in which they are pushed: each entry's value before its key.
abbrev pub auxv_words : List (ℕ × ℕ) → List ℕ
auxv_words [] = []
auxv_words ((key, v) ∷ rest) = v ∷ key ∷ auxv_words rest

abbrev pub reverse_onto : List ℕ → List ℕ → List ℕ
reverse_onto [] acc = acc
reverse_onto (x ∷ xs) acc = reverse_onto xs (x ∷ acc)

abbrev pub values : BTreeMap ℕ → List ℕ
values [] = []
values ((_, v) ∷ m) = v ∷ values m

abbrev pub put_page : ℕ → ℕ → BTreeMap ℕ → BTreeMap ℕ
put_page vaddr page_cap mapped_page =
    let page : ℕ = vaddr / page_size * page_size in insert page page_cap (remove page mapped_page)

module _ {k : Kernel} {E : Type 0} (desk : Desktop k) where
  abbrev pub on_kernel : (k.State → k.State) → Exec (Machine k) E (Unit {0})
  on_kernel f m = (record m { kernel = f m.kernel }, ok tt)

  -- The closure over `args`: the pointers, and the stack pointer below them.
  unfoldable pub push_args : ℕ → List (List ℕ) → Exec (Machine k) E (List ℕ × ℕ)
  push_args stack_ptr [] = pure ([], stack_ptr)
  push_args stack_ptr (arg ∷ args) = do
    let ptr = arg_ptr stack_ptr (length arg)
    on_kernel (desk.write_bytes (desk.page_seat_vaddr + ptr % page_size) arg)
    (ptrs, last) ← push_args ptr args
    pure (ptr ∷ ptrs, last)

  -- `push_num` on one word after the other.
  unfoldable pub push_nums : ℕ → List ℕ → Exec (Machine k) E ℕ
  push_nums stack_ptr [] = pure stack_ptr
  push_nums stack_ptr (num ∷ nums) = do
    let ptr = sub64 stack_ptr 8
    on_kernel (desk.write_word (desk.page_seat_vaddr + ptr % page_size) num)
    push_nums ptr nums

  -- The words of the stack: the auxiliary vector, the ends of environment and arguments, the
  -- arguments and their number. Without an argument `args_ptr[0]` is out of bounds.
  abbrev pub stack_words : ℕ → List ℕ → Exec (Machine k) E (List ℕ)
  stack_words entry_point [] = abort
  stack_words entry_point (x ∷ xs) =
      pure
        (auxv_words (auxv entry_point x) ++ (0 ∷ 0 ∷ reverse_onto (x ∷ xs) (length (x ∷ xs) ∷ [])))

  abbrev pub push_words : ℕ → List ℕ × ℕ → Exec (Machine k) E ℕ
  push_words entry_point (args_ptr, stack_ptr) = do
    words ← stack_words entry_point args_ptr
    push_nums stack_ptr words

  -- The arguments, then the words below them.
  unfoldable pub push_stack : ℕ → ℕ → List (List ℕ) → Exec (Machine k) E ℕ
  push_stack entry_point stack_ptr args = do
    pushed ← push_args stack_ptr args
    push_words entry_point pushed

  -- The page at the top of the stack, filled.
  unfoldable pub fill_stack : ℕ → ℕ → ℕ → List (List ℕ) → Exec (Machine k) E ℕ
  fill_stack page_cap entry_point stack_ptr args = do
    call (k.frame_map page_cap desk.own_vspace desk.page_seat_vaddr k.all_rights)
    last ← push_stack entry_point stack_ptr args
    call (k.frame_unmap page_cap)
    pure last

  -- The `if` in the loop: only the page at the top is filled.
  abbrev pub top_page : ℕ → ℕ → ℕ → List (List ℕ) → ℕ → ℕ → Exec (Context k) E ℕ
  top_page page_cap entry_point end args stack_ptr vaddr =
      if vaddr == sub64 end page_size
      then on_machine (fill_stack page_cap entry_point stack_ptr args)
      else pure stack_ptr

  -- The loop over the pages of the stack, with the stack pointer.
  unfoldable pub stack_pages : ℕ → ℕ → List (List ℕ) → ℕ → List ℕ → Exec (Context k) E ℕ
  stack_pages entry_point end args stack_ptr [] = pure stack_ptr
  stack_pages entry_point end args stack_ptr (vaddr ∷ rest) = do
    page_cap ← on_machine (allocate_and_retyped_fixed_sized k.granule)
    ptr ← top_page page_cap entry_point end args stack_ptr vaddr
    map_page vaddr page_cap
    stack_pages entry_point end args ptr rest

  unfoldable pub map_stack : ℕ → ℕ → ℕ → List (List ℕ) → Exec (Context k) E ℕ
  map_stack entry_point start end args = do
    assert (end % 0x1000 == 0)
    assert (start % 0x1000 == 0)
    stack_pages entry_point end args end (page_steps start end)

  -- A page of the image that an earlier segment put there, unmapped, or a fresh one.
  abbrev pub page_for : Option ℕ → Exec (Machine k) E ℕ
  page_for (some page_cap) = do call (k.frame_unmap page_cap); pure page_cap
  page_for none = allocate_and_retyped_fixed_sized k.granule

  -- The bytes of the file that go to a page, copied by way of the own address space: how many.
  unfoldable pub copy_to : List ℕ → ℕ → ℕ → ℕ → ℕ → Exec (Machine k) E ℕ
  copy_to elf_data page_cap offset end vaddr =
      if ltb offset end
      then (do
        let rsize = min (page_size - vaddr % page_size) (end - offset)
        call (k.frame_map page_cap desk.own_vspace desk.page_seat_vaddr k.all_rights)
        on_kernel (
            desk.write_bytes (desk.page_seat_vaddr + offset % page_size)
              (take rsize (drop offset elf_data)))
        call (k.frame_unmap page_cap)
        pure rsize)
      else pure 0

  -- The body of the loop, and what is done with the page and the bytes copied.
  abbrev pub load_page :
      (ℕ → ℕ → Exec (Context k) E (BTreeMap ℕ))
      → List ℕ
      → ℕ
      → ℕ
      → ℕ
      → BTreeMap ℕ
      → Exec (Context k) E (BTreeMap ℕ)
  load_page again elf_data offset end vaddr mapped_page = do
    page_cap ← on_machine (page_for (get mapped_page (vaddr / page_size * page_size)))
    copied ← on_machine (copy_to elf_data page_cap offset end vaddr)
    map_page (vaddr / page_size * page_size) page_cap
    again page_cap copied

  -- The `while` loop over the pages of a segment, by rounds.
  unfoldable pub load_rounds :
      ℕ → List ℕ → ℕ → ℕ → ℕ → ℕ → BTreeMap ℕ → Exec (Context k) E (BTreeMap ℕ)
  load_rounds zero elf_data offset end vaddr vaddr_end mapped_page = pure mapped_page
  load_rounds (suc rounds) elf_data offset end vaddr vaddr_end mapped_page =
      let again : ℕ → ℕ → Exec (Context k) E (BTreeMap ℕ) = λ page_cap copied.
        load_rounds rounds elf_data (wrap64 (offset + copied)) end
          (wrap64 (vaddr + (page_size - vaddr % page_size))) vaddr_end
          (put_page vaddr page_cap mapped_page) in
      if ltb vaddr vaddr_end
      then load_page again elf_data offset end vaddr mapped_page
      else pure mapped_page

  unfoldable pub load_headers :
      List ℕ → BTreeMap ℕ → List ProgramHeader → Exec (Context k) E (Unit {0})
  load_headers elf_data mapped_page [] = pure tt
  load_headers elf_data mapped_page (ph ∷ rest) = do
    mapped_page' ←
        load_rounds ph.mem_size elf_data ph.offset (wrap64 (ph.offset + ph.file_size))
          ph.virtual_addr (wrap64 (ph.virtual_addr + ph.mem_size)) mapped_page
    load_headers elf_data mapped_page' rest

  unfoldable pub load_elf : List ℕ → List ProgramHeader → Exec (Context k) E (Unit {0})
  load_elf elf_data headers = load_headers elf_data [] headers

  -- A capability revoked and deleted.
  abbrev pub take_away : ℕ → Exec (Machine k) E (Unit {0})
  take_away cap = do call (desk.revoke cap); call (desk.delete cap)

  unfoldable pub take_all : List ℕ → Exec (Machine k) E (Unit {0})
  take_all [] = pure tt
  take_all (cap ∷ caps) = do take_away cap; take_all caps

  -- `Drop`.
  unfoldable pub drop_task : Sel4Task → Exec (Machine k) E (Unit {0})
  drop_task task = do
    take_away task.tcb
    take_away task.cnode
    take_away task.vspace
    take_all task.mapped_pt
    take_all (values task.mapped_page)
