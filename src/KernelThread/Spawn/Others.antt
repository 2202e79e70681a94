-- ===== src/KernelThread/Spawn/Others.antt =====
-- What `sys_exec` and `sys_clone` of crates/kernel-thread/src/syscall/thread/task.rs leave of the
-- other tasks.
use rust_root_task_demo_mi_d.Prelude.{
  ℕ, ◌≡◌, ◌≢◌, ◌∙◌, refl, sym, ap, Option, none, some, Bool-cases, inl, inr, ◌==◌, ==_false,
  Outcome, ok, err, panic, Exec, unwrap, ok_or, ◌>>=◌, continue_with, Returns, >>=-Returns, Keeps,
}
use rust_root_task_demo_mi_d.BTree.{BTreeMap, get, get-insert}
use rust_root_task_demo_mi_d.Ipc.{Ipc}
use rust_root_task_demo_mi_d.Sel4.{Kernel}
use rust_root_task_demo_mi_d.Crates.{MemoryAddr, Bitflags}
use rust_root_task_demo_mi_d.Alloc.{Machine}
use rust_root_task_demo_mi_d.KernelThread.Task.{Sel4Task, Context, new_task}
use rust_root_task_demo_mi_d.KernelThread.Server.{Errno, einval}
use rust_root_task_demo_mi_d.KernelThread.Copy.Keeps.{SeatKeeps, process_item_list-Keeps}
use rust_root_task_demo_mi_d.KernelThread.Net.{AxCodes, Wire, Desk}
use rust_root_task_demo_mi_d.KernelThread.Net.Calls.{UserMemory, desk_seat, kept}
use rust_root_task_demo_mi_d.KernelThread.Spawn.{
  Spawner, CloneArgs, default_clone_args, clone_flags, clone_vm, clone_task, given_up, enrolled,
  made, spawn, read_clone_args, clone_from, sys_clone,
}

-- The tasks, and the identifier of the next one.
abbrev pub tasks_and_next : {k : Kernel} → Desk k → BTreeMap Sel4Task × ℕ
tasks_and_next d = (d.server.tasks, d.id_counter)

module _ {k : Kernel} (other : ℕ) where
  -- Work that leaves the task of a badge, unless the badge is the next identifier.
  abbrev pub LeavesOld : {E A : Type 0} → Exec (Desk k) E A → Type 0
  LeavesOld op =
      (d : Desk k)
      → other ≢ d.id_counter
      → get (op d).0.server.tasks other ≡ get d.server.tasks other

  continue_with-LeavesOld :
      {E A B : Type 0} (f : A → Exec (Desk k) E B) (p : Desk k × Outcome E A) (d : Desk k)
      → tasks_and_next p.0 ≡ tasks_and_next d
      → ((a : A) → LeavesOld (f a))
      → other ≢ d.id_counter
      → get (continue_with f p).0.server.tasks other ≡ get d.server.tasks other
  continue_with-LeavesOld f (t, ok a) d same h apart =
      h a t (λ e. apart (e ∙ ap (λ x. x.1) same)) ∙ ap (λ x. get (x.0) other) same
  continue_with-LeavesOld f (t, err e) d same h apart = ap (λ x. get (x.0) other) same
  continue_with-LeavesOld f (t, panic) d same h apart = ap (λ x. get (x.0) other) same

  >>=-LeavesOld :
      {E A B : Type 0} (m : Exec (Desk k) E A) (f : A → Exec (Desk k) E B)
      → Keeps tasks_and_next m
      → ((a : A) → LeavesOld (f a))
      → LeavesOld (m >>= f)
  >>=-LeavesOld m f same h d apart = continue_with-LeavesOld f (m d) d (same d) h apart

  module _ (sp : Spawner k) where
    given_up-LeavesOld :
        {E : Type 0} (A : Type 0) (d : Desk k) (e : E) (p : Machine k × Outcome E (Unit {0}))
        → get (given_up sp {A = A} d e p).0.server.tasks other ≡ get d.server.tasks other
    given_up-LeavesOld A d e (m, ok _) = refl
    given_up-LeavesOld A d e (m, err _) = refl
    given_up-LeavesOld A d e (m, panic) = refl

    enrolled-LeavesOld :
        {E : Type 0} (d : Desk k) (id : ℕ) (p : Context k × Outcome E (Unit {0}))
        → other ≢ id
        → get (enrolled sp d id p).0.server.tasks other ≡ get d.server.tasks other
    enrolled-LeavesOld d id (c, ok _) apart =
        get-insert id c.task d.server.tasks other ∙ rw (==_false id other (λ e. apart (sym e)))
    enrolled-LeavesOld d id (c, err e) apart = given_up-LeavesOld ℕ d e _
    enrolled-LeavesOld d id (c, panic) apart = refl

    made-LeavesOld :
        {E : Type 0} (work : Exec (Context k) E (Unit {0})) (d : Desk k)
        (p : Machine k × Outcome E (Sel4Task × ℕ))
        → Returns (λ x. x.0.id ≡ d.id_counter) p
        → other ≢ d.id_counter
        → get (made sp work d p).0.server.tasks other ≡ get d.server.tasks other
    made-LeavesOld work d (m, ok (task, counter)) id apart =
        enrolled-LeavesOld (record d { id_counter = counter }) task.id
          (work (record { machine = m; task = task })) (λ e. apart (e ∙ id))
    made-LeavesOld work d (m, err e) id apart = refl
    made-LeavesOld work d (m, panic) id apart = refl

    -- The identifier of a new task is the counter.
    new_task-id :
        (E : Type 0) (counter : ℕ) (m : Machine k)
        → Returns (λ x. x.0.id ≡ counter) (new_task {E = E} counter m)
    unfolding new_task
    new_task-id E counter m = search (>>=-Returns)

    spawn-LeavesOld :
        (E : Type 0) (work : Exec (Context k) E (Unit {0})) → LeavesOld (spawn sp work)
    unfolding spawn
    spawn-LeavesOld E work d apart = made-LeavesOld work d _ (new_task-id E d.id_counter _) apart

    module _ {ipc : Ipc} (mem : MemoryAddr) (bits : Bitflags) (u : UserMemory k) (w : Wire k ipc)
        (codes : AxCodes) where
      seat-SeatKeeps :
          SeatKeeps
            (desk_seat mem u w codes CloneArgs)
            (BTreeMap Sel4Task × ℕ)
            (λ (d, x). tasks_and_next d)
      seat-SeatKeeps = record {
        copy = λ cap s. refl;
        map = λ s. refl;
        unmap = λ s. refl;
        delete = λ s. refl;
        put = λ offset n s. refl;
      }

      kept-tasks_and_next :
          {T A : Type 0} (p : (Desk k × T) × Outcome Errno A)
          → tasks_and_next (kept mem u w codes p).0 ≡ tasks_and_next p.0.0
      kept-tasks_and_next ((d, x), ok a) = refl
      kept-tasks_and_next ((d, x), err e) = refl
      kept-tasks_and_next ((d, x), panic) = refl

      read_clone_args-Keeps :
          (pages : BTreeMap ℕ) (addr : ℕ)
          → Keeps tasks_and_next (read_clone_args sp mem bits u w codes pages addr)
      unfolding read_clone_args
      read_clone_args-Keeps pages addr d =
          kept-tasks_and_next _
          ∙ process_item_list-Keeps mem (desk_seat mem u w codes CloneArgs) (BTreeMap Sel4Task × ℕ)
              (λ (e, x). tasks_and_next e) seat-SeatKeeps 56 pages addr none _
              (λ src offset n s. refl) (d, default_clone_args)

      ok_or-Keeps :
          {A : Type 0} (o : Option A) (e : Errno)
          → Keeps {S = Desk k} tasks_and_next (ok_or {E = Errno} o e)
      ok_or-Keeps none e d = refl
      ok_or-Keeps (some a) e d = refl

      unwrap-same :
          {A : Type 0} (o : Option A) → Keeps {S = Desk k} tasks_and_next (unwrap {E = Errno} o)
      unwrap-same none d = refl
      unwrap-same (some a) d = refl

      clone_from-LeavesOld :
          (fault_ep addr : ℕ) (task : Sel4Task)
          → LeavesOld (clone_from sp mem bits u w codes fault_ep addr task)
      clone_from-LeavesOld fault_ep addr task d apart = elim (Bool-cases (addr == 0)) [
        | inl null ↦ rw null refl
        | inr given ↦ rw given (
            >>=-LeavesOld (read_clone_args sp mem bits u w codes (task.mapped_page) addr)
              (λ args. do
                flags ← ok_or (bits.from_bits clone_flags args.flags) einval
                spawn sp (clone_task sp fault_ep task args (bits.contains flags clone_vm)))
              (read_clone_args-Keeps (task.mapped_page) addr)
              (λ args.
                >>=-LeavesOld (ok_or (bits.from_bits clone_flags args.flags) einval)
                  (λ flags.
                    spawn sp (clone_task sp fault_ep task args (bits.contains flags clone_vm)))
                  (ok_or-Keeps (bits.from_bits clone_flags args.flags) einval)
                  (λ flags. spawn-LeavesOld Errno _))
              d apart)
      ]

      -- A clone leaves the task of every badge but the next identifier.
      pub sys_clone-LeavesOld :
          (badge fault_ep addr : ℕ)
          → LeavesOld (sys_clone sp mem bits u w codes badge fault_ep addr)
      unfolding sys_clone
      sys_clone-LeavesOld badge fault_ep addr d apart =
          >>=-LeavesOld (unwrap (get d.server.tasks badge))
            (clone_from sp mem bits u w codes fault_ep addr) (unwrap-same _)
            (clone_from-LeavesOld fault_ep addr) d apart
