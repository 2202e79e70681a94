-- ===== src/RootTask.antt =====
-- The service loop of the root task, crates/root-task/src/main.rs: a message is read from the
-- message registers, served on the task that its badge names, and replied to.
pub mod Translate
pub mod DmaPages
pub mod Start
pub mod Device
use rust_root_task_demo_mi_d.Prelude.{
  ℕ, ◌+◌, ◌*◌, ◌/◌, ◌%◌, List, [], ◌∷◌, ◌++◌, Option, none, some, get_elem?, wrap64, Outcome, ok,
  err, panic, Exec, pure, unwrap, unwrapped, ◌>>=◌, ◌>>◌,
}
use rust_root_task_demo_mi_d.BTree.{get}
use rust_root_task_demo_mi_d.Ipc.{Ipc}
use rust_root_task_demo_mi_d.Protocol.Root.{
  RootMessageLabel, register_irq, translate_addr, register_irq_with_cap, try_from, build,
}
use rust_root_task_demo_mi_d.TaskHelper.{Sel4TaskHelper}

-- What the loop calls of the kernel. An IRQ handler goes to a slot of a CNode; the root CNode is
-- the one without a number.
pub record RootKernel : Type 1 where
  pub State : Type 0
  pub Error : Type 0
  pub frame_get_address : ℕ → Exec State Error ℕ
  pub irq_control_get : ℕ → Option ℕ → ℕ → Exec State Error (Unit {0})
  -- `irq_ep.call`, with the capability that the IPC buffer names.
  pub call_irq : ℕ → Exec State Error (Unit {0})

-- A reply: the message, and the registers that it stands before.
pub record Reply (ipc : Ipc) : Type 0 where
  pub info : ipc.MessageInfo
  pub regs : List ℕ

pub record Root (ipc : Ipc) (k : RootKernel) : Type 0 where
  pub kernel : k.State
  pub tasks : List Sel4TaskHelper
  pub common_irq_handler : ℕ
  pub regs : List ℕ
  pub caps_or_badges : ℕ
  pub replies : List (Reply ipc)

-- `addr & !0xfff`.
abbrev pub page_of : ℕ → ℕ
page_of addr = addr / 4096 * 4096

module _ (ipc : Ipc) (k : RootKernel) where
  -- Work on the message registers.
  abbrev pub on_regs : {E A : Type 0} → Exec (List ℕ) E A → Exec (Root ipc k) E A
  on_regs op r = let (regs, x) = op r.regs in (record r { regs = regs }, x)

  abbrev pub on_kernel : {E A : Type 0} → Exec k.State k.Error A → Exec (Root ipc k) E A
  on_kernel op r = let (s, x) = unwrapped op r.kernel in (record r { kernel = s }, x)

  -- `sel4::reply`.
  abbrev pub reply : {E : Type 0} → ipc.MessageInfo → Exec (Root ipc k) E (Unit {0})
  reply info r =
      (record r { replies = r.replies ++ record { info = info; regs = r.regs } ∷ [] }, ok tt)

  -- `tasks[badge as usize]`.
  abbrev pub task_at : {E : Type 0} → ℕ → Exec (Root ipc k) E Sel4TaskHelper
  task_at badge r = unwrap (get_elem? r.tasks badge) r

  unfoldable pub register : {E : Type 0} → ℕ → ℕ → ℕ → Exec (Root ipc k) E (Unit {0})
  register badge irq_handler irq_num = do
    task ← task_at badge
    on_kernel (k.irq_control_get irq_num (some task.cnode) irq_handler)
    reply (ipc.new 0 0 0 0)

  -- The reply goes out before the handler is there.
  unfoldable pub register_with_cap : {E : Type 0} → ℕ → Exec (Root ipc k) E (Unit {0})
  register_with_cap irq_num = do
    reply (ipc.new 0 0 0 0)
    λ r. on_kernel (k.irq_control_get irq_num none r.common_irq_handler) r
    λ r. (record r { caps_or_badges = r.common_irq_handler }, ok tt)
    λ r. on_kernel (k.call_irq r.caps_or_badges) r

  unfoldable pub translate : {E : Type 0} → ℕ → ℕ → Exec (Root ipc k) E (Unit {0})
  translate badge addr = do
    task ← task_at badge
    page ← unwrap (get task.mapped_page (page_of addr))
    phys_addr ← on_kernel (k.frame_get_address page)
    message ← on_regs (build ipc (translate_addr (wrap64 (phys_addr + addr % 0x1000))))
    reply message

  -- `match info`; a message that is no request is a fault, which is only logged.
  unfoldable pub serve_request :
      {E : Type 0} → ℕ → Option RootMessageLabel → Exec (Root ipc k) E (Unit {0})
  serve_request badge (some (register_irq irq_handler irq_num)) = register badge irq_handler irq_num
  serve_request badge (some (register_irq_with_cap irq_num)) = register_with_cap irq_num
  serve_request badge (some (translate_addr addr)) = translate badge addr
  serve_request badge none = pure tt

  -- A round of the loop, on a message that stands before the registers.
  unfoldable pub serve : {E : Type 0} → ipc.MessageInfo → ℕ → Exec (Root ipc k) E (Unit {0})
  serve message badge = do info ← on_regs (try_from ipc message); serve_request badge info
