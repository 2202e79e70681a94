-- ===== src/RootTask/Translate.antt =====
-- `RootMessageLabel::TranslateAddr` in the service loop of crates/root-task/src/main.rs.
use rust_root_task_demo_mi_d.Prelude.{
  ℕ, ◌+◌, ◌%◌, ◌<◌, ◌^◌, ◌≡◌, refl, List, [], ◌∷◌, ◌++◌, none, some, get_elem?, arith, wrap64, ok,
  panic,
}
use rust_root_task_demo_mi_d.BTree.{get}
use rust_root_task_demo_mi_d.Ipc.{Ipc}
use rust_root_task_demo_mi_d.Protocol.Root.{translate_addr, decode, try_from, build}
use rust_root_task_demo_mi_d.TaskHelper.{Sel4TaskHelper}
use rust_root_task_demo_mi_d.RootTask.{RootKernel, Root, page_of, translate, serve_request, serve}

-- The address of a frame can be read at any time, and stays.
pub record AddressLaws (k : RootKernel) : Type 0 where
  pub phys : ℕ → ℕ
  pub phys_word : (page : ℕ) → phys page < 2 ^ 64
  pub get_address :
      (page : ℕ) (s : k.State)
      → (s' : k.State) × (k.frame_get_address page s ≡ (s', ok (phys page)))

module _ (ipc : Ipc) (k : RootKernel) where
  -- A request to translate is recognised, with the address that the first register holds.
  pub try_from-translate :
      {E : Type 0} (message : ipc.MessageInfo) (regs : List ℕ) (addr : ℕ)
      → ipc.label message ≡ 0x201
      → try_from ipc {E = E} message (addr ∷ regs) ≡ (addr ∷ regs, ok (some (translate_addr addr)))
  unfolding try_from decode
  try_from-translate message regs addr l = rw l refl

  -- The message that a request to translate is built into.
  pub translate_message : ipc.MessageInfo
  translate_message = ipc.new 0x201 0 0 1

  pub label-translate_message : ipc.label translate_message ≡ 0x201
  unfolding translate_message
  label-translate_message = ipc.label-new 0x201 0 0 1 (omega arith)

  pub length-translate_message : ipc.length translate_message ≡ 1
  unfolding translate_message
  length-translate_message = ipc.length-new 0x201 0 0 1 (omega arith)

  pub build-translate :
      {E : Type 0} (addr r : ℕ) (regs : List ℕ)
      → build ipc {E = E} (translate_addr addr) (r ∷ regs) ≡ (addr ∷ regs, ok translate_message)
  unfolding build translate_message
  build-translate addr r regs = refl

  module _ {E : Type 0} (laws : AddressLaws k) where
    -- An address on a page of the task is answered with the physical address.
    pub serve_translate :
        (message : ipc.MessageInfo) (badge addr page : ℕ) (regs : List ℕ) (root : Root ipc k)
        (task : Sel4TaskHelper)
        → ipc.label message ≡ 0x201
        → root.regs ≡ addr ∷ regs
        → get_elem? root.tasks badge ≡ some task
        → get task.mapped_page (page_of addr) ≡ some page
        → (s' : k.State) × (serve ipc k {E = E} message badge root ≡ (
          record root {
            kernel = s';
            regs = wrap64 (laws.phys page + addr % 4096) ∷ regs;
            replies =
                root.replies
                ++ record {
                  info = translate_message;
                  regs = wrap64 (laws.phys page + addr % 4096) ∷ regs;
                }
                  ∷ [];
          },
          ok tt,
        ))
    unfolding serve serve_request translate
    serve_translate message badge addr page regs root task l e known mapped =
        let (s', address) = laws.get_address page root.kernel in
        (
          s',
          rw
              (
                e,
                try_from-translate {E = E} message regs addr l,
                known,
                mapped,
                address,
                build-translate {E = E} (wrap64 (laws.phys page + addr % 4096)) addr regs,
              )
              refl,
        )

    -- An address on no page of the task stops the root task.
    pub serve_untranslatable :
        (message : ipc.MessageInfo) (badge addr : ℕ) (regs : List ℕ) (root : Root ipc k)
        (task : Sel4TaskHelper)
        → ipc.label message ≡ 0x201
        → root.regs ≡ addr ∷ regs
        → get_elem? root.tasks badge ≡ some task
        → get task.mapped_page (page_of addr) ≡ none
        → serve ipc k {E = E} message badge root ≡ (record root { regs = addr ∷ regs }, panic)
    unfolding serve serve_request translate
    serve_untranslatable message badge addr regs root task l e known missing =
        simp (e, try_from-translate {E = E} message regs addr l, known, missing)
