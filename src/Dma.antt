-- ===== src/Dma.antt =====
-- The DMA memory of the drivers: `VirtIoHalImpl` of crates/net-thread/src/virtio_impl.rs and
-- `HalImpl` of crates/blk-thread/src/virtio.rs, and their calls of the root task, which translates
-- addresses.
pub mod Paging
pub mod Window
use rust_root_task_demo_mi_d.Prelude.{
  ℕ, ◌+◌, ◌*◌, ◌≡◌, ◌<◌, List, [], ◌∷◌, Option, none, some, get_elem?, length, wrap64, ◌==◌,
  Outcome, ok, err, panic, Exec, pure, abort, fail, assert, ◌>>=◌, ◌>>◌,
}
use rust_root_task_demo_mi_d.Ipc.{Ipc}
use rust_root_task_demo_mi_d.Protocol.Root.{
  RootMessageLabel, register_irq, translate_addr, register_irq_with_cap, try_from, build,
}
use rust_root_task_demo_mi_d.RootTask.{RootKernel, Root, Reply, serve}

abbrev pub dma_addr_start : ℕ
dma_addr_start = 0x1_0000_3000

abbrev pub page_size : ℕ
page_size = 4096

-- The static DMA_ADDR of the net thread and of the block thread.
abbrev pub net_dma_addr : ℕ
net_dma_addr = dma_addr_start + page_size

abbrev pub blk_dma_addr : ℕ
blk_dma_addr = dma_addr_start

-- seL4 moves as many message registers as a message says from the sender's buffer to the
-- receiver's, and leaves the size of the buffer.
pub record Transfer : Type 0 where
  pub transfer : ℕ → List ℕ → List ℕ → List ℕ
  pub transfer_lem :
      (n i v : ℕ) (from to : List ℕ)
      → i < n
      → i < length to
      → get_elem? from i ≡ some v
      → get_elem? (transfer n from to) i ≡ some v
  pub length-transfer : (n : ℕ) (from to : List ℕ) → length (transfer n from to) ≡ length to

-- A caller whose server does not answer waits for good.
pub data CallError : Type 0 where
  no_reply : CallError

-- A driver, by the next address of its DMA memory and its message registers, and the root task.
pub record Driver (ipc : Ipc) (k : RootKernel) : Type 0 where
  pub dma_addr : ℕ
  pub regs : List ℕ
  pub root : Root ipc k

module _ (ipc : Ipc) (k : RootKernel) (t : Transfer) (badge : ℕ) where
  abbrev pub on_regs : {A : Type 0} → Exec (List ℕ) CallError A → Exec (Driver ipc k) CallError A
  on_regs op d = let (regs, x) = op d.regs in (record d { regs = regs }, x)

  -- What the caller gets: the first answer of the root task.
  abbrev pub answered :
      Driver ipc k
      → Root ipc k × Outcome CallError (Unit {0})
      → List (Reply ipc)
      → Driver ipc k × Outcome CallError (ipc.MessageInfo)
  answered d (root, r) [] = (record d { root = root }, err no_reply)
  answered d (root, r) (a ∷ _) =
      (record d { regs = t.transfer (ipc.length a.info) a.regs d.regs; root = root }, ok a.info)

  -- `ep.call`, on the endpoint of the root task.
  unfoldable pub call_root : ipc.MessageInfo → Exec (Driver ipc k) CallError (ipc.MessageInfo)
  call_root message d =
      let p : Root ipc k × Outcome CallError (Unit {0}) =
        serve ipc k message badge (record (d.root) {
          regs = t.transfer (ipc.length message) d.regs d.root.regs;
          replies = [];
        }) in
      answered d p p.0.replies

  -- The `match` on the answer; any other answer is a `todo!`.
  unfoldable pub translated : Option RootMessageLabel → Exec (Driver ipc k) CallError ℕ
  translated (some (translate_addr paddr)) = pure paddr
  translated (some (register_irq _ _)) = abort
  translated (some (register_irq_with_cap _)) = abort
  translated none = abort

  -- The physical address of a virtual one.
  unfoldable pub translate : ℕ → Exec (Driver ipc k) CallError ℕ
  translate vaddr = do
    message ← on_regs (build ipc (translate_addr vaddr))
    answer ← call_root message
    root_message ← on_regs (try_from ipc answer)
    translated root_message

  -- `dma_alloc` of either driver; the address is never null.
  unfoldable pub dma_alloc : ℕ → Exec (Driver ipc k) CallError (ℕ × ℕ)
  dma_alloc pages d =
      let vaddr : ℕ = d.dma_addr in
      (do paddr ← translate vaddr; pure (paddr, vaddr))
        (record d { dma_addr = wrap64 (vaddr + pages * page_size) })

  -- `dma_dealloc` of the net thread; the block thread's is a `todo!`.
  unfoldable pub dma_dealloc : ℕ → ℕ → ℕ → Exec (Driver ipc k) CallError ℕ
  dma_dealloc paddr vaddr pages d =
      (do
        assert (wrap64 (vaddr + pages * 0x1000) == d.dma_addr)
        λ e. (record e { dma_addr = vaddr }, ok 0))
        d

  unfoldable pub blk_dma_dealloc : ℕ → ℕ → ℕ → Exec (Driver ipc k) CallError ℕ
  blk_dma_dealloc paddr vaddr pages = abort

  -- `share` of either driver, on the start of the buffer.
  unfoldable pub share : ℕ → Exec (Driver ipc k) CallError ℕ
  share buffer = translate buffer
