-- ===== src/Dma/Paging.antt =====
-- The calls of the drivers, crates/net-thread/src/virtio_impl.rs and crates/blk-thread/src/virtio.rs,
-- that the root task answers with the physical address of a virtual one.
use rust_root_task_demo_mi_d.Prelude.{
  ℕ, ◌+◌, ◌%◌, ◌<◌, ◌≡◌, refl, sym, ap, ◌∙◌, List, [], ◌∷◌, none, some, get_elem?, get_elem?-lt,
  length, arith, wrap64, ok, err,
}
use rust_root_task_demo_mi_d.BTree.{get}
use rust_root_task_demo_mi_d.Ipc.{Ipc}
use rust_root_task_demo_mi_d.TaskHelper.{Sel4TaskHelper}
use rust_root_task_demo_mi_d.RootTask.{RootKernel, Root, page_of}
use rust_root_task_demo_mi_d.RootTask.Translate.{
  AddressLaws, try_from-translate, build-translate, translate_message, label-translate_message,
  length-translate_message, serve_translate, serve_untranslatable,
}
use rust_root_task_demo_mi_d.Dma.{
  Transfer, Driver, CallError, no_reply, call_root, translated, translate,
}

-- A list that begins with a number.
starts_with :
    (regs : List ℕ) (v : ℕ) → get_elem? regs 0 ≡ some v → (rest : List ℕ) × (regs ≡ v ∷ rest)
starts_with [] v e = cc
starts_with (x ∷ regs) v e = (regs, ground arith)

-- A driver whose requests reach the root task: both have a message register, and the badge names
-- the driver's task.
pub record IsServed (ipc : Ipc) (k : RootKernel) (badge : ℕ) (task : Sel4TaskHelper)
    (d : Driver ipc k) : Type 0 where
  pub own : 0 < length d.regs
  pub other : 0 < length d.root.regs
  pub known : get_elem? d.root.tasks badge ≡ some task

module _ (ipc : Ipc) (k : RootKernel) (laws : AddressLaws k) (t : Transfer) (badge : ℕ)
    (task : Sel4TaskHelper) where
  -- A first register comes over whole.
  received :
      (n v : ℕ) (from to : List ℕ)
      → 0 < n
      → 0 < length to
      → (rest : List ℕ) × (t.transfer n (v ∷ from) to ≡ v ∷ rest)
  received n v from to some_word room =
      starts_with (t.transfer n (v ∷ from) to) v
        (t.transfer_lem n 0 v (v ∷ from) to some_word room refl)

  -- The call that asks for a translation, from its registers to the answer's.
  call_root-translate :
      (vaddr page : ℕ) (own : List ℕ) (d : Driver ipc k)
      → d.regs ≡ vaddr ∷ own
      → IsServed ipc k badge task d
      → get task.mapped_page (page_of vaddr) ≡ some page
      → (d' : Driver ipc k) × (rest : List ℕ) × (call_root ipc k t badge (translate_message ipc k) d
          ≡ (d', ok (translate_message ipc k)))
        × (d'.regs ≡ wrap64 (laws.phys page + vaddr % 4096) ∷ rest)
        × (d'.dma_addr ≡ d.dma_addr)
        × IsServed ipc k badge task d'
  unfolding call_root
  call_root-translate vaddr page own d e served mapped =
      let message : ipc.MessageInfo = translate_message ipc k in
      let p : ℕ = wrap64 (laws.phys page + vaddr % 4096) in
      let one : 0 < ipc.length message = omega (arith, length-translate_message ipc k) in
      let (rest, sent) = received (ipc.length message) vaddr own d.root.regs one served.other in
      let root₀ : Root ipc k = record (d.root) {
        regs = t.transfer (ipc.length message) d.regs d.root.regs;
        replies = [];
      } in
      let sent' : root₀.regs ≡ vaddr ∷ rest =
        ap (λ r. t.transfer (ipc.length message) r d.root.regs) e ∙ sent in
      let (s', served') =
        serve_translate ipc k {E = CallError} laws message badge vaddr page rest root₀ task
          (label-translate_message ipc k) sent' served.known mapped in
      let (back, answer) = received (ipc.length message) p rest d.regs one served.own in
      let length_back : length (p ∷ back) ≡ length d.regs =
        sym (ap length answer) ∙ t.length-transfer (ipc.length message) (p ∷ rest) d.regs in
      let length_sent : length (vaddr ∷ rest) ≡ length d.root.regs =
        sym (ap length sent') ∙ t.length-transfer (ipc.length message) d.regs d.root.regs in
      (
        record {
          dma_addr = d.dma_addr;
          regs = t.transfer (ipc.length message) (p ∷ rest) d.regs;
          root = record root₀ {
            kernel = s';
            regs = p ∷ rest;
            replies = record { info = message; regs = p ∷ rest } ∷ [];
          };
        },
        back,
        rw served' refl,
        answer,
        refl,
        record {
          own = omega (arith, ap length answer, served.own, length_back);
          other = omega arith;
          known = served.known;
        },
      )

  -- An address on a page of the driver's task is translated.
  pub translate_lem :
      (vaddr page : ℕ) (d : Driver ipc k)
      → IsServed ipc k badge task d
      → get task.mapped_page (page_of vaddr) ≡ some page
      → (d' : Driver ipc k) × (translate ipc k t badge vaddr d
          ≡ (d', ok (wrap64 (laws.phys page + vaddr % 4096))))
        × (d'.dma_addr ≡ d.dma_addr)
        × IsServed ipc k badge task d'
  unfolding translate translated
  translate_lem vaddr page d served mapped =
      let (r, first) = get_elem?-lt d.regs 0 served.own in
      let (own, regs) = starts_with d.regs r first in
      let (d', rest, e, regs', same, served') =
        call_root-translate vaddr page own (record d { regs = vaddr ∷ own }) refl
          (record { own = omega arith; other = served.other; known = served.known }) mapped in
      (
        d',
        rw
            (
              regs,
              build-translate ipc k {E = CallError} vaddr r own,
              e,
              regs',
              try_from-translate ipc k {E = CallError} (translate_message ipc k) rest
                  (wrap64 (laws.phys page + vaddr % 4096)) (label-translate_message ipc k),
            )
            (ap (λ g. (record d' { regs = g }, ok (wrap64 (laws.phys page + vaddr % 4096))))
              (sym regs')),
        same,
        served',
      )

  -- An address on no page of the driver's task gets no reply.
  pub translate_unmapped :
      (vaddr : ℕ) (d : Driver ipc k)
      → IsServed ipc k badge task d
      → get task.mapped_page (page_of vaddr) ≡ none
      → (translate ipc k t badge vaddr d).1 ≡ err no_reply
  unfolding translate call_root
  translate_unmapped vaddr d served missing =
      let message : ipc.MessageInfo = translate_message ipc k in
      let (r, first) = get_elem?-lt d.regs 0 served.own in
      let (own, regs) = starts_with d.regs r first in
      let one : 0 < ipc.length message = omega (arith, length-translate_message ipc k) in
      let (rest, sent) = received (ipc.length message) vaddr own d.root.regs one served.other in
      let root₀ : Root ipc k = record (d.root) {
        regs = t.transfer (ipc.length message) (vaddr ∷ own) d.root.regs;
        replies = [];
      } in
      rw
        (
          regs,
          build-translate ipc k {E = CallError} vaddr r own,
          serve_untranslatable ipc k {E = CallError} laws message badge vaddr rest root₀ task
              (label-translate_message ipc k) sent served.known missing,
        )
        refl
