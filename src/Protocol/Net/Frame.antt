-- ===== src/Protocol/Net/Frame.antt =====
-- What a net request keeps and changes on its way through the message registers
-- (`NetRequsetabel::build` and `try_from` of crates/common/src/lib.rs).
use rust_root_task_demo_mi_d.Prelude.{
  ℕ, ◌≤◌, ◌≡◌, refl, List, [], ◌∷◌, Outcome, arith, length, drop, some, ok, err, panic, ◌>>=◌,
}
use rust_root_task_demo_mi_d.Ipc.{Ipc}
use rust_root_task_demo_mi_d.Protocol.Net.{
  NetRequsetabel, new_socket, is_non_blocking, set_non_blocking, bind, send, recv, recv_timeout,
  connect, listen, accept, shutdown, close, decode, try_from, build,
}

module _ (ipc : Ipc) where
  open ipc use {MessageInfo, label-new, length-new}

  -- The built message says how many registers it uses: those behind them keep their values, and
  -- the buffer its size.
  abbrev pub Frame : {E : Type 0} → List ℕ → List ℕ × Outcome E MessageInfo → Type 0
  Frame regs (regs', ok message) =
      (drop (ipc.length message) regs' ≡ drop (ipc.length message) regs)
      × (length regs' ≡ length regs)
  Frame regs (regs', err e) = ⊥
  Frame regs (regs', panic) = ⊥

  new-Frame :
      (l c n : ℕ) (regs regs' : List ℕ)
      → n ≤ 4
      → drop n regs' ≡ drop n regs
      → length regs' ≡ length regs
      → Frame {E = ⊥} regs (regs', ok (ipc.new l 0 c n))
  new-Frame l c n regs regs' small kept size = (rw (length-new l 0 c n (omega arith)) kept, size)

  -- Building a net request in a buffer of at least four registers succeeds, keeps the size of the
  -- buffer and the registers behind the message.
  pub build-Frame :
      (request : NetRequsetabel) (regs : List ℕ)
      → 4 ≤ length regs
      → Frame regs (build ipc {E = ⊥} request regs)
  unfolding build
  build-Frame request [] h = absurd (omega arith)
  build-Frame request (r ∷ []) h = absurd (omega arith)
  build-Frame request (r ∷ s ∷ []) h = absurd (omega arith)
  build-Frame request (r ∷ s ∷ t ∷ []) h = absurd (omega arith)
  build-Frame new_socket (r ∷ s ∷ t ∷ u ∷ regs) h = new-Frame _ _ 0 _ _ (omega arith) refl refl
  build-Frame (set_non_blocking a b) (r ∷ s ∷ t ∷ u ∷ regs) h =
      new-Frame _ _ 2 _ _ (omega arith) refl refl
  build-Frame (bind a b) (r ∷ s ∷ t ∷ u ∷ regs) h = new-Frame _ _ 2 _ _ (omega arith) refl refl
  build-Frame (connect a b) (r ∷ s ∷ t ∷ u ∷ regs) h = new-Frame _ _ 2 _ _ (omega arith) refl refl
  build-Frame (send a b c) (r ∷ s ∷ t ∷ u ∷ regs) h = new-Frame _ _ 3 _ _ (omega arith) refl refl
  build-Frame (recv a b c) (r ∷ s ∷ t ∷ u ∷ regs) h = new-Frame _ _ 3 _ _ (omega arith) refl refl
  build-Frame (recv_timeout a b c d) (r ∷ s ∷ t ∷ u ∷ regs) h =
      new-Frame _ _ 4 _ _ (omega arith) refl refl
  build-Frame (is_non_blocking a) (r ∷ s ∷ t ∷ u ∷ regs) h =
      new-Frame _ _ 1 _ _ (omega arith) refl refl
  build-Frame (listen a) (r ∷ s ∷ t ∷ u ∷ regs) h = new-Frame _ _ 1 _ _ (omega arith) refl refl
  build-Frame (accept a) (r ∷ s ∷ t ∷ u ∷ regs) h = new-Frame _ _ 1 _ _ (omega arith) refl refl
  build-Frame (shutdown a) (r ∷ s ∷ t ∷ u ∷ regs) h = new-Frame _ _ 1 _ _ (omega arith) refl refl
  build-Frame (close a) (r ∷ s ∷ t ∷ u ∷ regs) h = new-Frame _ _ 1 _ _ (omega arith) refl refl

  -- A net request that is built is read back from the registers by the receiver, and reading
  -- leaves them as they are, if the buffer has at least four registers.
  pub net_round_trip :
      {E : Type 0} (request : NetRequsetabel) (regs : List ℕ)
      → 4 ≤ length regs
      → (build ipc {E = E} request >>= try_from ipc) regs
        ≡ ((build ipc {E = E} request regs).0, ok (some request))
  unfolding build try_from decode
  net_round_trip request [] h = absurd (omega arith)
  net_round_trip request (r ∷ []) h = absurd (omega arith)
  net_round_trip request (r ∷ s ∷ []) h = absurd (omega arith)
  net_round_trip request (r ∷ s ∷ t ∷ []) h = absurd (omega arith)
  net_round_trip new_socket (r ∷ s ∷ t ∷ u ∷ regs) h = rw (label-new 0x400 0 0 0 (omega arith))
  net_round_trip (is_non_blocking a) (r ∷ s ∷ t ∷ u ∷ regs) h =
      rw (label-new 0x401 0 0 1 (omega arith))
  net_round_trip (set_non_blocking a b) (r ∷ s ∷ t ∷ u ∷ regs) h =
      rw (label-new 0x402 0 0 2 (omega arith))
  net_round_trip (bind a b) (r ∷ s ∷ t ∷ u ∷ regs) h = rw (label-new 0x403 0 1 2 (omega arith))
  net_round_trip (send a b c) (r ∷ s ∷ t ∷ u ∷ regs) h = rw (label-new 0x404 0 1 3 (omega arith))
  net_round_trip (recv a b c) (r ∷ s ∷ t ∷ u ∷ regs) h = rw (label-new 0x405 0 1 3 (omega arith))
  net_round_trip (recv_timeout a b c d) (r ∷ s ∷ t ∷ u ∷ regs) h =
      rw (label-new 0x406 0 1 4 (omega arith))
  net_round_trip (connect a b) (r ∷ s ∷ t ∷ u ∷ regs) h = rw (label-new 0x407 0 1 2 (omega arith))
  net_round_trip (listen a) (r ∷ s ∷ t ∷ u ∷ regs) h = rw (label-new 0x408 0 0 1 (omega arith))
  net_round_trip (accept a) (r ∷ s ∷ t ∷ u ∷ regs) h = rw (label-new 0x409 0 0 1 (omega arith))
  net_round_trip (shutdown a) (r ∷ s ∷ t ∷ u ∷ regs) h = rw (label-new 0x40a 0 0 1 (omega arith))
  net_round_trip (close a) (r ∷ s ∷ t ∷ u ∷ regs) h = rw (label-new 0x40b 0 0 1 (omega arith))
