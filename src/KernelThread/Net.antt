-- ===== src/KernelThread/Net.antt =====
-- The net thread as the kernel thread calls it, crates/kernel-thread/src/syscall/net/ipc.rs.
pub mod Calls
pub mod Replies
pub mod Keeps
use rust_root_task_demo_mi_d.Prelude.{
  ℕ, ◌-◌, ◌%◌, ◌^◌, Bool, true, false, not, List, [], ◌∷◌, Option, none, some, ltb, ◌==◌,
  if◌then◌else◌, length, Outcome, ok, err, panic, Exec, pure, fail, abort, unwrap, unwrapped, ◌>>=◌,
  ◌>>◌,
}
use rust_root_task_demo_mi_d.Ipc.{Ipc, read_reg}
use rust_root_task_demo_mi_d.Protocol.Net.{
  NetRequsetabel, new_socket, is_non_blocking, set_non_blocking, bind, send, recv, recv_timeout,
  connect, listen, accept, shutdown, close, build,
}
use rust_root_task_demo_mi_d.Sel4.{Kernel}
use rust_root_task_demo_mi_d.Alloc.{Machine, call, allocate_and_retyped_fixed_sized}
use rust_root_task_demo_mi_d.NetThread.Smoltcp.{IpEndpoint}
use rust_root_task_demo_mi_d.NetThread.ListenTable.{AxError}
use rust_root_task_demo_mi_d.KernelThread.Server.{Server}

-- The numbers of the axerrno crate's errors: `code`, and `try_from` on the bits of an `i32`.
pub record AxCodes : Type 0 where
  pub code : AxError → ℕ
  pub of_code : ℕ → Option AxError

-- What the calls use of the kernel and of the memory at the seat page, on the kernel's state.
pub record Wire (k : Kernel) (ipc : Ipc) : Type 0 where
  pub page_seat_vaddr : ℕ
  pub vspace : ℕ
  pub write_seat : List ℕ → k.State → k.State
  -- So many bytes of the seat page.
  pub read_seat : ℕ → k.State → List ℕ
  -- `ipc_ep.call`, with the capability and the registers of the IPC buffer; it answers in these.
  pub call : ipc.MessageInfo → ℕ → List ℕ → k.State → k.State × List ℕ
  -- Where the compiler puts a local `SocketAddr`, and its bytes.
  pub local_addr_ptr : ℕ
  pub addr_bytes : IpEndpoint → List ℕ

-- The kernel thread with the counter of task identifiers, at its IPC buffer: the message registers
-- and the first of `caps_or_badges`.
pub record Desk (k : Kernel) : Type 0 where
  pub server : Server k
  pub id_counter : ℕ
  pub regs : List ℕ
  pub cap : ℕ

-- A buffer of bytes, by its address.
pub record Buffer : Type 0 where
  pub ptr : ℕ
  pub bytes : List ℕ

-- `val as i32`, by its bits.
abbrev pub low32 : ℕ → ℕ
low32 val = val % 2 ^ 32

-- `(val as i64) < 0`.
abbrev pub is_negative : ℕ → Bool
is_negative val = not (ltb val (2 ^ 63))

-- `(val as i32).abs()`, which wraps at the least number.
abbrev pub abs32 : ℕ → ℕ
abs32 val = if ltb (low32 val) (2 ^ 31) then low32 val else 2 ^ 32 - low32 val

module _ {k : Kernel} {ipc : Ipc} (w : Wire k ipc) (codes : AxCodes) where
  abbrev pub on_machine : {A : Type 0} → Exec (Machine k) AxError A → Exec (Desk k) AxError A
  on_machine op d =
      let (m, r) = op d.server.machine in
      (record d { server = record (d.server) { machine = m } }, r)

  abbrev pub on_regs : {A : Type 0} → Exec (List ℕ) AxError A → Exec (Desk k) AxError A
  on_regs op d = let (regs, r) = op d.regs in (record d { regs = regs }, r)

  abbrev pub update_kernel : (k.State → k.State) → Exec (Desk k) AxError (Unit {0})
  update_kernel f d = (
    record d {
      server = record (d.server) {
        machine = record (d.server.machine) { kernel = f d.server.machine.kernel };
      };
    },
    ok tt,
  )

  abbrev pub put_cap : Option ℕ → Desk k → Desk k
  put_cap none d = d
  put_cap (some cap) d = record d { cap = cap }

  -- The call itself, with what the buffer holds.
  abbrev pub call_net : ipc.MessageInfo → Exec (Desk k) AxError (Unit {0})
  call_net message d =
      let (s, regs) = w.call message d.cap d.regs d.server.machine.kernel in
      (
        record d {
          server = record (d.server) { machine = record (d.server.machine) { kernel = s } };
          regs = regs;
        },
        ok tt,
      )

  unfoldable pub send_net_ipc : NetRequsetabel → Option ℕ → Exec (Desk k) AxError (Unit {0})
  send_net_ipc label cap = do
    λ d. (put_cap cap d, ok tt)
    message ← on_regs (build ipc label)
    call_net message

  -- A fresh page at the seat, with the bytes of an item; it stays mapped there.
  unfoldable pub gen_cap : List ℕ → Exec (Desk k) AxError ℕ
  gen_cap bytes = do
    new_cap ← on_machine (allocate_and_retyped_fixed_sized k.granule)
    on_machine (call (k.frame_map new_cap w.vspace w.page_seat_vaddr k.all_rights))
    if ltb 4096 (length bytes) then abort else (do update_kernel (w.write_seat bytes); pure new_cap)

  -- `try_into().unwrap()` on the number of an error.
  abbrev pub error_of : {A : Type 0} → ℕ → Exec (Desk k) AxError A
  error_of n = do e ← unwrap (codes.of_code n); fail e

  unfoldable pub handle_axresult : ℕ → Exec (Desk k) AxError ℕ
  handle_axresult val = if low32 val == 0 then pure val else error_of (low32 val)

  -- `handle_axresult(buffer.msg_regs()[0])`.
  unfoldable pub result : Exec (Desk k) AxError ℕ
  result = do val ← on_regs (read_reg 0); handle_axresult val

  unfoldable pub status : Exec (Desk k) AxError (Unit {0})
  status = do val ← result; pure tt

  unfoldable pub tcp_new : Exec (Desk k) AxError ℕ
  tcp_new = do send_net_ipc new_socket none; on_regs (read_reg 0)

  unfoldable pub tcp_is_non_blocking : ℕ → Exec (Desk k) AxError Bool
  tcp_is_non_blocking socket_id = do
    send_net_ipc (is_non_blocking socket_id) none
    val ← on_regs (read_reg 0)
    pure (not (val == 0))

  unfoldable pub tcp_set_nonblocking : ℕ → Bool → Exec (Desk k) AxError (Unit {0})
  tcp_set_nonblocking socket_id flag =
      send_net_ipc (set_non_blocking socket_id (if flag then 1 else 0)) none

  unfoldable pub tcp_bind : ℕ → IpEndpoint → Exec (Desk k) AxError (Unit {0})
  tcp_bind socket_id local_addr = do
    cap ← gen_cap (w.addr_bytes local_addr)
    send_net_ipc (bind socket_id w.local_addr_ptr) (some cap)
    status

  unfoldable pub tcp_send : ℕ → Buffer → Exec (Desk k) AxError ℕ
  tcp_send socket_id buf = if ltb 4096 (length buf.bytes) then abort else (do
    cap ← gen_cap buf.bytes
    update_kernel (w.write_seat buf.bytes)
    send_net_ipc (send socket_id buf.ptr (length buf.bytes)) (some cap)
    result)

  -- The bytes that are copied to the buffer, as many as the reply's first word says, with the
  -- result.
  unfoldable pub received : Exec (Desk k) AxError (List ℕ × Outcome AxError ℕ)
  received = do
    len ← on_regs (read_reg 0)
    bytes ← (λ d. (d, ok (w.read_seat len d.server.machine.kernel)))
    λ d. let (e, r) = handle_axresult len d in (e, ok (bytes, r))

  unfoldable pub tcp_recv : ℕ → Buffer → Exec (Desk k) AxError (List ℕ × Outcome AxError ℕ)
  tcp_recv socket_id buf = if ltb 4096 (length buf.bytes) then abort else (do
    cap ← gen_cap buf.bytes
    send_net_ipc (recv socket_id buf.ptr (length buf.bytes)) (some cap)
    received)

  unfoldable pub tcp_recv_timeout :
      ℕ → Buffer → ℕ → Exec (Desk k) AxError (List ℕ × Outcome AxError ℕ)
  tcp_recv_timeout socket_id buf timeout = if ltb 4096 (length buf.bytes) then abort else (do
    cap ← gen_cap buf.bytes
    send_net_ipc (recv_timeout socket_id buf.ptr (length buf.bytes) timeout) (some cap)
    received)

  unfoldable pub tcp_listen : ℕ → Exec (Desk k) AxError (Unit {0})
  tcp_listen socket_id = do send_net_ipc (listen socket_id) none; status

  unfoldable pub tcp_connect : ℕ → IpEndpoint → Exec (Desk k) AxError (Unit {0})
  tcp_connect socket_id remote_addr = do
    cap ← gen_cap (w.addr_bytes remote_addr)
    send_net_ipc (connect socket_id 0) (some cap)
    status

  -- The five words of the reply, unless the first is negative.
  unfoldable pub accepted : Exec (Desk k) AxError (ℕ × ℕ × ℕ × ℕ × ℕ)
  accepted = do
    a ← on_regs (read_reg 0)
    if is_negative a then error_of (abs32 a) else (do
      b ← on_regs (read_reg 1)
      c ← on_regs (read_reg 2)
      d ← on_regs (read_reg 3)
      e ← on_regs (read_reg 4)
      pure (a, b, c, d, e))

  unfoldable pub tcp_accept : ℕ → Exec (Desk k) AxError (ℕ × ℕ × ℕ × ℕ × ℕ)
  tcp_accept socket_id = do send_net_ipc (accept socket_id) none; accepted

  unfoldable pub tcp_close : ℕ → Exec (Desk k) AxError (Unit {0})
  tcp_close socket_id = do send_net_ipc (close socket_id) none; status

  unfoldable pub tcp_shutdown : ℕ → Exec (Desk k) AxError (Unit {0})
  tcp_shutdown socket_id = do send_net_ipc (shutdown socket_id) none; status
