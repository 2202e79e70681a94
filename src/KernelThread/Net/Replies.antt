-- ===== src/KernelThread/Net/Replies.antt =====
-- What the kernel thread makes of the replies of the net thread,
-- crates/kernel-thread/src/syscall/net/ipc.rs and net_impl.rs.
use rust_root_task_demo_mi_d.Prelude.{
  ℕ, ◌^◌, ◌<◌, ◌≡◌, refl, false, List, ◌∷◌, Option, none, some, ◌==◌, ==_false, if◌then◌else◌,
  arith, Outcome, ok, err, panic, pure, Bool-cases, inl, inr,
}
use rust_root_task_demo_mi_d.BTree.{BTreeMap}
use rust_root_task_demo_mi_d.Ipc.{Ipc}
use rust_root_task_demo_mi_d.Protocol.Net.{NetRequsetabel, build}
use rust_root_task_demo_mi_d.Sel4.{Kernel}
use rust_root_task_demo_mi_d.Crates.{MemoryAddr}
use rust_root_task_demo_mi_d.NetThread.ListenTable.{
  AxError, addr_in_use, already_exists, bad_state, connection_refused, connection_reset,
  invalid_input, not_connected, would_block,
}
use rust_root_task_demo_mi_d.KernelThread.Server.{Errno, einval}
use rust_root_task_demo_mi_d.KernelThread.Net.{
  AxCodes, Wire, Desk, low32, send_net_ipc, handle_axresult, result, status, tcp_listen,
}
use rust_root_task_demo_mi_d.KernelThread.Net.Calls.{
  UserMemory, high_bytes, parse_ipaddr, invalid_or_in_use, settle, accept_reply, sys_listen,
  socket_id_of,
}

-- The errors have numbers of their own, which are small and not 0.
pub record CodesLaws (codes : AxCodes) : Type 0 where
  pub small : (e : AxError) → codes.code e < 2 ^ 31
  pub positive : (e : AxError) → 0 < codes.code e
  pub of_code-code : (e : AxError) → codes.of_code (codes.code e) ≡ some e

-- The reply that stands for a result, as `handle_axresult` of the net thread encodes it.
abbrev pub encode : AxCodes → Option AxError → ℕ
encode codes none = 0
encode codes (some e) = codes.code e

abbrev pub result_of : Option AxError → Outcome AxError (Unit {0})
result_of none = ok tt
result_of (some e) = err e

abbrev pub errno_of : Option AxError → Outcome Errno ℕ
errno_of none = ok 0
errno_of (some addr_in_use) = err einval
errno_of (some invalid_input) = err einval
errno_of (some already_exists) = panic
errno_of (some bad_state) = panic
errno_of (some connection_refused) = panic
errno_of (some connection_reset) = panic
errno_of (some not_connected) = panic
errno_of (some would_block) = panic

errno_of-codes :
    (e : AxError) → errno_of (some e) ≡ (if invalid_or_in_use e then err einval else panic)
errno_of-codes addr_in_use = refl
errno_of-codes invalid_input = refl
errno_of-codes already_exists = refl
errno_of-codes bad_state = refl
errno_of-codes connection_refused = refl
errno_of-codes connection_reset = refl
errno_of-codes not_connected = refl
errno_of-codes would_block = refl

module _ {k : Kernel} {ipc : Ipc} (w : Wire k ipc) (codes : AxCodes) where
  -- A call without a capability, from the registers that it writes to those of the reply.
  send_net_ipc_lem :
      (label : NetRequsetabel) (message : ipc.MessageInfo) (written reply : List ℕ) (s : k.State)
      (d : Desk k)
      → build ipc {E = AxError} label d.regs ≡ (written, ok message)
      → w.call message d.cap written d.server.machine.kernel ≡ (s, reply)
      → send_net_ipc w codes label none d ≡ (
        record d {
          server = record (d.server) { machine = record (d.server.machine) { kernel = s } };
          regs = reply;
        },
        ok tt,
      )
  unfolding send_net_ipc
  send_net_ipc_lem label message written reply s d built answer = rw (built, answer) refl

  module _ (laws : CodesLaws codes) where
    -- The kernel thread reads the result that the net thread encodes.
    pub status_round_trip :
        (e : Option AxError) (rest : List ℕ) (d : Desk k)
        → d.regs ≡ encode codes e ∷ rest
        → (status w codes d).1 ≡ result_of e
    unfolding status result handle_axresult
    status_round_trip none rest d regs = simp regs
    status_round_trip (some e) rest d regs =
        let n : low32 (codes.code e) ≡ codes.code e = omega (arith, laws.small e) in
        let nonzero : (codes.code e == 0) ≡ false = ==_false _ _ (omega (arith, laws.positive e)) in
        simp (regs, n, nonzero, laws.of_code-code e)

  module _ (mem : MemoryAddr) (u : UserMemory k) where
    settle-errno_of :
        (e : Option AxError) (p : Desk k × Outcome AxError (Unit {0}))
        → p.1 ≡ result_of e
        → (settle mem u w codes invalid_or_in_use (λ _. pure 0) p).1 ≡ errno_of e
    settle-errno_of none (d, ok _) h = refl
    settle-errno_of none (d, err e) h = cc
    settle-errno_of none (d, panic) h = cc
    settle-errno_of (some e) (d, ok _) h = cc
    settle-errno_of (some e) (d, err e') h =
        let same : e' ≡ e = cc in
        elim (Bool-cases (invalid_or_in_use e)) [
          | inl refused ↦ rw (errno_of-codes e, same, refused)
          | inr unknown ↦ rw (errno_of-codes e, same, unknown)
        ]
    settle-errno_of (some e) (d, panic) h = cc

    -- The reply to `listen` that encodes a result becomes the result of the system call: 0, EINVAL
    -- for an invalid argument or an address in use, and a panic for any other error.
    pub sys_listen_lem :
        (laws : CodesLaws codes) (socket_fd r : ℕ) (e : Option AxError) (regs rest : List ℕ)
        (s : k.State) (d : Desk k)
        → d.regs ≡ r ∷ regs
        → w.call (ipc.new 0x408 0 0 1) d.cap (socket_id_of socket_fd ∷ regs) d.server.machine.kernel
          ≡ (s, encode codes e ∷ rest)
        → (sys_listen mem u w codes socket_fd d).1 ≡ errno_of e
    unfolding sys_listen tcp_listen send_net_ipc build
    sys_listen_lem laws socket_fd r e regs rest s d before answer =
        settle-errno_of e (tcp_listen w codes (socket_id_of socket_fd) d) (
          simp (before, answer)
            (status_round_trip laws e rest
              (record d {
                server = record (d.server) { machine = record (d.server.machine) { kernel = s } };
                regs = encode codes e ∷ rest;
              })
              refl))

    -- Whatever the IPv4 address of the peer, `accept` writes the same address to the task.
    pub accept_reply_ipv4 :
        (pages : BTreeMap ℕ) (addr socket_id port low high : ℕ) (d : Desk k)
        → low < 2 ^ 32
        → accept_reply mem u w codes pages addr (socket_id, 1, port, low, high) d
          ≡ accept_reply mem u w codes pages addr (socket_id, 1, port, 0, 0) d
    unfolding accept_reply parse_ipaddr
    accept_reply_ipv4 pages addr socket_id port low high d small =
        let nothing : high_bytes low ≡ 0 = omega arith in rw nothing refl
