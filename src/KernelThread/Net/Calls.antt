-- ===== src/KernelThread/Net/Calls.antt =====
-- The socket system calls, crates/kernel-thread/src/syscall/net/net_impl.rs, with `read_item` and
-- the like of crates/kernel-thread/src/utils.rs on the memory of the task.
use rust_root_task_demo_mi_d.Prelude.{
  ℕ, ◌+◌, ◌-◌, ◌*◌, ◌/◌, ◌%◌, ◌^◌, Bool, true, false, not, ◌||◌, List, [], ◌++◌, none, some, ltb,
  ◌==◌, if◌then◌else◌, take, drop, Outcome, ok, err, panic, Exec, pure, unwrap, ◌>>=◌, ◌>>◌,
}
use Prim.Native.Nat.{bit_or}
use rust_root_task_demo_mi_d.BTree.{BTreeMap, get}
use rust_root_task_demo_mi_d.Ipc.{Ipc}
use rust_root_task_demo_mi_d.Sel4.{Kernel}
use rust_root_task_demo_mi_d.Crates.{MemoryAddr}
use rust_root_task_demo_mi_d.Uspace.{
  LibcSocketAddr, default_libc, from_socket_addr, into_socket_addr,
}
use rust_root_task_demo_mi_d.NetThread.Smoltcp.{ipv4, ipv6, IpEndpoint}
use rust_root_task_demo_mi_d.NetThread.ListenTable.{
  AxError, addr_in_use, already_exists, bad_state, connection_refused, connection_reset,
  invalid_input, not_connected, would_block,
}
use rust_root_task_demo_mi_d.KernelThread.Server.{Errno, einval}
use rust_root_task_demo_mi_d.KernelThread.Copy.{Seat, process_item_list}
use rust_root_task_demo_mi_d.KernelThread.Net.{
  AxCodes, Wire, Desk, Buffer, tcp_new, tcp_bind, tcp_send, tcp_recv, tcp_listen, tcp_connect,
  tcp_accept, tcp_shutdown,
}

-- The kernel's part of `process_item_list`, and what is read and written through the seat page. A
-- store writes so many bytes from where the item's bytes begin.
pub record UserMemory (k : Kernel) : Type 0 where
  pub page_seat_vaddr : ℕ
  pub copy_cap : ℕ → Exec k.State k.Error (Unit {0})
  pub map_seat : Exec k.State k.Error (Unit {0})
  pub unmap_seat : Exec k.State k.Error (Unit {0})
  pub delete_cap : Exec k.State k.Error (Unit {0})
  pub put_chars : ℕ → ℕ → Exec k.State k.Error (Unit {0})
  pub load_addr : ℕ → k.State → LibcSocketAddr
  pub store_addr : ℕ → LibcSocketAddr → ℕ → k.State → k.State
  pub load_bytes : ℕ → ℕ → k.State → List ℕ
  pub store_bytes : ℕ → List ℕ → k.State → k.State
  -- Where `Vec::with_capacity` puts its bytes.
  pub heap_ptr : ℕ → ℕ

-- `size_of::<LibcSocketAddr>()`.
abbrev pub addr_size : ℕ
addr_size = 16

-- `socket_fd as u64` of an `i32`, by its bits.
abbrev pub socket_id_of : ℕ → ℕ
socket_id_of socket_fd = if ltb socket_fd (2 ^ 31) then socket_fd else socket_fd + (2 ^ 64 - 2 ^ 32)

-- `Vec::with_capacity(len)`, whose slice is empty.
unfoldable pub with_capacity : {k : Kernel} → UserMemory k → ℕ → Buffer
with_capacity u len = record { ptr = u.heap_ptr len; bytes = [] }

-- The first four bytes of a word, the highest first.
abbrev pub high_bytes : ℕ → ℕ
high_bytes word = (word / 2 ^ 32) % 2 ^ 32

unfoldable pub parse_ipaddr : Bool → ℕ → ℕ → ℕ → IpEndpoint
parse_ipaddr true addr_low addr_high port = record {
  addr = ipv4 (high_bytes addr_low);
  port = port;
}
parse_ipaddr false addr_low addr_high port = record {
  addr = ipv6 (bit_or (addr_high * 2 ^ 32) addr_low);
  port = port;
}

-- What the calls make of an error; `sys_bind` has no arm for `AddrInUse`.
abbrev pub is_invalid : AxError → Bool
is_invalid invalid_input = true
is_invalid addr_in_use = false
is_invalid already_exists = false
is_invalid bad_state = false
is_invalid connection_refused = false
is_invalid connection_reset = false
is_invalid not_connected = false
is_invalid would_block = false

abbrev pub is_in_use : AxError → Bool
is_in_use addr_in_use = true
is_in_use invalid_input = false
is_in_use already_exists = false
is_in_use bad_state = false
is_in_use connection_refused = false
is_in_use connection_reset = false
is_in_use not_connected = false
is_in_use would_block = false

abbrev pub invalid_or_in_use : AxError → Bool
invalid_or_in_use e = is_invalid e || is_in_use e

module _ {k : Kernel} {ipc : Ipc} (mem : MemoryAddr) (u : UserMemory k) (w : Wire k ipc)
    (codes : AxCodes) where
  -- A call of the kernel, beside a local variable.
  abbrev pub lift :
      {T : Type 0} → Exec k.State k.Error (Unit {0}) → Exec (Desk k × T) k.Error (Unit {0})
  lift op (d, x) =
      let (s, r) = op d.server.machine.kernel in
      (
        (
          record d {
            server = record (d.server) { machine = record (d.server.machine) { kernel = s } };
          },
          x,
        ),
        r,
      )

  -- A write to the memory at the seat page.
  abbrev pub stored : {T : Type 0} → (k.State → k.State) → Exec (Desk k × T) Errno (Unit {0})
  stored f (d, x) = (
    (
      record d {
        server = record (d.server) {
          machine = record (d.server.machine) { kernel = f d.server.machine.kernel };
        };
      },
      x,
    ),
    ok tt,
  )

  abbrev pub desk_seat : Type 0 → Seat
  desk_seat T = record {
    State = Desk k × T;
    Error = k.Error;
    page_seat_vaddr = u.page_seat_vaddr;
    copy_cap = λ cap. lift (u.copy_cap cap);
    map_seat = lift u.map_seat;
    unmap_seat = lift u.unmap_seat;
    delete_cap = lift u.delete_cap;
    put_chars = λ offset n. lift (u.put_chars offset n);
  }

  -- A run beside a local variable, of which the variable is dropped or kept.
  abbrev pub dropped : {T A : Type 0} → (Desk k × T) × Outcome Errno A → Desk k × Outcome Errno A
  dropped ((d, x), r) = (d, r)

  abbrev pub kept : {T A : Type 0} → (Desk k × T) × Outcome Errno A → Desk k × Outcome Errno T
  kept ((d, x), ok a) = (d, ok x)
  kept ((d, x), err e) = (d, err e)
  kept ((d, x), panic) = (d, panic)

  -- `task_map.get(&badge).unwrap()`, of which the pages are used.
  abbrev pub pages_of : ℕ → Exec (Desk k) Errno (BTreeMap ℕ)
  pages_of badge d = (do task ← unwrap (get d.server.tasks badge); pure (task.mapped_page)) d

  -- `read_item` of an address.
  unfoldable pub read_item : BTreeMap ℕ → ℕ → Exec (Desk k) Errno LibcSocketAddr
  unfolding process_item_list
  read_item pages addr d = kept (
      process_item_list mem (desk_seat LibcSocketAddr) addr_size pages addr none
        (λ src offset n (e, item). ((e, u.load_addr src e.server.machine.kernel), ok tt))
        (d, default_libc))

  -- `write_item` of an address: `copy_nonoverlapping` counts items, not bytes.
  unfoldable pub write_item : BTreeMap ℕ → ℕ → LibcSocketAddr → Exec (Desk k) Errno ℕ
  unfolding process_item_list
  write_item pages addr item d = dropped (
      process_item_list mem (desk_seat (Unit {0})) addr_size pages addr none
        (λ dst offset n. stored (u.store_addr dst item (n * addr_size))) (d, tt))

  -- `read_item_list` of bytes: what is copied, in front of what was copied before.
  unfoldable pub read_item_list : BTreeMap ℕ → ℕ → ℕ → Exec (Desk k) Errno (List ℕ)
  unfolding process_item_list
  read_item_list pages addr num d = kept (
      process_item_list mem (desk_seat (List ℕ)) 1 pages addr (some num)
        (λ src offset n (e, bytes).
          ((e, bytes ++ (u.load_bytes src n e.server.machine.kernel)), ok tt))
        (d, []))

  -- `write_item_list` of bytes.
  unfoldable pub write_item_list : BTreeMap ℕ → ℕ → ℕ → List ℕ → Exec (Desk k) Errno ℕ
  unfolding process_item_list
  write_item_list pages addr num bytes d = dropped (
      process_item_list mem (desk_seat (Unit {0})) 1 pages addr (some num)
        (λ dst offset n. stored (u.store_bytes dst (take n (drop offset bytes)))) (d, tt))

  -- `match` on the result of a call of the net thread.
  abbrev pub settle :
      {A B : Type 0}
      → (AxError → Bool)
      → (A → Exec (Desk k) Errno B)
      → Desk k × Outcome AxError A
      → Desk k × Outcome Errno B
  settle refused f (d, ok a) = f a d
  settle refused f (d, err e) = if refused e then (d, err einval) else (d, panic)
  settle refused f (d, panic) = (d, panic)

  unfoldable pub sys_socket : Exec (Desk k) Errno ℕ
  unfolding tcp_new
  sys_socket d = settle invalid_or_in_use pure (tcp_new w codes d)

  unfoldable pub sys_bind : ℕ → ℕ → ℕ → Exec (Desk k) Errno ℕ
  sys_bind badge socket_fd addr = do
    pages ← pages_of badge
    item ← read_item pages addr
    λ d.
        settle is_invalid (λ _. pure 0)
          (tcp_bind w codes (socket_id_of socket_fd) (into_socket_addr item) d)

  unfoldable pub sys_connect : ℕ → ℕ → ℕ → Exec (Desk k) Errno ℕ
  sys_connect badge socket_fd addr = do
    pages ← pages_of badge
    item ← read_item pages addr
    λ d.
        settle invalid_or_in_use (λ _. pure 0)
          (tcp_connect w codes (socket_id_of socket_fd) (into_socket_addr item) d)

  unfoldable pub sys_listen : ℕ → Exec (Desk k) Errno ℕ
  sys_listen socket_fd d =
      settle invalid_or_in_use (λ _. pure 0) (tcp_listen w codes (socket_id_of socket_fd) d)

  -- What becomes of `write_item` is ignored, but for a panic.
  abbrev pub ignored : {A : Type 0} → Desk k × Outcome Errno A → Desk k × Outcome Errno (Unit {0})
  ignored (d, ok a) = (d, ok tt)
  ignored (d, err e) = (d, ok tt)
  ignored (d, panic) = (d, panic)

  unfoldable pub accept_reply : BTreeMap ℕ → ℕ → ℕ × ℕ × ℕ × ℕ × ℕ → Exec (Desk k) Errno ℕ
  accept_reply pages addr (socket_id, is_ipv4, port, addr_low, addr_high) = do
    let socket_addr = parse_ipaddr (not (is_ipv4 == 0)) addr_low addr_high (port % 2 ^ 16)
    λ d. ignored (write_item pages addr (from_socket_addr socket_addr) d)
    pure socket_id

  unfoldable pub sys_accept : ℕ → ℕ → ℕ → Exec (Desk k) Errno ℕ
  sys_accept badge socket_fd addr = do
    pages ← pages_of badge
    λ d.
        settle invalid_or_in_use (accept_reply pages addr)
          (tcp_accept w codes (socket_id_of socket_fd) d)

  unfoldable pub sys_shutdown : ℕ → Exec (Desk k) Errno ℕ
  sys_shutdown socket_fd d =
      settle invalid_or_in_use (λ _. pure 0) (tcp_shutdown w codes (socket_id_of socket_fd) d)

  -- The bytes of the task go beyond the end of an empty slice, and none of them is sent.
  unfoldable pub sys_sendto : ℕ → ℕ → ℕ → ℕ → ℕ → Exec (Desk k) Errno ℕ
  sys_sendto badge socket_fd buf len addr = do
    pages ← pages_of badge
    remote ← read_item pages addr
    λ d. ignored (read_item_list pages buf len d)
    λ d.
        settle invalid_or_in_use pure
          (tcp_send w codes (socket_id_of socket_fd) (with_capacity u len) d)

  -- The bytes of the reply are written beyond the end of an empty slice, and the task gets what
  -- the heap holds there.
  abbrev pub recv_reply : BTreeMap ℕ → ℕ → List ℕ × Outcome AxError ℕ → Exec (Desk k) Errno ℕ
  recv_reply pages buf (bytes, r) d =
      settle invalid_or_in_use (λ len. write_item_list pages buf len bytes) (d, r)

  unfoldable pub sys_recvfrom : ℕ → ℕ → ℕ → ℕ → Exec (Desk k) Errno ℕ
  sys_recvfrom badge socket_fd buf len = do
    pages ← pages_of badge
    λ d.
        settle invalid_or_in_use (recv_reply pages buf)
          (tcp_recv w codes (socket_id_of socket_fd) (with_capacity u len) d)
