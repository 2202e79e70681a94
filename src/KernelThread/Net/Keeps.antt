-- ===== src/KernelThread/Net/Keeps.antt =====
-- The socket system calls, crates/kernel-thread/src/syscall/net, change no task.
use rust_root_task_demo_mi_d.Prelude.{
  ℕ, ◌≡◌, ◌∙◌, refl, Bool, List, [], Option, none, some, Outcome, ok, err, panic, Exec, pure,
  Bool-cases, inl, inr, unwrap, fail, abort, Keeps, >>=-Keeps, unwrap-Keeps, if-Keeps,
}
use rust_root_task_demo_mi_d.BTree.{BTreeMap, get}
use rust_root_task_demo_mi_d.Ipc.{Ipc}
use rust_root_task_demo_mi_d.Protocol.Net.{NetRequsetabel}
use rust_root_task_demo_mi_d.Sel4.{Kernel}
use rust_root_task_demo_mi_d.Alloc.{Machine}
use rust_root_task_demo_mi_d.Crates.{MemoryAddr}
use rust_root_task_demo_mi_d.Uspace.{LibcSocketAddr, default_libc}
use rust_root_task_demo_mi_d.NetThread.Smoltcp.{IpEndpoint}
use rust_root_task_demo_mi_d.NetThread.ListenTable.{AxError}
use rust_root_task_demo_mi_d.KernelThread.Server.{Errno}
use rust_root_task_demo_mi_d.KernelThread.Task.{Sel4Task}
use rust_root_task_demo_mi_d.KernelThread.Copy.Keeps.{SeatKeeps, process_item_list-Keeps}
use rust_root_task_demo_mi_d.KernelThread.Net.{
  AxCodes, Wire, Desk, Buffer, on_machine, on_regs, update_kernel, call_net, put_cap, send_net_ipc,
  gen_cap, handle_axresult, result, status, received, accepted, tcp_new, tcp_bind, tcp_send,
  tcp_recv, tcp_listen, tcp_connect, tcp_accept, tcp_shutdown,
}
use rust_root_task_demo_mi_d.KernelThread.Net.Calls.{
  UserMemory, desk_seat, kept, pages_of, read_item, write_item, read_item_list, write_item_list,
  settle, invalid_or_in_use, ignored, accept_reply, recv_reply, sys_socket, sys_bind, sys_connect,
  sys_listen, sys_accept, sys_shutdown, sys_sendto, sys_recvfrom,
}

abbrev pub tasks_of : {k : Kernel} → Desk k → BTreeMap Sel4Task
tasks_of d = d.server.tasks

module _ {k : Kernel} {ipc : Ipc} (w : Wire k ipc) (codes : AxCodes) where
  on_machine-Keeps :
      {A : Type 0} (op : Exec (Machine k) AxError A) → Keeps tasks_of (on_machine w codes op)
  on_machine-Keeps op d = refl

  on_regs-Keeps : {A : Type 0} (op : Exec (List ℕ) AxError A) → Keeps tasks_of (on_regs w codes op)
  on_regs-Keeps op d = refl

  update_kernel-Keeps : (f : k.State → k.State) → Keeps tasks_of (update_kernel w codes f)
  update_kernel-Keeps f d = refl

  call_net-Keeps : (message : ipc.MessageInfo) → Keeps tasks_of (call_net w codes message)
  call_net-Keeps message d = refl

  put_cap-Keeps :
      (cap : Option ℕ)
      → Keeps {S = Desk k} {E = AxError} tasks_of (λ d. (put_cap w codes cap d, ok tt))
  put_cap-Keeps none d = refl
  put_cap-Keeps (some c) d = refl

  pure-Keeps : {A : Type 0} (E : Type 0) (a : A) → Keeps {S = Desk k} {E = E} tasks_of (pure a)
  pure-Keeps E a d = refl

  abort-Keeps : (E A : Type 0) → Keeps {S = Desk k} {E = E} {A = A} tasks_of abort
  abort-Keeps E A d = refl

  fail-Keeps : (E A : Type 0) (e : E) → Keeps {S = Desk k} {E = E} {A = A} tasks_of (fail e)
  fail-Keeps E A e d = refl

  ruleset steps = (
    >>=-Keeps, if-Keeps, unwrap-Keeps, on_machine-Keeps, on_regs-Keeps, update_kernel-Keeps,
    call_net-Keeps, put_cap-Keeps, pure-Keeps, abort-Keeps, fail-Keeps,
  )

  send_net_ipc-Keeps :
      (label : NetRequsetabel) (cap : Option ℕ) → Keeps tasks_of (send_net_ipc w codes label cap)
  unfolding send_net_ipc
  send_net_ipc-Keeps label cap = search (steps)

  gen_cap-Keeps : (bytes : List ℕ) → Keeps tasks_of (gen_cap w codes bytes)
  unfolding gen_cap
  gen_cap-Keeps bytes = search (steps)

  handle_axresult-Keeps : (val : ℕ) → Keeps tasks_of (handle_axresult w codes val)
  unfolding handle_axresult
  handle_axresult-Keeps val = search (steps)

  result-Keeps : Keeps tasks_of (result w codes)
  unfolding result
  result-Keeps = search (steps, handle_axresult-Keeps)

  status-Keeps : Keeps tasks_of (status w codes)
  unfolding status
  status-Keeps = search (steps, result-Keeps)

  -- What a result beside the bytes leaves.
  beside-Keeps :
      (len : ℕ) (bytes : List ℕ)
      → Keeps {E = AxError} {A = List ℕ × Outcome AxError ℕ} tasks_of
          (λ (d : Desk k). let (e, r) = handle_axresult w codes len d in (e, ok (bytes, r)))
  beside-Keeps len bytes d = handle_axresult-Keeps len d

  ruleset calls =
      (steps, send_net_ipc-Keeps, gen_cap-Keeps, result-Keeps, status-Keeps, beside-Keeps)

  tcp_recv-Keeps : (id : ℕ) (buf : Buffer) → Keeps tasks_of (tcp_recv w codes id buf)
  unfolding tcp_recv received
  tcp_recv-Keeps id buf = search (calls)

  tcp_send-Keeps : (id : ℕ) (buf : Buffer) → Keeps tasks_of (tcp_send w codes id buf)
  unfolding tcp_send
  tcp_send-Keeps id buf = search (calls)

  accepted-Keeps : Keeps tasks_of (accepted w codes)
  unfolding accepted
  accepted-Keeps = search (calls) depth 12

  tcp_accept-Keeps : (id : ℕ) → Keeps tasks_of (tcp_accept w codes id)
  unfolding tcp_accept
  tcp_accept-Keeps id = search (calls, accepted-Keeps)

  tcp_bind-Keeps : (id : ℕ) (addr : IpEndpoint) → Keeps tasks_of (tcp_bind w codes id addr)
  unfolding tcp_bind
  tcp_bind-Keeps id addr = search (calls)

  tcp_connect-Keeps : (id : ℕ) (addr : IpEndpoint) → Keeps tasks_of (tcp_connect w codes id addr)
  unfolding tcp_connect
  tcp_connect-Keeps id addr = search (calls)

  module _ (mem : MemoryAddr) (u : UserMemory k) where
    pub desk_seat-SeatKeeps :
        (T : Type 0)
        → SeatKeeps (desk_seat mem u w codes T) (BTreeMap Sel4Task) (λ (d, x). tasks_of d)
    desk_seat-SeatKeeps T = record {
      copy = λ cap s. refl;
      map = λ s. refl;
      unmap = λ s. refl;
      delete = λ s. refl;
      put = λ offset n s. refl;
    }

    pub pages_of-Keeps : (badge : ℕ) → Keeps tasks_of (pages_of mem u w codes badge)
    pages_of-Keeps badge d =
        >>=-Keeps tasks_of (unwrap (get d.server.tasks badge)) (λ task. pure (task.mapped_page))
          (unwrap-Keeps Errno tasks_of (get d.server.tasks badge))
          (λ task. pure-Keeps Errno (task.mapped_page)) d

    pub kept-part :
        {T A : Type 0} (p : (Desk k × T) × Outcome Errno A)
        → tasks_of (kept mem u w codes p).0 ≡ tasks_of p.0.0
    kept-part ((d, x), ok a) = refl
    kept-part ((d, x), err e) = refl
    kept-part ((d, x), panic) = refl

    ignored-part :
        {A : Type 0} (p : Desk k × Outcome Errno A)
        → tasks_of (ignored mem u w codes p).0 ≡ tasks_of p.0
    ignored-part (d, ok a) = refl
    ignored-part (d, err e) = refl
    ignored-part (d, panic) = refl

    ignored-Keeps :
        {A : Type 0} (op : Exec (Desk k) Errno A)
        → Keeps tasks_of op
        → Keeps {E = Errno} tasks_of (λ d. ignored mem u w codes (op d))
    ignored-Keeps op h d = ignored-part (op d) ∙ h d

    settle-part :
        {A B : Type 0} (refused : AxError → Bool) (f : A → Exec (Desk k) Errno B)
        (p : Desk k × Outcome AxError A)
        → ((a : A) → Keeps tasks_of (f a))
        → tasks_of (settle mem u w codes refused f p).0 ≡ tasks_of p.0
    settle-part refused f (d, ok a) h = h a d
    settle-part refused f (d, err e) h = elim (Bool-cases (refused e)) [
      | inl yes_refused ↦ rw yes_refused refl
      | inr unknown ↦ rw unknown refl
    ]
    settle-part refused f (d, panic) h = refl

    settle-Keeps :
        {A B : Type 0} (refused : AxError → Bool) (f : A → Exec (Desk k) Errno B)
        (op : Exec (Desk k) AxError A)
        → Keeps tasks_of op
        → ((a : A) → Keeps tasks_of (f a))
        → Keeps tasks_of (λ d. settle mem u w codes refused f (op d))
    settle-Keeps refused f op h g d = settle-part refused f (op d) g ∙ h d

    read_item-Keeps :
        (pages : BTreeMap ℕ) (addr : ℕ) → Keeps tasks_of (read_item mem u w codes pages addr)
    unfolding read_item
    read_item-Keeps pages addr d =
        kept-part _
        ∙ process_item_list-Keeps mem (desk_seat mem u w codes LibcSocketAddr) (BTreeMap Sel4Task)
            (λ (e, x). tasks_of e) (desk_seat-SeatKeeps LibcSocketAddr) 16 pages addr none _
            (λ src offset n s. refl) (d, default_libc)

    write_item-Keeps :
        (pages : BTreeMap ℕ) (addr : ℕ) (item : LibcSocketAddr)
        → Keeps tasks_of (write_item mem u w codes pages addr item)
    unfolding write_item
    write_item-Keeps pages addr item d =
        process_item_list-Keeps mem (desk_seat mem u w codes (Unit {0})) (BTreeMap Sel4Task)
          (λ (e, x). tasks_of e) (desk_seat-SeatKeeps (Unit {0})) 16 pages addr none _
          (λ src offset n s. refl) (d, tt)

    read_item_list-Keeps :
        (pages : BTreeMap ℕ) (addr num : ℕ)
        → Keeps tasks_of (read_item_list mem u w codes pages addr num)
    unfolding read_item_list
    read_item_list-Keeps pages addr num d =
        kept-part _
        ∙ process_item_list-Keeps mem (desk_seat mem u w codes (List ℕ)) (BTreeMap Sel4Task)
            (λ (e, x). tasks_of e) (desk_seat-SeatKeeps (List ℕ)) 1 pages addr (some num) _
            (λ src offset n s. refl) (d, [])

    write_item_list-Keeps :
        (pages : BTreeMap ℕ) (addr num : ℕ) (bytes : List ℕ)
        → Keeps tasks_of (write_item_list mem u w codes pages addr num bytes)
    unfolding write_item_list
    write_item_list-Keeps pages addr num bytes d =
        process_item_list-Keeps mem (desk_seat mem u w codes (Unit {0})) (BTreeMap Sel4Task)
          (λ (e, x). tasks_of e) (desk_seat-SeatKeeps (Unit {0})) 1 pages addr (some num) _
          (λ src offset n s. refl) (d, tt)

    ruleset items = (
      >>=-Keeps, pages_of-Keeps, settle-Keeps, ignored-Keeps, read_item-Keeps, write_item-Keeps,
      read_item_list-Keeps, write_item_list-Keeps, pure-Keeps,
    )

    accept_reply-Keeps :
        (pages : BTreeMap ℕ) (addr : ℕ) (reply : ℕ × ℕ × ℕ × ℕ × ℕ)
        → Keeps tasks_of (accept_reply mem u w codes pages addr reply)
    unfolding accept_reply
    accept_reply-Keeps pages addr (a, b, c, e, f) = search (items)

    recv_reply-Keeps :
        (pages : BTreeMap ℕ) (buf : ℕ) (reply : List ℕ × Outcome AxError ℕ)
        → Keeps tasks_of (recv_reply mem u w codes pages buf reply)
    recv_reply-Keeps pages buf (bytes, r) d =
        settle-part invalid_or_in_use (λ len. write_item_list mem u w codes pages buf len bytes)
          (d, r) (λ len. write_item_list-Keeps pages buf len bytes)

    pub sys_socket-Keeps : Keeps tasks_of (sys_socket mem u w codes)
    unfolding sys_socket
    sys_socket-Keeps = settle-Keeps _ pure (tcp_new w codes) (search (calls)) (pure-Keeps Errno)

    pub sys_bind-Keeps : (badge fd addr : ℕ) → Keeps tasks_of (sys_bind mem u w codes badge fd addr)
    unfolding sys_bind
    sys_bind-Keeps badge fd addr = search (items, tcp_bind-Keeps)

    pub sys_connect-Keeps :
        (badge fd addr : ℕ) → Keeps tasks_of (sys_connect mem u w codes badge fd addr)
    unfolding sys_connect
    sys_connect-Keeps badge fd addr = search (items, tcp_connect-Keeps)

    pub sys_listen-Keeps : (fd : ℕ) → Keeps tasks_of (sys_listen mem u w codes fd)
    unfolding sys_listen tcp_listen
    sys_listen-Keeps fd = search (items, send_net_ipc-Keeps, status-Keeps)

    pub sys_shutdown-Keeps : (fd : ℕ) → Keeps tasks_of (sys_shutdown mem u w codes fd)
    unfolding sys_shutdown tcp_shutdown
    sys_shutdown-Keeps fd = search (items, send_net_ipc-Keeps, status-Keeps)

    pub sys_accept-Keeps :
        (badge fd addr : ℕ) → Keeps tasks_of (sys_accept mem u w codes badge fd addr)
    unfolding sys_accept
    sys_accept-Keeps badge fd addr = search (items, accept_reply-Keeps, tcp_accept-Keeps)

    pub sys_sendto-Keeps :
        (badge fd buf len addr : ℕ)
        → Keeps tasks_of (sys_sendto mem u w codes badge fd buf len addr)
    unfolding sys_sendto
    sys_sendto-Keeps badge fd buf len addr = search (items, tcp_send-Keeps)

    pub sys_recvfrom-Keeps :
        (badge fd buf len : ℕ) → Keeps tasks_of (sys_recvfrom mem u w codes badge fd buf len)
    unfolding sys_recvfrom
    sys_recvfrom-Keeps badge fd buf len = search (items, recv_reply-Keeps, tcp_recv-Keeps)
