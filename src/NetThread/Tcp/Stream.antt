-- ===== src/NetThread/Tcp/Stream.antt =====
-- `TcpSocket` of crates/net-thread/src/smoltcp_impl/tcp.rs: connecting, accepting and the data path.
use rust_root_task_demo_mi_d.Prelude.{
  ℕ, zero, suc, true, false, not, List, [], Option, none, some, ltb, if◌then◌else◌, ◌||◌, Outcome,
  ok, err, panic, Exec, pure, fail, unwrap, ◌>>=◌, ◌>>◌,
}
use rust_root_task_demo_mi_d.NetThread.Smoltcp.{
  IpEndpoint, IpListenEndpoint, unspecified_endpoint, is_loopback, syn_sent, established,
  ConnectError, invalid_state, unaddressable, Smoltcp,
}
use rust_root_task_demo_mi_d.NetThread.ListenTable as Table
use rust_root_task_demo_mi_d.NetThread.ListenTable.{
  AxError, already_exists, bad_state, connection_refused, connection_reset, invalid_input,
  not_connected, would_block,
}
use rust_root_task_demo_mi_d.NetThread.Poll.{poll_interfaces}
use rust_root_task_demo_mi_d.NetThread.Tcp.{
  state_closed, state_connecting, state_connected, state_listening, same_state, TcpSocket,
  PollState, Tcp, new_connected, on_net, update_self, set_state, update_state, bound_endpoint,
  handle_or_new,
}

module _ {s : Smoltcp} where
  abbrev pub store_socket : {E : Type 0} → ℕ → s.Socket → Exec (Tcp s) E (Unit {0})
  store_socket handle socket t =
      (record t { net = record (t.net) { sockets = s.set t.net.sockets handle socket } }, ok tt)

  abbrev pub read_socket : {E : Type 0} → ℕ → Exec (Tcp s) E (s.Socket)
  read_socket handle t = unwrap (s.get t.net.sockets handle) t

  -- One round of `block_on`, whose loop goes on where the function would block.
  unfoldable pub blocked :
      {A : Type 0}
      → Exec (Tcp s) AxError (Option A)
      → Tcp s × Outcome AxError A
      → Tcp s × Outcome AxError (Option A)
  blocked again (t, ok a) = (t, ok (some a))
  blocked again (t, err would_block) = again t
  blocked again (t, err e) = (t, err e)
  blocked again (t, panic) = (t, panic)

  -- The loop of `block_on`: `none` where it still waits after that many rounds.
  unfoldable pub block_rounds :
      {A : Type 0} → ℕ → Exec (Tcp s) AxError A → Exec (Tcp s) AxError (Option A)
  block_rounds zero f = pure none
  block_rounds (suc rounds) f = do
    on_net poll_interfaces
    λ t. blocked (block_rounds rounds f) (f t)

  unfoldable pub block_on :
      {A : Type 0} → ℕ → Exec (Tcp s) AxError A → Exec (Tcp s) AxError (Option A)
  block_on rounds f t =
      if t.self.nonblock then (do a ← f; pure (some a)) t else block_rounds rounds f t

  -- `or_else` on the result of smoltcp's `connect`.
  unfoldable pub connected_to :
      Tcp s → s.SocketSet × Outcome ConnectError (s.Socket) → Tcp s × Outcome AxError (s.Socket)
  connected_to t (set, ok socket) = (record t { net = record (t.net) { sockets = set } }, ok socket)
  connected_to t (set, err invalid_state) =
      (record t { net = record (t.net) { sockets = set } }, err bad_state)
  connected_to t (set, err unaddressable) =
      (record t { net = record (t.net) { sockets = set } }, err connection_refused)
  connected_to t (set, panic) = (record t { net = record (t.net) { sockets = set } }, panic)

  unfoldable pub connect_socket :
      ℕ → IpEndpoint → IpListenEndpoint → Exec (Tcp s) AxError (Unit {0})
  connect_socket handle remote bound = do
    socket ← read_socket handle
    connecting ← (λ t.
        connected_to t (s.connect_to (is_loopback remote.addr) remote bound socket t.net.sockets))
    store_socket handle connecting
    local_endpoint ← unwrap (s.local_endpoint connecting)
    remote_endpoint ← unwrap (s.remote_endpoint connecting)
    update_self (λ self. record self {
      local_addr = local_endpoint;
      peer_addr = remote_endpoint;
      handle = some handle;
    })

  -- `connect` up to its wait.
  unfoldable pub start_connect : IpEndpoint → Exec (Tcp s) AxError (Unit {0})
  start_connect remote =
      update_state state_closed state_connecting
        (do handle ← handle_or_new; bound ← bound_endpoint; connect_socket handle remote bound)
        (fail already_exists)

  abbrev pub reset_addrs : {E : Type 0} → Exec (Tcp s) E (Unit {0})
  reset_addrs = update_self (λ socket. record socket {
    local_addr = unspecified_endpoint;
    peer_addr = unspecified_endpoint;
  })

  unfoldable pub poll_connect : Exec (Tcp s) AxError PollState
  poll_connect t =
      (do
        handle ← unwrap t.self.handle
        socket ← read_socket handle
        elim (s.state socket) [
          | syn_sent ↦ pure (record { readable = false; writable = false })
          | established ↦ do
            set_state state_connected
            pure (record { readable = false; writable = true })
          | _ ↦ do
            reset_addrs
            set_state state_closed
            pure (record { readable = false; writable = true })
        ])
        t

  -- The function that `connect` waits on.
  unfoldable pub finish_connect : Exec (Tcp s) AxError (Unit {0})
  finish_connect = do
    poll ← poll_connect
    λ t.
        if not poll.writable
        then (t, err would_block)
        else if same_state t.self.state state_connected
        then (t, ok tt)
        else (t, err connection_refused)

  unfoldable pub connect : ℕ → IpEndpoint → Exec (Tcp s) AxError (Option (Unit {0}))
  connect rounds remote = do
    start_connect remote
    λ t. if t.self.nonblock then (t, err would_block) else block_on rounds finish_connect t

  -- The function that `accept` waits on.
  unfoldable pub accept_connection : ℕ → Exec (Tcp s) AxError TcpSocket
  accept_connection port = do
    accepted ← on_net (Table.accept port)
    pure (new_connected (accepted.0) (accepted.1) (accepted.2))

  unfoldable pub accept_socket : ℕ → Exec (Tcp s) AxError (Option TcpSocket)
  accept_socket rounds t =
      if not (same_state t.self.state state_listening)
      then (t, err invalid_input)
      else block_on rounds (accept_connection t.self.local_addr.port) t

  -- `recv` and `send` first look at the state of the socket.
  unfoldable pub when_connected :
      {A : Type 0} → (ℕ → Exec (Tcp s) AxError A) → Exec (Tcp s) AxError A
  when_connected op t =
      if same_state t.self.state state_connecting
      then (t, err would_block)
      else if not (same_state t.self.state state_connected)
      then (t, err not_connected)
      else (do handle ← unwrap t.self.handle; op handle) t

  abbrev pub or_bad_state : {A : Type 0} → Option A → Exec (Tcp s) AxError A
  or_bad_state none t = (t, err bad_state)
  or_bad_state (some a) t = (t, ok a)

  -- What `recv` tries, with a buffer of `length` bytes: the bytes that it has received.
  unfoldable pub try_recv : ℕ → ℕ → Exec (Tcp s) AxError (List ℕ)
  try_recv length handle = do
    socket ← read_socket handle
    if ltb 0 (s.recv_queue socket)
        then (do
          received ← or_bad_state (s.recv_slice length socket)
          store_socket handle (received.1)
          pure (received.0))
        else if not (s.is_active socket)
        then fail connection_refused
        else if not (s.may_recv socket)
        then pure []
        else fail would_block

  unfoldable pub recv : ℕ → ℕ → Exec (Tcp s) AxError (Option (List ℕ))
  recv rounds length = when_connected (λ handle. block_on rounds (try_recv length handle))

  unfoldable pub try_send : List ℕ → ℕ → Exec (Tcp s) AxError ℕ
  try_send buf handle = do
    socket ← read_socket handle
    if not (s.is_active socket) || not (s.may_send socket)
        then fail connection_reset
        else if s.can_send socket
        then (do
          sent ← or_bad_state (s.send_slice buf socket)
          store_socket handle (sent.1)
          pure (sent.0))
        else fail would_block

  unfoldable pub send : ℕ → List ℕ → Exec (Tcp s) AxError (Option ℕ)
  send rounds buf = when_connected (λ handle. block_on rounds (try_send buf handle))

  unfoldable pub poll_stream : Exec (Tcp s) AxError PollState
  poll_stream t =
      (do
        handle ← unwrap t.self.handle
        socket ← read_socket handle
        pure (record {
          readable = not (s.may_recv socket) || s.can_recv socket;
          writable = not (s.may_send socket) || s.can_send socket;
        }))
        t

  unfoldable pub poll_listener : Exec (Tcp s) AxError PollState
  poll_listener t =
      (do
        readable ← on_net (Table.can_accept t.self.local_addr.port)
        pure (record { readable = readable; writable = false }))
        t

  unfoldable pub poll : Exec (Tcp s) AxError PollState
  poll t = elim t.self.state [
    | state_connecting ↦ poll_connect t
    | state_connected ↦ poll_stream t
    | state_listening ↦ poll_listener t
    | _ ↦ (t, ok (record { readable = false; writable = false }))
  ]
