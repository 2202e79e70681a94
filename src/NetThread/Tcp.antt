-- ===== src/NetThread/Tcp.antt =====
-- `TcpSocket` of crates/net-thread/src/smoltcp_impl/tcp.rs, with `SocketSetWrapper::bind_check` of
-- mod.rs. One thread runs the code, so an atomic exchange is a test and a write.
pub mod Close
pub mod Bind
pub mod Stream
use rust_root_task_demo_mi_d.Prelude.{
  ℕ, zero, suc, Bool, true, false, not, List, [], ◌∷◌, Option, none, some, ◌==◌, ltb, if◌then◌else◌,
  Outcome, ok, err, panic, Exec, pure, fail, assert, unwrap, ◌>>=◌, ◌>>◌, ◌||◌,
}
use rust_root_task_demo_mi_d.NetThread.Smoltcp.{
  IpAddress, IpEndpoint, IpListenEndpoint, same_addr, same_endpoint, unspecified_endpoint,
  is_unspecified, is_loopback, State, closed, listen, syn_sent, syn_received, established, other,
  ConnectError, invalid_state, unaddressable, Smoltcp,
}
use rust_root_task_demo_mi_d.NetThread.ListenTable as Table
use rust_root_task_demo_mi_d.NetThread.ListenTable.{
  AxError, addr_in_use, already_exists, bad_state, connection_refused, connection_reset,
  invalid_input, not_connected, would_block, Net, listen_table, unlisten,
}
use rust_root_task_demo_mi_d.NetThread.Ports.{get_ephemeral_port}
use rust_root_task_demo_mi_d.NetThread.Poll.{poll_interfaces}

-- STATE_CLOSED, STATE_BUSY, STATE_CONNECTING, STATE_CONNECTED and STATE_LISTENING.
pub data TcpState : Type 0 where
  state_closed state_busy state_connecting state_connected state_listening : TcpState

abbrev pub same_state : TcpState → TcpState → Bool
same_state state_closed state_closed = true
same_state state_busy state_busy = true
same_state state_connecting state_connecting = true
same_state state_connected state_connected = true
same_state state_listening state_listening = true
same_state a b = false

pub record TcpSocket : Type 0 where
  pub state : TcpState
  pub handle : Option ℕ
  pub local_addr : IpEndpoint
  pub peer_addr : IpEndpoint
  pub nonblock : Bool
  pub reuse_addr : Bool

pub record PollState : Type 0 where
  pub readable : Bool
  pub writable : Bool

-- The globals of the net thread and the socket that a method works on.
pub record Tcp (s : Smoltcp) : Type 0 where
  pub net : Net s
  pub self : TcpSocket

unfoldable pub new_connected : ℕ → IpEndpoint → IpEndpoint → TcpSocket
new_connected handle local_addr peer_addr = record {
  state = state_connected;
  handle = some handle;
  local_addr = local_addr;
  peer_addr = peer_addr;
  nonblock = false;
  reuse_addr = false;
}

abbrev pub same_or : Option IpAddress → IpAddress → Bool
same_or none addr = false
same_or (some a) addr = same_addr a addr

-- The loop of `bind_check` over the sockets of the set; the port is not looked at.
unfoldable pub addr_bound : List (Option IpAddress) → IpAddress → Bool
addr_bound [] addr = false
addr_bound (bound ∷ rest) addr = if same_or bound addr then true else addr_bound rest addr

module _ {s : Smoltcp} where
  abbrev pub on_net : {E A : Type 0} → Exec (Net s) E A → Exec (Tcp s) E A
  on_net op t = let (n, r) = op t.net in (record t { net = n }, r)

  abbrev pub update_self : {E : Type 0} → (TcpSocket → TcpSocket) → Exec (Tcp s) E (Unit {0})
  update_self f t = (record t { self = f t.self }, ok tt)

  abbrev pub set_state : {E : Type 0} → TcpState → Exec (Tcp s) E (Unit {0})
  set_state state = update_self (λ socket. record socket { state = state })

  abbrev pub set_local : {E : Type 0} → IpEndpoint → Exec (Tcp s) E (Unit {0})
  set_local addr = update_self (λ socket. record socket { local_addr = addr })

  unfoldable pub new_tcp_socket : {E : Type 0} → Exec (Net s) E TcpSocket
  new_tcp_socket n =
      let (sockets, handle) = s.add s.new_socket n.sockets in
      (
        record n { sockets = sockets },
        ok (record {
          state = state_closed;
          handle = some handle;
          local_addr = unspecified_endpoint;
          peer_addr = unspecified_endpoint;
          nonblock = false;
          reuse_addr = false;
        }),
      )

  -- `SOCKET_SET.with_socket_mut`, on a handle that must be in the set.
  abbrev pub change_socket : {E : Type 0} → ℕ → (s.Socket → s.Socket) → Exec (Tcp s) E (Unit {0})
  change_socket handle f t =
      (do
        socket ← unwrap (s.get t.net.sockets handle)
        λ u. (
          record u { net = record (u.net) { sockets = s.set u.net.sockets handle (f socket) } },
          ok tt,
        ))
        t

  -- The end of `update_state`: the new state where the function returned Ok, else the old one.
  unfoldable pub settle :
      {A : Type 0} → TcpState → TcpState → Tcp s × Outcome AxError A → Tcp s × Outcome AxError A
  settle expect new (t, ok a) = (record t { self = record (t.self) { state = new } }, ok a)
  settle expect new (t, err e) = (record t { self = record (t.self) { state = expect } }, err e)
  settle expect new (t, panic) = (t, panic)

  -- `update_state` followed by `unwrap_or_else`, whose value is `otherwise`.
  unfoldable pub update_state :
      {A : Type 0}
      → TcpState
      → TcpState
      → Exec (Tcp s) AxError A
      → Exec (Tcp s) AxError A
      → Exec (Tcp s) AxError A
  update_state expect new f otherwise t =
      if same_state t.self.state expect
      then settle expect new (f (record t { self = record (t.self) { state = state_busy } }))
      else otherwise t

  unfoldable pub local_addr : Exec (Tcp s) AxError IpEndpoint
  local_addr t = elim t.self.state [
    | state_connected ↦ (t, ok t.self.local_addr)
    | state_listening ↦ (t, ok t.self.local_addr)
    | state_closed ↦ (t, ok t.self.local_addr)
    | _ ↦ (t, err not_connected)
  ]

  unfoldable pub peer_addr : Exec (Tcp s) AxError IpEndpoint
  peer_addr t = elim t.self.state [
    | state_connected ↦ (t, ok t.self.peer_addr)
    | state_listening ↦ (t, ok t.self.peer_addr)
    | _ ↦ (t, err not_connected)
  ]

  -- The port of `bound_endpoint`: the bound one, or a fresh one where there is none.
  unfoldable pub bound_port : Exec (Tcp s) AxError ℕ
  bound_port t =
      if not (t.self.local_addr.port == 0)
      then (t, ok t.self.local_addr.port)
      else on_net get_ephemeral_port t

  unfoldable pub bound_endpoint : Exec (Tcp s) AxError IpListenEndpoint
  bound_endpoint t =
      (do
        port ← bound_port
        assert (not (port == 0))
        pure (record {
          addr =
              if not (is_unspecified t.self.local_addr.addr)
              then some t.self.local_addr.addr
              else none;
          port = port;
        }))
        t

  -- `if local_addr.port() == 0 { local_addr.set_port(get_ephemeral_port()?); }`
  unfoldable pub with_port : IpEndpoint → Exec (Tcp s) AxError IpEndpoint
  with_port addr t =
      if addr.port == 0
      then (do port ← on_net get_ephemeral_port; pure (record addr { port = port })) t
      else (t, ok addr)

  unfoldable pub bind_check : IpAddress → ℕ → Exec (Tcp s) AxError (Unit {0})
  bind_check addr port t =
      if addr_bound (s.bound_addrs t.net.sockets) addr then (t, err addr_in_use) else (t, ok tt)

  -- `self.handle.get().read().unwrap_or_else(...)`; a new handle is not stored here.
  unfoldable pub handle_or_new : {E : Type 0} → Exec (Tcp s) E ℕ
  handle_or_new t = elim t.self.handle [
    | some handle ↦ (t, ok handle)
    | none ↦
        let (sockets, handle) = s.add s.new_socket t.net.sockets in
        (record t { net = record (t.net) { sockets = sockets } }, ok handle)
  ]

  unfoldable pub bind_with : IpEndpoint → Exec (Tcp s) AxError (Unit {0})
  bind_with local t =
      if not (same_endpoint t.self.local_addr unspecified_endpoint)
      then (t, err invalid_input)
      else (do
        set_local local
        (λ u. if not u.self.reuse_addr then bind_check local.addr local.port u else (u, ok tt))
        bound ← bound_endpoint
        handle ← handle_or_new
        change_socket handle (s.set_bound_endpoint bound))
          t

  unfoldable pub bind : IpEndpoint → Exec (Tcp s) AxError (Unit {0})
  bind addr =
      update_state state_closed state_closed (do local ← with_port addr; bind_with local)
        (fail invalid_input)

  unfoldable pub listen_on : Exec (Tcp s) AxError (Unit {0})
  listen_on =
      update_state state_closed state_listening
        (do
          bound ← bound_endpoint
          update_self (λ socket. record socket {
            local_addr = record (socket.local_addr) { port = bound.port };
          })
          on_net (listen_table bound))
        (pure tt)
