-- ===== src/Tests/Sockets.antt =====
-- The sockets of crates/net-thread/src/smoltcp_impl/tcp.rs on the small network stack.
use rust_root_task_demo_mi_d.Prelude.{
  ℕ, ◌<◌, ◌≡◌, ◌≢◌, refl, [], ◌∷◌, get_elem?, none, some, true, false, inr, arith, ok, err,
}
use rust_root_task_demo_mi_d.NetThread.Smoltcp.{
  IpEndpoint, State, syn_received, established, unspecified_endpoint,
}
use rust_root_task_demo_mi_d.NetThread.ListenTable.{
  AxError, would_block, addr_in_use, Net, accept, entry_at, accept_from, find_connected,
  is_connected,
}
use rust_root_task_demo_mi_d.NetThread.Tcp.{
  TcpState, state_closed, state_connected, state_listening, TcpSocket, Tcp, bind, addr_bound,
}
use rust_root_task_demo_mi_d.NetThread.Tcp.Stream.{accept_connection, accept_socket, block_on}
use rust_root_task_demo_mi_d.NetThread.Tcp.Bind.{bind_in_use, bind_lem}
use rust_root_task_demo_mi_d.NetThread.Requests.{NetServer, request_new}
use rust_root_task_demo_mi_d.NetThread.Requests.Ids.{request_new_lem}
use rust_root_task_demo_mi_d.NetThread.Requests.Buffers.{
  Shared, Handler, replies_all, request_accept, method, socket_at, accept_answer, lock, unlock,
}
use rust_root_task_demo_mi_d.NetThread.Requests.Deadlock.{error_words}
use rust_root_task_demo_mi_d.Tests.ToyMapping.{toy_memory_addr}
use rust_root_task_demo_mi_d.Tests.ToySmoltcp.{here, there, toy_smoltcp}

abbrev one_socket : State → Net toy_smoltcp
one_socket state = record { sockets = state ∷ []; table = []; curr = 0x1000 }

abbrev socket_in : TcpState → IpEndpoint → TcpSocket
socket_in state addr = record {
  state = state;
  handle = some 0;
  local_addr = addr;
  peer_addr = unspecified_endpoint;
  nonblock = false;
  reuse_addr = false;
}

abbrev tcp_in : TcpState → IpEndpoint → Tcp toy_smoltcp
tcp_in state addr = record { net = one_socket established; self = socket_in state addr }

bind_in_use_example :
    bind here (tcp_in state_closed unspecified_endpoint)
    ≡ (tcp_in state_closed here, err addr_in_use)
unfolding addr_bound
bind_in_use_example =
    bind_in_use here (tcp_in state_closed unspecified_endpoint) [] [] refl (λ e. omega (arith, e))
      refl refl refl

bind_example :
    bind there (tcp_in state_closed unspecified_endpoint) ≡ (tcp_in state_closed there, ok tt)
unfolding addr_bound
bind_example =
    bind_lem there (tcp_in state_closed unspecified_endpoint) 0 established refl
      (λ e. omega (arith, e)) refl (inr (λ e. cc, tt)) refl refl

-- A listener on port 1 whose connection needs two more packets.
abbrev at_work : State → Tcp toy_smoltcp
at_work state = record {
  net = record {
    sockets = state ∷ [];
    table =
        none
        ∷ some (record { listen_endpoint = record { addr = none; port = 1 }; syn_queue = 0 ∷ [] })
        ∷ [];
    curr = 0x1000;
  };
  self = socket_in state_listening here;
}

-- The first identifier is in use, the second was given back.
abbrev served : NetServer toy_smoltcp
served = record {
  net = one_socket established;
  sockets = some (socket_in state_connected here) ∷ none ∷ [];
}

request_new_example :
    (v' : NetServer toy_smoltcp) × (id : ℕ) × (request_new {E = AxError} served ≡ (v', ok id))
    × ((i : ℕ) → i < id → (socket : TcpSocket) × (get_elem? served.sockets i ≡ some (some socket)))
    × ((socket : TcpSocket) → get_elem? served.sockets id ≢ some (some socket))
    × (get_elem? v'.sockets id
        ≡ some (
            some (record {
              state = state_closed;
              handle = some 1;
              local_addr = unspecified_endpoint;
              peer_addr = unspecified_endpoint;
              nonblock = false;
              reuse_addr = false;
            })))
    × ((i : ℕ) → i ≢ id → get_elem? v'.sockets i ≡ get_elem? served.sockets i)
request_new_example = request_new_lem AxError served

abbrev no_page : Shared
no_page = record {
  State = Unit {0};
  Error = Unit {0};
  frame_map = λ p. (p, ok tt);
  frame_unmap = λ p. (p, ok tt);
  addr_size = 32;
  addr_at = λ off p. here;
  bytes_at = λ n p. [];
  put_bytes = λ bytes p. p;
}

-- A listening socket that does not block, and a connection that is still being set up.
abbrev impatient : TcpSocket
impatient = record (socket_in state_listening here) {
  nonblock = true;
  local_addr = record here { port = 1 };
}

abbrev listening : Handler toy_smoltcp no_page
listening = record {
  server = record { net = (at_work syn_received).net; sockets = some impatient ∷ [] };
  page = tt;
  locked = false;
}

abbrev code_of : AxError → ℕ
code_of e = 11

accept_reply :
    request_accept toy_memory_addr 5 code_of 0 listening
    ≡ (listening, ok (replies_all (error_words (code_of would_block))))
unfolding request_accept method socket_at accept_socket block_on accept_connection accept entry_at
    accept_from find_connected is_connected accept_answer lock unlock
accept_reply = refl
