-- ===== src/Tests/ToySmoltcp.antt =====
-- A small network stack that meets the interface of crates/net-thread/src/smoltcp_impl: a socket is
-- its state, a handle its index, and each poll takes a connection one step further.
use rust_root_task_demo_mi_d.Prelude.{
  List, [], ◌∷◌, ◌++◌, map, none, some, true, false, length, get_elem?, set, ltb, if◌then◌else◌, ok,
}
use rust_root_task_demo_mi_d.NetThread.Smoltcp.{
  IpEndpoint, ipv4, State, closed, listen, syn_sent, syn_received, established, other, Smoltcp,
}

abbrev pub here : IpEndpoint
here = record { addr = ipv4 1; port = 80 }

abbrev pub there : IpEndpoint
there = record { addr = ipv4 2; port = 5000 }

abbrev advance : State → State
advance closed = closed
advance listen = syn_received
advance syn_sent = established
advance syn_received = established
advance established = established
advance other = other

abbrev pub toy_smoltcp : Smoltcp
toy_smoltcp = record {
  Socket = State;
  new_socket = closed;
  state = λ x. x;
  local_endpoint = λ x. some here;
  remote_endpoint = λ x. some there;
  listen_on = λ endpoint x. some listen;
  close = λ x. closed;
  SocketSet = List State;
  add = λ x xs. (xs ++ x ∷ [], length xs);
  get = λ xs handle. get_elem? xs handle;
  remove = λ handle xs. if ltb handle (length xs) then some (set xs handle closed) else none;
  set = λ xs handle x. set xs handle x;
  bound_addrs = λ xs. map (λ x. some (ipv4 1)) xs;
  connect_to = λ loopback remote bound x xs. (xs, ok syn_sent);
  set_bound_endpoint = λ endpoint x. x;
  is_active = λ x. true;
  may_recv = λ x. true;
  can_recv = λ x. false;
  may_send = λ x. true;
  can_send = λ x. true;
  recv_queue = λ x. 0;
  recv_slice = λ n x. some ([], x);
  send_slice = λ buf x. some (length buf, x);
  ethernet_payload = λ buf. none;
  ipv4_packet = λ buf. none;
  tcp_packet = λ buf. none;
  poll_loopback = λ f p. (p.0, map advance (p.1));
  poll_eth0 = λ f p. p;
}
