-- ===== src/NetThread/ListenTable.antt =====
-- `ListenTable` of crates/net-thread/src/smoltcp_impl/listen_table.rs.
pub mod Queue
pub mod Accept
pub mod Sizes
pub mod Bounded
pub mod Incoming
pub mod Listening
use rust_root_task_demo_mi_d.Prelude.{
  ℕ, zero, suc, ◌+◌, Bool, true, false, not, List, [], ◌∷◌, ◌++◌, Option, none, some, length,
  get_elem?, set, replicate, leb, ◌==◌, if◌then◌else◌, ok, Exec, pure, fail, assert, unwrap, ok_or,
  ◌>>=◌, ◌>>◌,
}
use rust_root_task_demo_mi_d.NetThread.Smoltcp.{
  IpAddress, IpEndpoint, IpListenEndpoint, same_addr, State, closed, listen, syn_sent, syn_received,
  established, other, connected_state, closed_state, Smoltcp,
}

-- The errors of the axerrno crate that the code returns.
pub data AxError : Type 0 where
  addr_in_use already_exists bad_state connection_refused connection_reset : AxError
  invalid_input not_connected would_block : AxError

abbrev pub port_num : ℕ
port_num = 0x2000

abbrev pub listen_queue_size : ℕ
listen_queue_size = 32

pub record ListenTableEntry : Type 0 where
  pub listen_endpoint : IpListenEndpoint
  pub syn_queue : List ℕ

abbrev pub accepts : Option IpAddress → IpAddress → Bool
accepts none dst = true
accepts (some addr) dst = same_addr addr dst

-- `VecDeque::swap_remove_front`: the front takes the place of the element that leaves.
abbrev pub swap_tail : ℕ → List ℕ → ℕ → Option ℕ → Option (ℕ × List ℕ)
swap_tail front rest i none = none
swap_tail front rest i (some handle) = some (handle, set rest i front)

abbrev pub swap_remove_front : List ℕ → ℕ → Option (ℕ × List ℕ)
swap_remove_front [] i = none
swap_remove_front (front ∷ rest) zero = some (front, rest)
swap_remove_front (front ∷ rest) (suc i) = swap_tail front rest i (get_elem? rest i)

-- The entries of `ListenTable::new`.
unfoldable pub new_table : List (Option ListenTableEntry)
new_table = replicate port_num none

-- The globals SOCKET_SET and LISTEN_TABLE, and the static CURR of `get_ephemeral_port`.
pub record Net (s : Smoltcp) : Type 0 where
  pub sockets : s.SocketSet
  pub table : List (Option ListenTableEntry)
  pub curr : ℕ

abbrev pub is_free : Option ListenTableEntry → Bool
is_free none = true
is_free (some entry) = false

abbrev pub is_some : Option ℕ → Bool
is_some none = false
is_some (some idx) = true

module _ {s : Smoltcp} where
  abbrev pub update_table : {E : Type 0} → ℕ → Option ListenTableEntry → Exec (Net s) E (Unit {0})
  update_table port entry n = (record n { table = set n.table port entry }, ok tt)

  -- `self.tcp[port as usize].lock()`
  unfoldable pub entry_at : {E : Type 0} → ℕ → Exec (Net s) E (Option ListenTableEntry)
  entry_at port n = unwrap (get_elem? n.table port) n

  unfoldable pub can_listen : {E : Type 0} → ℕ → Exec (Net s) E Bool
  can_listen port = do entry ← entry_at port; pure (is_free entry)

  unfoldable pub listen_at :
      IpListenEndpoint → Option ListenTableEntry → Exec (Net s) AxError (Unit {0})
  listen_at endpoint none =
      update_table endpoint.port (some (record { listen_endpoint = endpoint; syn_queue = [] }))
  listen_at endpoint (some entry) = fail addr_in_use

  unfoldable pub listen_table : IpListenEndpoint → Exec (Net s) AxError (Unit {0})
  listen_table endpoint = do
    assert (not (endpoint.port == 0))
    entry ← entry_at endpoint.port
    listen_at endpoint entry

  abbrev pub with_sockets : {E : Type 0} → s.SocketSet → Exec (Net s) E (Unit {0})
  with_sockets set n = (record n { sockets = set }, ok tt)

  -- `drop` of an entry: the sockets of its queue are removed.
  unfoldable pub drop_queue : {E : Type 0} → List ℕ → Exec (Net s) E (Unit {0})
  drop_queue [] = pure tt
  drop_queue (handle ∷ rest) =
      λ n. (do set ← unwrap (s.remove handle n.sockets); with_sockets set; drop_queue rest) n

  unfoldable pub drop_entry : {E : Type 0} → Option ListenTableEntry → Exec (Net s) E (Unit {0})
  drop_entry none = pure tt
  drop_entry (some entry) = drop_queue entry.syn_queue

  unfoldable pub unlisten : {E : Type 0} → ℕ → Exec (Net s) E (Unit {0})
  unlisten port = do entry ← entry_at port; drop_entry entry; update_table port none

  -- `SOCKET_SET.with_socket`, on a handle that must be in the set.
  abbrev pub with_socket : {E A : Type 0} → ℕ → (s.Socket → Exec (Net s) E A) → Exec (Net s) E A
  with_socket handle f n = (do socket ← unwrap (s.get n.sockets handle); f socket) n

  unfoldable pub is_connected : {E : Type 0} → ℕ → Exec (Net s) E Bool
  is_connected handle = with_socket handle (λ socket. pure (connected_state (s.state socket)))

  unfoldable pub is_closed : {E : Type 0} → ℕ → Exec (Net s) E Bool
  is_closed handle = with_socket handle (λ socket. pure (closed_state (s.state socket)))

  unfoldable pub get_addr_tuple : {E : Type 0} → ℕ → Exec (Net s) E (IpEndpoint × IpEndpoint)
  get_addr_tuple handle = with_socket handle (λ socket. do
    local ← unwrap (s.local_endpoint socket)
    remote ← unwrap (s.remote_endpoint socket)
    pure (local, remote))

  -- The first connected handle from a position on: `any`, and `find_map` in `accept`.
  unfoldable pub find_connected : {E : Type 0} → ℕ → List ℕ → Exec (Net s) E (Option ℕ)
  find_connected idx [] = pure none
  find_connected idx (handle ∷ rest) = do
    here ← is_connected handle
    if here then pure (some idx) else find_connected (idx + 1) rest

  unfoldable pub can_accept_from : Option ListenTableEntry → Exec (Net s) AxError Bool
  can_accept_from none = fail invalid_input
  can_accept_from (some entry) = do found ← find_connected 0 entry.syn_queue; pure (is_some found)

  unfoldable pub can_accept : ℕ → Exec (Net s) AxError Bool
  can_accept port = do entry ← entry_at port; can_accept_from entry

  -- The end of `accept`, once the handle has left the queue.
  unfoldable pub accepted : ℕ → Exec (Net s) AxError (ℕ × IpEndpoint × IpEndpoint)
  accepted handle = do
    reset ← is_closed handle
    if reset
        then fail connection_reset
        else (do addrs ← get_addr_tuple handle; pure (handle, addrs.0, addrs.1))

  unfoldable pub accept_from :
      ℕ → Option ListenTableEntry → Exec (Net s) AxError (ℕ × IpEndpoint × IpEndpoint)
  accept_from port none = fail invalid_input
  accept_from port (some entry) = do
    found ← find_connected 0 entry.syn_queue
    idx ← ok_or found would_block
    taken ← unwrap (swap_remove_front entry.syn_queue idx)
    update_table port (some (record entry { syn_queue = taken.1 }))
    accepted (taken.0)

  unfoldable pub accept : ℕ → Exec (Net s) AxError (ℕ × IpEndpoint × IpEndpoint)
  accept port = do entry ← entry_at port; accept_from port entry

  -- `sockets.add(socket)` and `push_back`, if the new socket can listen.
  unfoldable pub enqueue :
      {E : Type 0} → ℕ → ListenTableEntry → Option (s.Socket) → Exec (Net s) E (Unit {0})
  enqueue port entry none = pure tt
  enqueue port entry (some socket) = λ n.
      let (set, handle) = s.add socket n.sockets in
      (do
        with_sockets set
        update_table port (some (record entry { syn_queue = entry.syn_queue ++ handle ∷ [] })))
        n

  unfoldable pub incoming_at :
      {E : Type 0} → IpEndpoint → Option ListenTableEntry → Exec (Net s) E (Unit {0})
  incoming_at dst none = pure tt
  incoming_at dst (some entry) =
      if not (accepts entry.listen_endpoint.addr dst.addr)
      then pure tt
      else if leb listen_queue_size (length entry.syn_queue)
      then pure tt
      else enqueue dst.port entry (s.listen_on entry.listen_endpoint s.new_socket)

  unfoldable pub incoming_tcp_packet :
      {E : Type 0} → IpEndpoint → IpEndpoint → Exec (Net s) E (Unit {0})
  incoming_tcp_packet src dst = do entry ← entry_at dst.port; incoming_at dst entry
