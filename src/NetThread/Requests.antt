-- ===== src/NetThread/Requests.antt =====
-- The sockets of the net thread and its requests that pass no buffer,
-- crates/net-thread/src/ipc/mod.rs, with the drop of a `TcpSocket` of smoltcp_impl/tcp.rs.
pub mod Ids
pub mod Buffers
pub mod Deadlock
use rust_root_task_demo_mi_d.Prelude.{
  ℕ, suc, Bool, true, false, List, [], ◌∷◌, ◌++◌, Option, none, some, get_elem?, set, Outcome, ok,
  err, panic, Exec, pure, unwrap, ◌>>=◌, ◌>>◌, if◌then◌else◌, not, ◌==◌,
}
use rust_root_task_demo_mi_d.NetThread.Smoltcp.{Smoltcp}
use rust_root_task_demo_mi_d.NetThread.ListenTable.{AxError, Net}
use rust_root_task_demo_mi_d.NetThread.Tcp.{TcpSocket, Tcp, new_tcp_socket, listen_on}
use rust_root_task_demo_mi_d.NetThread.Tcp.Close.{shutdown, close}

-- SOCKET_VEC and the globals of the network.
pub record NetServer (s : Smoltcp) : Type 0 where
  pub net : Net s
  pub sockets : List (Option TcpSocket)

-- `position(|x| x.is_none())`, and the length where every place is taken.
unfoldable pub first_free : List (Option TcpSocket) → ℕ
first_free [] = 0
first_free (none ∷ sockets) = 0
first_free (some socket ∷ sockets) = suc (first_free sockets)

-- The vector with a place at `first_free`.
unfoldable pub with_free : List (Option TcpSocket) → List (Option TcpSocket)
with_free [] = none ∷ []
with_free (none ∷ sockets) = none ∷ sockets
with_free (some socket ∷ sockets) = some socket ∷ with_free sockets

abbrev pub nonblock_flag : Option TcpSocket → ℕ
nonblock_flag none = 0
nonblock_flag (some socket) = if socket.nonblock then 1 else 0

module _ {s : Smoltcp} where
  unfoldable pub alloc_socket_id : {E : Type 0} → Exec (NetServer s) E ℕ
  alloc_socket_id v = (record v { sockets = with_free v.sockets }, ok (first_free v.sockets))

  -- `SOCKET_VEC.lock()[id] = socket`, on an index that must be in the vector.
  unfoldable pub put_socket : {E : Type 0} → ℕ → Option TcpSocket → Exec (NetServer s) E (Unit {0})
  put_socket id socket v =
      (do
        old ← unwrap (get_elem? v.sockets id)
        λ u. (record u { sockets = set u.sockets id socket }, ok tt))
        v

  -- NetRequsetabel::New; it replies with the identifier.
  unfoldable pub request_new : {E : Type 0} → Exec (NetServer s) E ℕ
  request_new v =
      let (n, socket) = new_tcp_socket v.net in
      (do created ← (λ u. (u, socket)); id ← alloc_socket_id; put_socket id (some created); pure id)
        (record v { net = n })

  -- What a method returns, as `handle_axresult` encodes it, where the socket stays in its place.
  unfoldable pub returned :
      {E A : Type 0}
      → (AxError → ℕ)
      → ℕ
      → NetServer s
      → Tcp s × Outcome AxError A
      → NetServer s × Outcome E ℕ
  returned code id v (t, ok a) =
      (record { net = t.net; sockets = set v.sockets id (some t.self) }, ok 0)
  returned code id v (t, err e) =
      (record { net = t.net; sockets = set v.sockets id (some t.self) }, ok (code e))
  returned code id v (t, panic) =
      (record { net = t.net; sockets = set v.sockets id (some t.self) }, panic)

  -- `socket_vec[id].as_mut().unwrap()` and a method of the socket.
  unfoldable pub on_socket :
      {E A : Type 0} → (AxError → ℕ) → ℕ → Exec (Tcp s) AxError A → Exec (NetServer s) E ℕ
  on_socket code id op v =
      (do
        place ← unwrap (get_elem? v.sockets id)
        socket ← unwrap place
        λ u. returned code id u (op (record { net = u.net; self = socket })))
        v

  -- NetRequsetabel::Listen and NetRequsetabel::Shutdown.
  unfoldable pub request_listen : {E : Type 0} → (AxError → ℕ) → ℕ → Exec (NetServer s) E ℕ
  request_listen code id = on_socket code id listen_on

  unfoldable pub request_shutdown : {E : Type 0} → (AxError → ℕ) → ℕ → Exec (NetServer s) E ℕ
  request_shutdown code id = on_socket code id shutdown

  -- NetRequsetabel::SetNonBlocking, whose reply is empty.
  unfoldable pub request_set_nonblocking : {E : Type 0} → ℕ → ℕ → Exec (NetServer s) E (Unit {0})
  request_set_nonblocking id flag v =
      (do
        place ← unwrap (get_elem? v.sockets id)
        socket ← unwrap place
        put_socket id (some (record socket { nonblock = not (flag == 0) })))
        v

  -- NetRequsetabel::IsNonBlocking.
  unfoldable pub request_is_nonblocking : {E : Type 0} → ℕ → Exec (NetServer s) E ℕ
  request_is_nonblocking id v =
      (do place ← unwrap (get_elem? v.sockets id); pure (nonblock_flag place)) v

  -- `drop` of a socket: what its shutdown returns is ignored.
  unfoldable pub ignored : {E A : Type 0} → Tcp s × Outcome AxError A → Tcp s × Outcome E (Unit {0})
  ignored (t, ok a) = (t, ok tt)
  ignored (t, err e) = (t, ok tt)
  ignored (t, panic) = (t, panic)

  unfoldable pub remove_handle : {E : Type 0} → Option ℕ → Exec (Tcp s) E (Unit {0})
  remove_handle none t = (t, ok tt)
  remove_handle (some handle) t =
      (do
        sockets ← unwrap (s.remove handle t.net.sockets)
        λ u. (record u { net = record (u.net) { sockets = sockets } }, ok tt))
        t

  unfoldable pub drop_socket : {E : Type 0} → Exec (Tcp s) E (Unit {0})
  drop_socket = do λ t. ignored (shutdown t); λ t. remove_handle t.self.handle t

  -- NetRequsetabel::Close: the socket leaves the vector, is closed and, after the reply, dropped.
  unfoldable pub request_close : {E : Type 0} → ℕ → Exec (NetServer s) E (Unit {0})
  request_close id v =
      (do
        place ← unwrap (get_elem? v.sockets id)
        put_socket id none
        socket ← unwrap place
        λ u.
            let (t, r) = (do close; drop_socket) (record { net = u.net; self = socket }) in
            (record u { net = t.net }, r))
        v
