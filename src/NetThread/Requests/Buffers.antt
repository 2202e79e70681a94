-- ===== src/NetThread/Requests/Buffers.antt =====
-- The requests of crates/net-thread/src/ipc/mod.rs that pass a page of the caller, and Accept.
use rust_root_task_demo_mi_d.Prelude.{
  ℕ, ◌+◌, ◌-◌, ◌%◌, ◌/◌, ◌^◌, Bool, true, false, if◌then◌else◌, [], ◌∷◌, not, List, length, Option,
  none, some, get_elem?, set, ltb, Outcome, ok, err, panic, Exec, pure, abort, assert, unwrap,
  unwrapped, ◌>>=◌, ◌>>◌,
}
use rust_root_task_demo_mi_d.Crates.{MemoryAddr}
use rust_root_task_demo_mi_d.NetThread.Smoltcp.{Smoltcp, IpAddress, ipv4, ipv6, IpEndpoint}
use rust_root_task_demo_mi_d.NetThread.ListenTable.{AxError}
use rust_root_task_demo_mi_d.NetThread.Tcp.{TcpSocket, Tcp, bind, local_addr}
use rust_root_task_demo_mi_d.NetThread.Tcp.Stream.{accept_socket, connect, recv, send}
use rust_root_task_demo_mi_d.NetThread.Requests.{NetServer, alloc_socket_id, put_socket}

-- The page that came with the message: the calls that map it at the seat and unmap it, what
-- stands there, and the size of a `SocketAddr`.
pub record Shared : Type 1 where
  pub State : Type 0
  pub Error : Type 0
  pub frame_map : Exec State Error (Unit {0})
  pub frame_unmap : Exec State Error (Unit {0})
  pub addr_size : ℕ
  pub addr_at : ℕ → State → IpEndpoint
  pub bytes_at : ℕ → State → List ℕ
  pub put_bytes : List ℕ → State → State

pub record Handler (s : Smoltcp) (p : Shared) : Type 0 where
  pub server : NetServer s
  pub page : p.State
  -- Whether the lock of `SOCKET_VEC` is held; only Accept takes it twice, and only there it is kept.
  pub locked : Bool

-- What a request comes to: a reply, of one word or of several, a socket that still waits after the rounds given, or a lock
-- that its own holder takes again.
pub data Answer : Type 0 where
  replies : ℕ → Answer
  replies_all : List ℕ → Answer
  still_waits : Answer
  spins : Answer

-- The address of a socket, as the low and the high word.
abbrev pub addr_words : IpAddress → List ℕ
addr_words (ipv4 a) = a ∷ 0 ∷ []
addr_words (ipv6 a) = a % 2 ^ 64 ∷ a / 2 ^ 32 % 2 ^ 64 ∷ []

abbrev pub is_ipv4 : IpAddress → ℕ
is_ipv4 (ipv4 a) = 1
is_ipv4 (ipv6 a) = 0

module _ (mem : MemoryAddr) {s : Smoltcp} {p : Shared} where
  abbrev pub on_server : {A : Type 0} → Exec (NetServer s) AxError A → Exec (Handler s p) AxError A
  on_server op h = let (v, r) = op h.server in (record h { server = v }, r)

  abbrev pub on_page : Exec p.State p.Error (Unit {0}) → Exec (Handler s p) AxError (Unit {0})
  on_page op h = let (q, r) = unwrapped op h.page in (record h { page = q }, r)

  -- `read_item` of a `SocketAddr`.
  unfoldable pub read_addr : ℕ → Exec (Handler s p) AxError IpEndpoint
  read_addr ptr = do
    on_page p.frame_map
    assert (not (ltb (4096 - mem.align_offset_4k ptr) p.addr_size))
    addr ← (λ h. (h, ok (p.addr_at (mem.align_offset_4k ptr) h.page)))
    on_page p.frame_unmap
    pure addr

  -- `socket_vec[id].as_mut().unwrap()`
  unfoldable pub socket_at : ℕ → Exec (Handler s p) AxError TcpSocket
  socket_at id h = (do place ← unwrap (get_elem? h.server.sockets id); unwrap place) h

  -- What the method of a socket leaves, and what it returned.
  abbrev pub kept :
      {A : Type 0}
      → ℕ
      → Handler s p
      → Tcp s × Outcome AxError A
      → Handler s p × Outcome AxError (Outcome AxError A)
  kept id h (t, r) = (
    record h { server = record { net = t.net; sockets = set h.server.sockets id (some t.self) } },
    ok r,
  )

  unfoldable pub method :
      {A : Type 0} → ℕ → Exec (Tcp s) AxError A → Exec (Handler s p) AxError (Outcome AxError A)
  method id op h =
      (do socket ← socket_at id; λ g. kept id g (op (record { net = g.server.net; self = socket })))
        h

  -- `handle_axresult`
  unfoldable pub status :
      (AxError → ℕ) → Outcome AxError (Unit {0}) → Exec (Handler s p) AxError Answer
  status code (ok _) = pure (replies 0)
  status code (err e) = pure (replies (code e))
  status code panic = abort

  unfoldable pub request_bind : (AxError → ℕ) → ℕ → ℕ → Exec (Handler s p) AxError Answer
  request_bind code id ptr = do
    socket ← socket_at id
    addr ← read_addr ptr
    ans ← method id (bind addr)
    answer ← status code ans
    on_page p.frame_unmap
    pure answer

  unfoldable pub waited_status :
      (AxError → ℕ) → Outcome AxError (Option (Unit {0})) → Exec (Handler s p) AxError Answer
  waited_status code (ok (some _)) = pure (replies 0)
  waited_status code (ok none) = pure still_waits
  waited_status code (err e) = pure (replies (code e))
  waited_status code panic = abort

  unfoldable pub request_connect : ℕ → (AxError → ℕ) → ℕ → ℕ → Exec (Handler s p) AxError Answer
  request_connect rounds code id ptr = do
    socket ← socket_at id
    addr ← read_addr ptr
    ans ← method id (connect rounds addr)
    waited_status code ans

  -- The check that the buffer lies in one page, once that is mapped.
  unfoldable pub map_buffer : ℕ → ℕ → Exec (Handler s p) AxError (Unit {0})
  map_buffer buf buf_len = do
    on_page p.frame_map
    assert (not (ltb 4096 (mem.align_offset_4k buf + buf_len)))

  unfoldable pub send_answer :
      (AxError → ℕ) → Outcome AxError (Option ℕ) → Exec (Handler s p) AxError Answer
  send_answer code (ok (some n)) = pure (replies n)
  send_answer code (ok none) = pure still_waits
  send_answer code (err e) = pure (replies (code e))
  send_answer code panic = abort

  -- The bytes are read from the start of the page, whatever the offset of the buffer.
  unfoldable pub request_send : ℕ → (AxError → ℕ) → ℕ → ℕ → ℕ → Exec (Handler s p) AxError Answer
  request_send rounds code id buf buf_len = do
    socket ← socket_at id
    map_buffer buf buf_len
    ans ← (λ h. method id (send rounds (p.bytes_at buf_len h.page)) h)
    answer ← send_answer code ans
    on_page p.frame_unmap
    pure answer

  unfoldable pub recv_answer :
      (AxError → ℕ) → Outcome AxError (Option (List ℕ)) → Exec (Handler s p) AxError Answer
  recv_answer code (ok (some bytes)) =
      λ h. (record h { page = p.put_bytes bytes h.page }, ok (replies (length bytes)))
  recv_answer code (ok none) = pure still_waits
  recv_answer code (err e) = pure (replies (code e))
  recv_answer code panic = abort

  unfoldable pub request_recv : ℕ → (AxError → ℕ) → ℕ → ℕ → ℕ → Exec (Handler s p) AxError Answer
  request_recv rounds code id buf buf_len = do
    socket ← socket_at id
    map_buffer buf buf_len
    ans ← method id (recv rounds buf_len)
    answer ← recv_answer code ans
    on_page p.frame_unmap
    pure answer

  -- `recv_timeout` is unimplemented.
  unfoldable pub request_recv_timeout : ℕ → ℕ → ℕ → ℕ → Exec (Handler s p) AxError Answer
  request_recv_timeout id buf buf_len timeout = do
    socket ← socket_at id
    map_buffer buf buf_len
    abort

  -- `SOCKET_VEC.lock()`: whether it returns. It spins where the lock is held.
  unfoldable pub lock : Exec (Handler s p) AxError Bool
  lock h = if h.locked then (h, ok false) else (record h { locked = true }, ok true)

  -- The guard of the lock is dropped.
  unfoldable pub unlock : Exec (Handler s p) AxError (Unit {0})
  unlock h = (record h { locked = false }, ok tt)

  -- `alloc_socket_id`, with its lock; none where that spins.
  unfoldable pub locked_alloc : Exec (Handler s p) AxError (Option ℕ)
  locked_alloc = do
    returns ← lock
    if returns then (do id ← on_server alloc_socket_id; unlock; pure (some id)) else pure none

  -- The rest of the closure, with the identifier.
  unfoldable pub accept_words : TcpSocket → ℕ → Exec (Handler s p) AxError (List ℕ)
  accept_words new_socket new_id = do
    socket_addr ← (λ h.
        let (t, r) = unwrapped local_addr (record { net = h.server.net; self = new_socket }) in
        (h, r))
    on_server (put_socket new_id (some new_socket))
    pure (new_id ∷ is_ipv4 socket_addr.addr ∷ socket_addr.port ∷ addr_words socket_addr.addr)

  -- The closure that is given the new socket, and the reply.
  unfoldable pub accept_answer :
      (AxError → ℕ) → Outcome AxError (Option TcpSocket) → Exec (Handler s p) AxError Answer
  accept_answer code (ok (some new_socket)) = do
    new_id ← locked_alloc
    elim new_id [
      | none ↦ pure spins
      | some id ↦ (do words ← accept_words new_socket id; unlock; pure (replies_all words))
    ]
  accept_answer code (ok none) = pure still_waits
  accept_answer code (err e) = do unlock; pure (replies_all (code e ∷ 0 ∷ 0 ∷ 0 ∷ 0 ∷ []))
  accept_answer code panic = abort

  unfoldable pub request_accept : ℕ → (AxError → ℕ) → ℕ → Exec (Handler s p) AxError Answer
  request_accept rounds code id = do
    returns ← lock
    if returns
        then (do ans ← method id (accept_socket rounds); accept_answer code ans)
        else pure spins
