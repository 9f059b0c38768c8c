-- ===== src/IocpBase.antt =====
-- network/iocp_base.h: the contexts of network operations, of sockets, and their pools. A context is
-- denoted by its address.
pub mod Contexts
pub mod Sockets
pub mod SocketPool
mod Tests
use lite_cpplib.Base.{
  ℕ, zero, suc, ◌+◌, Bool, true, false, not, Option, none, some, List, [], ◌∷◌, ◌++◌, length,
  replicate, ◌==◌, leb, if◌then◌else◌, Outcome, ok, undefined, ◌>>=◌, defined,
}

-- The sizes of the types of Windows that are filled with zeroes.
pub record Layout : Type 0 where
  pub sizeof_overlapped : ℕ
  pub sizeof_sockaddr_in : ℕ

-- IO_OPERATION
pub data IoOperation : Type 0 where
  accept_posted recv_posted send_posted null_posted : IoOperation

-- MAX_IO_BUFFER_SIZE
abbrev pub max_io_buffer_size : ℕ
max_io_buffer_size = 4096

-- SOCKET, with none for INVALID_SOCKET
abbrev pub Socket : Type 0
Socket = Option ℕ

-- IOCP_IoContext. `sock_accept` is none as long as it is uninitialised, and `wsa_buf.buf` points to
-- `buf` in all states, so that only its length is kept.
pub record IoContext : Type 0 where
  pub overlapped : List ℕ
  pub sock_accept : Option Socket
  pub wsa_len : ℕ
  pub buf : List ℕ
  pub trans_len : ℕ
  pub operation : IoOperation
  pub remote_addr : List ℕ
  pub addr_size : ℕ

module _ (y : Layout) where
  -- _IOCP_IoContext()
  unfoldable pub new_io_context : IoContext
  new_io_context = record {
    overlapped = replicate y.sizeof_overlapped 0;
    sock_accept = none;
    wsa_len = max_io_buffer_size;
    buf = replicate max_io_buffer_size 0;
    trans_len = 0;
    operation = IoOperation.null_posted;
    remote_addr = replicate y.sizeof_sockaddr_in 0;
    addr_size = y.sizeof_sockaddr_in;
  }

  -- What Reset of a context assigns to every member but `sock_accept`.
  unfoldable pub cleared : IoContext → IoContext
  cleared c = record {
    overlapped = replicate y.sizeof_overlapped 0;
    sock_accept = c.sock_accept;
    wsa_len = max_io_buffer_size;
    buf = replicate max_io_buffer_size 0;
    trans_len = 0;
    operation = IoOperation.null_posted;
    remote_addr = replicate y.sizeof_sockaddr_in 0;
    addr_size = y.sizeof_sockaddr_in;
  }

  -- Reset(), with the sockets that it closes. It closes when the socket is INVALID_SOCKET.
  unfoldable pub reset_io : IoContext → Outcome (IoContext × List Socket)
  unfolding cleared
  reset_io c = do
    s ← defined c.sock_accept
    elim s [ none ↦ ok (cleared c, none ∷ []) | some _ ↦ ok (cleared c, []) ]

  -- ResetBuffer()
  unfoldable pub reset_buffer : IoContext → IoContext
  reset_buffer c = record c {
    overlapped = replicate y.sizeof_overlapped 0;
    buf = replicate max_io_buffer_size 0;
    wsa_len = max_io_buffer_size;
    addr_size = y.sizeof_sockaddr_in;
    trans_len = 0;
  }

-- The contexts by their address, the next address of `new`, and the calls of closesocket so far.
pub record World : Type 0 where
  pub heap : ℕ → Option IoContext
  pub next : ℕ
  pub closed : List Socket

unfoldable pub store : ℕ → Option IoContext → World → World
store address c w = record w { heap = λ a. if a == address then c else w.heap a }

-- IOCP_IoContextPool
pub record IoContextPool : Type 0 where
  pub list_io_context : List ℕ
  pub pool_size : ℕ

module _ (y : Layout) where
  -- GetIoContext()
  unfoldable pub get_io_context : IoContextPool × World → ℕ × (IoContextPool × World)
  unfolding store
  get_io_context (p, w) = elim p.list_io_context [
    | [] ↦ (w.next, (p, record (store w.next (some (new_io_context y)) w) { next = suc w.next }))
    | c ∷ cs ↦ (c, (record p { list_io_context = cs }, w))
  ]

  -- PutIoContext past the reset: a pool that is full has the context deleted.
  unfoldable pub keep_or_delete : ℕ → IoContextPool × World → IoContextPool × World
  unfolding store
  keep_or_delete context (p, w) =
      if leb p.pool_size (length p.list_io_context)
      then (p, store context none w)
      else (record p { list_io_context = p.list_io_context ++ (context ∷ []) }, w)

  -- PutIoContext(context)
  unfoldable pub put_io_context : ℕ → IoContextPool × World → Outcome (IoContextPool × World)
  unfolding reset_io store keep_or_delete
  put_io_context context (p, w) = do
    c ← defined (w.heap context)
    (c', closed) ← reset_io y c
    ok (
        keep_or_delete context
          (p, record (store context (some c') w) { closed = w.closed ++ closed }))

  -- The loop of Reset of a socket's context, over its list.
  unfoldable pub put_all : List ℕ → IoContextPool × World → Outcome (IoContextPool × World)
  unfolding put_io_context
  put_all [] pw = ok pw
  put_all (c ∷ cs) pw = do pw' ← put_io_context c pw; put_all cs pw'

-- IOCP_SocketContext, without the pointer to the pool, which its operations take.
pub record SocketContext : Type 0 where
  pub sock : Socket
  pub list_io_context : List ℕ
  pub recv_context : IoContext
  pub local_addr : List ℕ
  pub sock_id : ℕ
  pub is_listen_sock : Bool

-- `closesocket` of a socket that is not INVALID_SOCKET
abbrev pub close_valid : Socket → List Socket
close_valid none = []
close_valid (some s) = some s ∷ []

-- The first entry of a list that is the context, erased.
unfoldable pub erase_first : ℕ → List ℕ → List ℕ
erase_first context [] = []
erase_first context (c ∷ cs) =
    let rest = erase_first context cs in if context == c then cs else c ∷ rest

module _ (y : Layout) where
  -- _IOCP_SocketContext(pool_io_context); ZeroMemory of `local_addr` is in Reset only.
  unfoldable pub new_socket_context : List ℕ → SocketContext
  new_socket_context local_addr = record {
    sock = none;
    list_io_context = [];
    recv_context = new_io_context y;
    local_addr = local_addr;
    sock_id = 0;
    is_listen_sock = false;
  }

  -- Reset()
  unfoldable pub reset_socket :
      SocketContext → IoContextPool × World → Outcome (SocketContext × (IoContextPool × World))
  unfolding put_all
  reset_socket s (p, w) = do
    (recv_context, closed) ← reset_io y s.recv_context
    pw ←
        put_all y s.list_io_context
          (p, record w { closed = w.closed ++ (close_valid s.sock ++ closed) })
    ok (
      record {
        sock = none;
        list_io_context = [];
        recv_context = recv_context;
        local_addr = replicate y.sizeof_sockaddr_in 0;
        sock_id = 0;
        is_listen_sock = false;
      },
      pw,
    )

  -- AddContext(context)
  unfoldable pub add_context : ℕ → SocketContext → SocketContext
  add_context context s = record s { list_io_context = s.list_io_context ++ (context ∷ []) }

  -- RemoveContext(context)
  unfoldable pub remove_context :
      ℕ → SocketContext → IoContextPool × World → Outcome (SocketContext × (IoContextPool × World))
  unfolding erase_first put_io_context
  remove_context context s pw = do
    pw' ← put_io_context y context pw
    ok (record s { list_io_context = erase_first context s.list_io_context }, pw')
