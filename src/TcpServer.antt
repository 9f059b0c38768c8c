-- ===== src/TcpServer.antt =====
-- network/iocp_tcpserver.h: class IOCP_TCPServer over its workers' threads and the state that they share.
pub mod Operations
pub mod Opening
pub mod Sending
pub mod Starting
pub mod Running
pub mod Unset
pub mod Halting
mod Tests
use lite_cpplib.Base.{
  ℕ, zero, suc, ◌+◌, ◌*◌, Bool, true, false, not, ◌&&◌, Option, none, some, List, [], ◌∷◌, ◌++◌,
  length, leb, ltb, ◌==◌, take, drop, if◌then◌else◌, Outcome, ok, undefined, ◌>>=◌, ◌>>◌, defined,
  throw_if,
}
use lite_cpplib.Event.{EventApi, Event}
use lite_cpplib.Thread.{Thread, new_thread, signal_thread, start, Resumption, Look, Left, stop}
use lite_cpplib.IocpBase.{
  Layout, IoContext, Socket, World, IoContextPool, SocketContext, max_io_buffer_size, store,
  get_io_context, put_all, add_context,
}
use lite_cpplib.IocpBase.SocketPool.{
  Net, SocketContextPool, store_socket, get_socket_context, add_active_context,
  clear_active_context, get_active_context,
}
use lite_cpplib.TcpWorker.{Service, socket_id, set_io, set_socket, unbind, post_accept, post_send}

-- WORKER_THREADS_PER_PROCESSOR and MEM_POOL_SIZE
abbrev pub worker_threads_per_processor : ℕ
worker_threads_per_processor = 2

abbrev pub mem_pool_size : ℕ
mem_pool_size = 1000

-- The members of IOCP_TCPServer, without the pointers to callbacks: `service` is none as long as the
-- pools are NULL, `listen_context` as long as the pointer to the listening socket's context is.
pub record TcpServer (api : EventApi) : Type 0 where
  pub is_start : Bool
  pub iocp_handle : Bool
  pub listen_port : ℕ
  pub host_ip : List ℕ
  pub workers : List (Thread api)
  pub listen_context : Option ℕ
  pub service : Option Service

-- sockaddr_in of the family AF_INET
pub record SockaddrIn : Type 0 where
  pub sin_addr : ℕ
  pub sin_port : ℕ

-- What the system answers to _InitializeListenSocket; `fresh` are the bytes of a new `local_addr_`.
pub record ListenAnswers : Type 0 where
  pub fresh : List ℕ
  pub made : Socket
  pub associates : Bool
  pub inet_addr : List ℕ → ℕ
  pub htons : ℕ → ℕ
  pub binds : SockaddrIn → Bool
  pub listens : Bool
  pub gets_acceptex : Bool
  pub gets_sockaddrs : Bool

-- What the caller and the system give to Init: whether the callbacks are not NULL, the text of
-- `host_ip` unless it is NULL, the local address unless gethostbyname fails, and the processors.
pub record InitAnswers : Type 0 where
  pub received_given : Bool
  pub disconnected_given : Bool
  pub host_given : Option (List ℕ)
  pub inet_ntoa : Option (List ℕ)
  pub creates_iocp : Bool
  pub listen : ListenAnswers
  pub processors : ℕ

-- _GetLocalIP()
unfoldable pub get_local_ip : Option (List ℕ) → List ℕ
get_local_ip none = b'1' ∷ b'2' ∷ b'7' ∷ b'.' ∷ b'0' ∷ b'.' ∷ b'0' ∷ b'.' ∷ b'1' ∷ []
get_local_ip (some text) = text

-- `"*" == host_ip_`
abbrev pub is_any : List ℕ → Bool
is_any [] = false
is_any (c ∷ []) = c == b'*'
is_any (c ∷ d ∷ cs) = false

-- The address that the listening socket is bound to; INADDR_ANY is 0.
unfoldable pub host_addr : ListenAnswers → List ℕ → ℕ → SockaddrIn
host_addr q host_ip port = record {
  sin_addr = if is_any host_ip then 0 else q.inet_addr host_ip;
  sin_port = q.htons port;
}

module _ (api : EventApi) (y : Layout) where
  -- IOCP_TCPServer()
  unfoldable pub new_tcp_server : ℕ → TcpServer api
  new_tcp_server listen_port = record {
    is_start = false;
    iocp_handle = false;
    listen_port = listen_port;
    host_ip = [];
    workers = [];
    listen_context = none;
    service = none;
  }

  -- The pools that Init makes, over what the heap holds
  unfoldable pub new_service : Net → Service
  new_service heap = record {
    sp = record { list_idle = []; pool_size = 2 * mem_pool_size; map_active = [] };
    net = record heap {
      io = (record { list_io_context = []; pool_size = mem_pool_size }, heap.io.1);
    };
    calls = [];
  }

  -- The `do … while (0)` of _InitializeListenSocket: whether every step succeeds
  unfoldable pub opens : ListenAnswers → List ℕ → ℕ → Bool
  unfolding host_addr
  opens q host_ip port =
      q.associates
      && q.binds (host_addr q host_ip port)
      && q.listens
      && q.gets_acceptex
      && q.gets_sockaddrs

  -- _InitializeListenSocket(), with the context that it takes
  unfoldable pub initialize_listen_socket :
      ListenAnswers → List ℕ → ℕ → Service → Outcome (Bool × (ℕ × Service))
  unfolding get_socket_context set_socket add_active_context opens unbind
  initialize_listen_socket q host_ip port v = do
    let got = get_socket_context y q.fresh (v.sp, v.net)
    let context = got.0
    s ← defined ((got.1).1.sockets context)
    let v0 = record v { sp = (got.1).0; net = (got.1).1 }
    let without = set_socket context (record s { is_listen_sock = true; sock = none }) v0
    let v1 =
        set_socket context
          (record s { is_listen_sock = true; sock = q.made; sock_id = socket_id q.made }) v0
    let made : Outcome (Bool × (ℕ × Service)) = do
      sp ← add_active_context context (v1.sp, v1.net)
      let v2 = record v1 { sp = sp }
      let closed : Outcome (Bool × (ℕ × Service)) = do
        v3 ← unbind y (socket_id q.made) v2
        ok (false, (context, v3))
      if opens q host_ip port then ok (true, (context, v2)) else closed
    elim q.made [ none ↦ ok (false, (context, without)) | some _ ↦ made ]

  -- _InitializeWorkThread(): as many threads as their number, each with the event of its member
  unfoldable pub new_workers : ℕ → Event api → List (Thread api)
  unfolding new_thread
  new_workers zero event = []
  new_workers (suc n) event = new_thread api [] event ∷ new_workers n event

  -- Init, over what the heap holds, and with the event that each worker is made with
  unfoldable pub init :
      InitAnswers → ℕ → Net → Event api → TcpServer api → Outcome (Bool × TcpServer api)
  unfolding get_local_ip new_service initialize_listen_socket new_workers
  init q listen_port heap event server = do
    (if q.received_given && q.disconnected_given then ok tt else undefined)
    let host_ip : List ℕ = elim q.host_given [ none ↦ get_local_ip q.inet_ntoa | some text ↦ text ]
    let made = record server {
      listen_port = listen_port;
      host_ip = host_ip;
      iocp_handle = q.creates_iocp;
      service = some (new_service heap);
    }
    let opened : Outcome (Bool × TcpServer api) = do
      (opens_socket, (context, v)) ←
          initialize_listen_socket q.listen host_ip listen_port (new_service heap)
      let with_context = record made { listen_context = some context; service = some v }
      let threads = new_workers (worker_threads_per_processor * q.processors) event
      ok (
        opens_socket,
        (if opens_socket
            then record with_context { workers = server.workers ++ threads }
            else with_context),
      )
    if q.creates_iocp then opened else ok (false, made)
