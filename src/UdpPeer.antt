-- ===== src/UdpPeer.antt =====
-- network/iocp_udppeer.h: class IOCP_UDPPeer over its workers' threads and the state that they share. The
-- threads are made, started and stopped as in network/iocp_tcpserver.h and network/iocp_tcpclient.h.
pub mod Operations
pub mod Sound
pub mod Creating
pub mod Reachable
mod Tests
use lite_cpplib.Base.{
  ℕ, ◌*◌, Bool, true, false, Option, none, some, List, [], ◌∷◌, ◌++◌, replicate, ◌==◌,
  if◌then◌else◌, Outcome, ok, undefined, ◌>>=◌, ◌>>◌, defined,
}
use lite_cpplib.Event.{EventApi, Event}
use lite_cpplib.Thread.{Thread}
use lite_cpplib.IocpBase.{
  Layout, Socket, World, IoContext, IoContextPool, SocketContext, get_io_context, add_context,
}
use lite_cpplib.IocpBase.SocketPool.{
  Net, get_socket_context, put_socket_context, add_active_context, clear_active_context,
  get_active_context,
}
use lite_cpplib.TcpWorker.{Service, socket_id, set_io, set_socket, unbind}
use lite_cpplib.TcpServer.{
  SockaddrIn, is_any, new_service, new_workers, worker_threads_per_processor,
}
use lite_cpplib.TcpServer.Operations.{copy_in, StopAnswers, signal_all, stop_loop}
use lite_cpplib.TcpClient.{front, start_all}
use lite_cpplib.UdpWorker.{post_recv_from, post_send_to}

-- The members of IOCP_UDPPeer, without the pointer to the callback: `service` is none as long as the
-- pools are NULL.
pub record UdpPeer (api : EventApi) : Type 0 where
  pub is_start : Bool
  pub iocp_handle : Bool
  pub workers : List (Thread api)
  pub service : Option Service

-- What the system answers to Create and SendTo: the bytes of a new `local_addr_`, WSASocket, inet_addr,
-- htons, ntohs, how a sockaddr_in lies in memory, bind, getsockname, CreateIoCompletionPort, WSARecvFrom.
pub record UdpAnswers : Type 0 where
  pub fresh : List ℕ
  pub made : Socket
  pub inet_addr : List ℕ → ℕ
  pub htons : ℕ → ℕ
  pub ntohs : ℕ → ℕ
  pub bytes_of : SockaddrIn → List ℕ
  pub binds : SockaddrIn → Bool
  pub sockname : Option SockaddrIn
  pub associates : Bool
  pub receives : Bool

-- The address that Create binds to; INADDR_ANY is 0.
unfoldable pub bind_addr : UdpAnswers → List ℕ → ℕ → SockaddrIn
bind_addr q bind_ip bind_port = record {
  sin_addr = if is_any bind_ip then 0 else q.inet_addr bind_ip;
  sin_port = q.htons bind_port;
}

-- What Create leaves: its answer, `sock_id` if it is set, `bind_port`, and the state
pub record Created : Type 0 where
  pub answer : Bool
  pub sock_id : Option ℕ
  pub bind_port : ℕ
  pub left : Service

module _ (api : EventApi) (y : Layout) where
  -- IOCP_UDPPeer()
  unfoldable pub new_udp_peer : UdpPeer api
  new_udp_peer = record { is_start = false; iocp_handle = false; workers = []; service = none }

  -- Init, from whether the callback is not NULL, what CreateIoCompletionPort answers, the number of
  -- processors, what the heap holds, and the event that each worker is made with
  unfoldable pub init_peer :
      Bool → Bool → ℕ → Net → Event api → UdpPeer api → Outcome (Bool × UdpPeer api)
  unfolding new_service new_workers
  init_peer callback_given creates_iocp processors heap event peer = do
    (if callback_given then ok tt else undefined)
    let made = record peer { iocp_handle = creates_iocp; service = some (new_service api y heap) }
    let threads = new_workers api y (worker_threads_per_processor * processors) event
    if creates_iocp
        then ok (true, record made { workers = peer.workers ++ threads })
        else ok (false, made)

  -- Start()
  unfoldable pub start_peer :
      (ℕ → Option (ℕ × ℕ)) → (ℕ → ℕ) → UdpPeer api → Outcome (Bool × UdpPeer api)
  unfolding start_all
  start_peer made resumed peer = do
    let starts : Outcome (Bool × UdpPeer api) = do
      workers ← start_all api y made resumed peer.workers
      ok (true, record peer { is_start = true; workers = workers })
    if peer.is_start then ok (true, peer) else starts

  -- `closesocket(sock_context->sock_)`, after which the context goes back to the pool as it is
  unfoldable pub close_created : ℕ → SocketContext → Service → Service
  unfolding set_socket put_socket_context
  close_created context s v =
      let u = set_socket context s v in
      record u {
        sp = put_socket_context context v.sp;
        net = record (u.net) {
          io = (
            (v.net.io).0,
            record ((v.net.io).1) { closed = (v.net.io).1.closed ++ (s.sock ∷ []) },
          );
        };
      }

  -- Create from the bound socket on, for the context `s`, with the first worker, if any
  unfoldable pub join_created :
      Option (Thread api) → UdpAnswers → ℕ → SocketContext → ℕ → Service → Outcome Created
  unfolding set_socket add_active_context unbind post_recv_from
  join_created worker q context s bind_port v = do
    let id = socket_id s.sock
    let u = set_socket context (record s { sock_id = id }) v
    sp ← add_active_context context (u.sp, u.net)
    _ ← defined worker
    let w = record u { sp = sp }
    let refused : Outcome Created = do
      w' ← unbind y id w
      ok (record { answer = false; sock_id = some id; bind_port = bind_port; left = w' })
    let receives : Outcome Created = do
      (answer, w') ← post_recv_from y context q.receives w
      ok (record { answer = answer; sock_id = some id; bind_port = bind_port; left = w' })
    if q.associates then receives else refused

  -- Create with the context that it has taken from the pool, from the socket that is made on
  unfoldable pub bind_created :
      Option (Thread api) → UdpAnswers → List ℕ → ℕ → ℕ → SocketContext → Service → Outcome Created
  unfolding close_created join_created bind_addr
  bind_created worker q bind_ip bind_port context s v =
      let addr = bind_addr q bind_ip bind_port in
      let aimed = record s { local_addr = q.bytes_of addr } in
      let emptied = record s { local_addr = replicate y.sizeof_sockaddr_in 0 } in
      let unbound = ok (record {
        answer = false;
        sock_id = none;
        bind_port = bind_port;
        left = close_created context aimed v;
      }) in
      let unnamed = ok (record {
        answer = false;
        sock_id = none;
        bind_port = bind_port;
        left = close_created context emptied v;
      }) in
      let named = λ (a : SockaddrIn).
        join_created worker q context (record s { local_addr = q.bytes_of a }) (q.ntohs a.sin_port)
          v in
      let as_asked = join_created worker q context aimed bind_port v in
      let chosen : Outcome Created = elim q.sockname [ none ↦ unnamed | some a ↦ named a ] in
      if q.binds addr then if bind_port == 0 then chosen else as_asked else unbound

  -- Create with the context that it has taken from the pool
  unfoldable pub create_with :
      Option (Thread api) → UdpAnswers → List ℕ → ℕ → ℕ → Service → Outcome Created
  unfolding set_socket put_socket_context bind_created
  create_with worker q bind_ip bind_port context v = do
    s ← defined (v.net.sockets context)
    let unmade = set_socket context (record s { sock = none }) v
    elim q.made [
      | none ↦ ok (record {
        answer = false;
        sock_id = none;
        bind_port = bind_port;
        left = record unmade { sp = put_socket_context context v.sp };
      })
      | some k ↦ bind_created worker q bind_ip bind_port context (record s { sock = some k }) v
    ]

  -- Create of a peer that has started
  unfoldable pub create_socket :
      Option (Thread api) → UdpAnswers → List ℕ → ℕ → Service → Outcome Created
  unfolding get_socket_context create_with
  create_socket worker q bind_ip bind_port v =
      let got = get_socket_context y q.fresh (v.sp, v.net) in
      create_with worker q bind_ip bind_port (got.0) (record v { sp = (got.1).0; net = (got.1).1 })

  -- Create(sock_id, bind_ip, bind_port): its answer, `sock_id` if it is set, and `bind_port`
  unfoldable pub create :
      UdpAnswers → List ℕ → ℕ → UdpPeer api → Outcome (Bool × (Option ℕ × (ℕ × UdpPeer api)))
  unfolding create_socket
  create q bind_ip bind_port peer = do
    let creates : Outcome (Bool × (Option ℕ × (ℕ × UdpPeer api))) = do
      v ← defined peer.service
      r ← create_socket (front api y peer.workers) q bind_ip bind_port v
      ok (r.answer, (r.sock_id, (r.bind_port, record peer { service = some r.left })))
    if peer.is_start then creates else ok (false, (none, (bind_port, peer)))

  -- CloseSocket(sock_id)
  unfoldable pub close_peer_socket : ℕ → UdpPeer api → Outcome (UdpPeer api)
  unfolding unbind
  close_peer_socket sock_id peer = do
    v ← defined peer.service
    v' ← unbind y sock_id v
    ok (record peer { service = some v' })
