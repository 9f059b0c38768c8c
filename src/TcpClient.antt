-- ===== src/TcpClient.antt =====
-- network/iocp_tcpclient.h: class IOCP_TCPClient over its workers' threads and the state that they share.
-- Sending, and the threads' making and stopping, are the same code as in network/iocp_tcpserver.h.
pub mod Sound
pub mod Connecting
mod Tests
use lite_cpplib.Base.{
  ℕ, suc, ◌*◌, Bool, true, false, ◌&&◌, Option, none, some, List, [], ◌∷◌, ◌++◌, if◌then◌else◌,
  Outcome, ok, undefined, ◌>>=◌, ◌>>◌, defined,
}
use lite_cpplib.Event.{EventApi, Event}
use lite_cpplib.Thread.{Thread, start}
use lite_cpplib.IocpBase.{Layout, Socket, World, IoContextPool, SocketContext}
use lite_cpplib.IocpBase.SocketPool.{
  Net, get_socket_context, put_socket_context, add_active_context, clear_active_context,
  get_active_context,
}
use lite_cpplib.TcpWorker.{Service, socket_id, set_socket, unbind, post_recv}
use lite_cpplib.TcpServer.{SockaddrIn, new_service, new_workers, worker_threads_per_processor}
use lite_cpplib.TcpServer.Operations.{send_message, StopAnswers, signal_all, stop_loop}

-- The members of IOCP_TCPClient, without the pointers to callbacks: `service` is none as long as the
-- pools are NULL.
pub record TcpClient (api : EventApi) : Type 0 where
  pub is_start : Bool
  pub iocp_handle : Bool
  pub workers : List (Thread api)
  pub service : Option Service

-- What the system answers to Connect: the bytes of a new `local_addr_`, WSASocket, inet_addr, htons, how
-- a sockaddr_in lies in memory, whether WSAConnect succeeds or would block, CreateIoCompletionPort, and
-- WSARecv.
pub record ConnectAnswers : Type 0 where
  pub fresh : List ℕ
  pub made : Socket
  pub inet_addr : List ℕ → ℕ
  pub htons : ℕ → ℕ
  pub bytes_of : SockaddrIn → List ℕ
  pub connects : SockaddrIn → Bool
  pub associates : Bool
  pub receives : Bool

-- The address that Connect goes to
unfoldable pub remote_addr_of : ConnectAnswers → List ℕ → ℕ → SockaddrIn
remote_addr_of q dst_ip dst_port = record {
  sin_addr = q.inet_addr dst_ip;
  sin_port = q.htons dst_port;
}

module _ (api : EventApi) (y : Layout) where
  -- `list_work_thread_.front()`, of which an empty list has none
  abbrev pub front : List (Thread api) → Option (Thread api)
  front [] = none
  front (t ∷ ts) = some t

  -- IOCP_TCPClient()
  unfoldable pub new_tcp_client : TcpClient api
  new_tcp_client = record { is_start = false; iocp_handle = false; workers = []; service = none }

  -- Init, from whether the callbacks are not NULL, what CreateIoCompletionPort answers, the number of
  -- processors, what the heap holds, and the event that each worker is made with
  unfoldable pub init_client :
      Bool → Bool → Bool → ℕ → Net → Event api → TcpClient api → Outcome (Bool × TcpClient api)
  unfolding new_service new_workers
  init_client received_given disconnected_given creates_iocp processors heap event client = do
    (if received_given && disconnected_given then ok tt else undefined)
    let made = record client { iocp_handle = creates_iocp; service = some (new_service api y heap) }
    let threads = new_workers api y (worker_threads_per_processor * processors) event
    if creates_iocp
        then ok (true, record made { workers = client.workers ++ threads })
        else ok (false, made)

  -- The loop of Start, with what _beginthreadex and ResumeThread answer for each worker
  unfoldable pub start_all :
      (ℕ → Option (ℕ × ℕ)) → (ℕ → ℕ) → List (Thread api) → Outcome (List (Thread api))
  unfolding start
  start_all made resumed [] = ok []
  start_all made resumed (t ∷ ts) = do
    (_, t') ← start api (made 0) (resumed 0) t
    ts' ← start_all (λ n. made (suc n)) (λ n. resumed (suc n)) ts
    ok (t' ∷ ts')

  -- Start()
  unfoldable pub start_client :
      (ℕ → Option (ℕ × ℕ)) → (ℕ → ℕ) → TcpClient api → Outcome (Bool × TcpClient api)
  unfolding start_all
  start_client made resumed client = do
    let starts : Outcome (Bool × TcpClient api) = do
      workers ← start_all made resumed client.workers
      ok (true, record client { is_start = true; workers = workers })
    if client.is_start then ok (true, client) else starts

  -- Connect from the connected socket on, with the first worker, if any: whether it succeeds
  unfoldable pub adopt_connected :
      Option (Thread api) → ℕ → ConnectAnswers → Service → Outcome (Bool × Service)
  unfolding add_active_context unbind post_recv
  adopt_connected worker context q v = do
    s ← defined (v.net.sockets context)
    sp ← add_active_context context (v.sp, v.net)
    _ ← defined worker
    let v1 = record v { sp = sp }
    let refused : Outcome (Bool × Service) = do v2 ← unbind y s.sock_id v1; ok (false, v2)
    if q.associates then post_recv y context q.receives v1 else refused

  -- Connect with the context that it has taken from the pool: its answer, and `sock_id` if it is set
  unfoldable pub connect_with :
      Option (Thread api)
      → ConnectAnswers
      → List ℕ
      → ℕ
      → ℕ
      → Service
      → Outcome (Bool × (Option ℕ × Service))
  unfolding set_socket put_socket_context adopt_connected remote_addr_of
  connect_with worker q dst_ip dst_port context v = do
    s ← defined (v.net.sockets context)
    let addr = remote_addr_of q dst_ip dst_port
    let aimed = record s {
      sock = q.made;
      recv_context = record (s.recv_context) { remote_addr = q.bytes_of addr };
    }
    let unmade = set_socket context (record s { sock = none }) v
    let refused = set_socket context (record aimed { sock = none }) v
    let closing = record refused {
      net = record (refused.net) {
        io = (
          (refused.net.io).0,
          record ((refused.net.io).1) { closed = (refused.net.io).1.closed ++ (q.made ∷ []) },
        );
      };
    }
    let connected : Outcome (Bool × (Option ℕ × Service)) = do
      (answer, v') ←
          adopt_connected worker context q
            (set_socket context (record aimed { sock_id = socket_id q.made }) v)
      ok (answer, (some (socket_id q.made), v'))
    let tries : Outcome (Bool × (Option ℕ × Service)) =
        if q.connects addr
        then connected
        else ok (false, (none, record closing { sp = put_socket_context context v.sp }))
    elim q.made [
      | none ↦ ok (false, (none, record unmade { sp = put_socket_context context v.sp }))
      | some _ ↦ tries
    ]

  -- Connect of a client that has started
  unfoldable pub connect_socket :
      Option (Thread api)
      → ConnectAnswers
      → List ℕ
      → ℕ
      → Service
      → Outcome (Bool × (Option ℕ × Service))
  unfolding get_socket_context connect_with
  connect_socket worker q dst_ip dst_port v =
      let got = get_socket_context y q.fresh (v.sp, v.net) in
      connect_with worker q dst_ip dst_port (got.0) (record v { sp = (got.1).0; net = (got.1).1 })

  -- Connect(sock_id, dst_ip, dst_port). Without workers `front` has nothing to return.
  unfoldable pub connect :
      ConnectAnswers → List ℕ → ℕ → TcpClient api → Outcome (Bool × (Option ℕ × TcpClient api))
  unfolding connect_socket
  connect q dst_ip dst_port client = do
    let connects : Outcome (Bool × (Option ℕ × TcpClient api)) = do
      v ← defined client.service
      (answer, (sock_id, v')) ← connect_socket (front client.workers) q dst_ip dst_port v
      ok (answer, (sock_id, record client { service = some v' }))
    if client.is_start then connects else ok (false, (none, client))

  -- CloseSocket(sock_id)
  unfoldable pub close_connection : ℕ → TcpClient api → Outcome (TcpClient api)
  unfolding unbind
  close_connection sock_id client = do
    v ← defined client.service
    v' ← unbind y sock_id v
    ok (record client { service = some v' })

  -- Send(sock_id, data, data_len)
  unfoldable pub send_to : ℕ → List ℕ → ℕ → Bool → TcpClient api → Outcome (Bool × TcpClient api)
  unfolding get_active_context send_message
  send_to sock_id content data_len posted client = do
    let sends = λ (v : Service) (context : ℕ). do
      _ ← defined (front client.workers)
      (sent, v') ← send_message api y context content data_len posted v
      ok (sent, record client { service = some v' })
    let looks = do
      v ← defined client.service
      elim (get_active_context sock_id v.sp) [
        | none ↦ ok (false, client)
        | some context ↦ sends v context
      ]
    if client.is_start then looks else ok (false, client)

  -- Stop(); none as long as a worker is waited for
  unfoldable pub stop_client : (ℕ → StopAnswers) → TcpClient api → Outcome (Option (TcpClient api))
  unfolding signal_all stop_loop clear_active_context
  stop_client q client = do
    let clears = λ (workers : List (Thread api)). do
      v ← defined client.service
      (sp, net) ← clear_active_context y (v.sp, v.net)
      ok (
          some
            (record client { workers = workers; service = some (record v { sp = sp; net = net }) }))
    let stops : Outcome (Option (TcpClient api)) =
        elim (stop_loop api y q (signal_all api y client.workers)) [
          | none ↦ ok none
          | some workers ↦ clears workers
        ]
    if client.is_start then stops else ok (some client)

  -- DeInit() of a client whose workers have no thread
  unfoldable pub discard_client : TcpClient api → TcpClient api
  discard_client client = record client { workers = []; iocp_handle = false; service = none }
