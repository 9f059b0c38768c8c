-- ===== src/TcpServer/Operations.antt =====
-- IOCP_TCPServer (network/iocp_tcpserver.h) past Init: Start, Send, CloseSocket, Stop, DeInit.
use lite_cpplib.Base.{
  ℕ, suc, Bool, true, false, ◌&&◌, Option, none, some, List, [], ◌∷◌, ◌++◌, length, leb, take, drop,
  if◌then◌else◌, Outcome, ok, undefined, ◌>>=◌, defined,
}
use lite_cpplib.Event.{EventApi}
use lite_cpplib.Thread.{Thread, signal_thread, start, Resumption, Look, stop}
use lite_cpplib.IocpBase.{Layout, Socket, max_io_buffer_size, get_io_context, put_all, add_context}
use lite_cpplib.IocpBase.SocketPool.{clear_active_context, get_active_context}
use lite_cpplib.TcpWorker.{Service, set_io, set_socket, unbind, post_accept, post_send}
use lite_cpplib.TcpServer.{TcpServer}

-- What the system answers to Start for one worker: _beginthreadex, ResumeThread, WSASocket, AcceptEx.
pub record StartAnswers : Type 0 where
  pub thread_made : Option (ℕ × ℕ)
  pub resumed : ℕ
  pub accept_made : Socket
  pub accepts : Bool

module _ (api : EventApi) (y : Layout) where
  -- The part of the loop of Start that posts an accept on the listening socket, without its answer
  unfoldable pub listen_once : ℕ → StartAnswers → Service → Outcome Service
  unfolding get_io_context set_socket post_accept
  listen_once context q v = do
    let got = get_io_context y v.net.io
    s ← defined (v.net.sockets context)
    let v1 =
        set_socket context (record s { list_io_context = s.list_io_context ++ (got.0 ∷ []) })
          (record v { net = record (v.net) { io = got.1 } })
    (_, v2) ← post_accept y context (got.0) q.accept_made q.accepts v1
    ok v2

  -- The loop of Start, with the answers by the workers' positions
  unfoldable pub start_loop :
      ℕ → (ℕ → StartAnswers) → List (Thread api) → Service → Outcome (List (Thread api) × Service)
  unfolding start listen_once
  start_loop context q [] v = ok ([], v)
  start_loop context q (t ∷ ts) v = do
    (_, t') ← start api (q 0).thread_made (q 0).resumed t
    v' ← listen_once context (q 0) v
    (ts', v'') ← start_loop context (λ n. q (suc n)) ts v'
    ok (t' ∷ ts', v'')

  -- Start(). Without workers the pools are not used.
  unfoldable pub start_server : (ℕ → StartAnswers) → TcpServer api → Outcome (Bool × TcpServer api)
  unfolding start_loop
  start_server q server = do
    let starts : Outcome (Bool × TcpServer api) = do
      v ← defined server.service
      context ← defined server.listen_context
      (workers, v') ← start_loop context q server.workers v
      ok (true, record server { is_start = true; workers = workers; service = some v' })
    let loops : Outcome (Bool × TcpServer api) = elim server.workers [
      | [] ↦ ok (true, record server { is_start = true })
      | t ∷ ts ↦ starts
    ]
    if server.is_start then ok (true, server) else loops

  -- CloseSocket(sock_id)
  unfoldable pub close_socket : ℕ → TcpServer api → Outcome (TcpServer api)
  unfolding unbind
  close_socket sock_id server = do
    v ← defined server.service
    v' ← unbind y sock_id v
    ok (record server { service = some v' })

-- `memcpy(buf, data, data_len)` into a buffer of MAX_IO_BUFFER_SIZE bytes, for a length that is not negative
unfoldable pub copy_in : List ℕ → ℕ → List ℕ → Outcome (List ℕ)
copy_in content data_len buf =
    if leb data_len (length content) && leb data_len max_io_buffer_size
    then ok (take data_len content ++ drop data_len buf)
    else undefined

module _ (api : EventApi) (y : Layout) where
  -- The part of Send past its tests: the message in a context of the pool, which is given to the
  -- socket and posted.
  unfoldable pub send_message : ℕ → List ℕ → ℕ → Bool → Service → Outcome (Bool × Service)
  unfolding get_io_context copy_in set_io set_socket add_context post_send
  send_message context content data_len posted v = do
    let got = get_io_context y v.net.io
    let v1 = record v { net = record (v.net) { io = got.1 } }
    c ← defined ((got.1).1.heap got.0)
    buf ← copy_in content data_len c.buf
    s ← defined (v.net.sockets context)
    let v2 = set_io (got.0) (record c { buf = buf; wsa_len = data_len }) v1
    post_send y context (got.0) posted (set_socket context (add_context y (got.0) s) v2)

  -- Send(sock_id, data, data_len), from what follows `data` in memory, and whether WSASend succeeds.
  -- Without workers `front` has nothing to return.
  unfoldable pub send : ℕ → List ℕ → ℕ → Bool → TcpServer api → Outcome (Bool × TcpServer api)
  unfolding get_active_context send_message
  send sock_id content data_len posted server = do
    let sends = λ (v : Service) (context : ℕ). do
      let worker : Option (Thread api) = elim server.workers [ [] ↦ none | t ∷ ts ↦ some t ]
      _ ← defined worker
      (sent, v') ← send_message context content data_len posted v
      ok (sent, record server { service = some v' })
    let looks = do
      v ← defined server.service
      elim (get_active_context sock_id v.sp) [
        | none ↦ ok (false, server)
        | some context ↦ sends v context
      ]
    if server.is_start then looks else ok (false, server)

-- The clock and the answers that the Stop of one worker gets
pub record StopAnswers : Type 0 where
  pub t1 : ℕ
  pub resumptions : List Resumption
  pub looks : List Look

-- INFINITE, the default timeout of Thread::Stop
abbrev pub infinite : ℕ
infinite = 0xffffffff

module _ (api : EventApi) (y : Layout) where
  unfoldable pub signal_all : List (Thread api) → List (Thread api)
  unfolding signal_thread
  signal_all [] = []
  signal_all (t ∷ ts) = signal_thread api t ∷ signal_all ts

  -- The second loop of Stop; none as long as a worker is waited for with the answers so far
  unfoldable pub stop_loop : (ℕ → StopAnswers) → List (Thread api) → Option (List (Thread api))
  unfolding stop
  stop_loop q [] = some []
  stop_loop q (t ∷ ts) =
      let rest = stop_loop (λ n. q (suc n)) ts in
      elim (stop api infinite (q 0).t1 (q 0).resumptions (q 0).looks t) [
        | none ↦ none
        | some (_, t') ↦ elim rest [ none ↦ none | some ts' ↦ some (t' ∷ ts') ]
      ]

  -- The contexts of the listening socket go back to their pool.
  unfoldable pub release_listener : ℕ → Service → Outcome Service
  unfolding put_all set_socket
  release_listener context v = do
    s ← defined (v.net.sockets context)
    io ← put_all y s.list_io_context v.net.io
    ok (
        set_socket context (record s { list_io_context = [] })
          (record v { net = record (v.net) { io = io } }))

  -- Stop(), where the workers leave the service as it is given: the rounds that they still finish come
  -- before. none as long as a worker is waited for.
  unfoldable pub stop_server : (ℕ → StopAnswers) → TcpServer api → Outcome (Option (TcpServer api))
  unfolding signal_all stop_loop clear_active_context release_listener
  stop_server q server = do
    let clears = λ (workers : List (Thread api)). do
      v ← defined server.service
      context ← defined server.listen_context
      (sp, net) ← clear_active_context y (v.sp, v.net)
      v' ← release_listener context (record v { sp = sp; net = net })
      ok (some (record server { workers = workers; service = some v' }))
    let stops : Outcome (Option (TcpServer api)) = elim (stop_loop q (signal_all server.workers)) [
      | none ↦ ok none
      | some workers ↦ clears workers
    ]
    if server.is_start then stops else ok (some server)

  -- DeInit() of a server whose workers have no thread: the service that it leaves without pools, with
  -- the listening socket closed
  unfoldable pub de_init : TcpServer api → Outcome (TcpServer api × List Socket)
  de_init server = do
    v ← defined server.service
    context ← defined server.listen_context
    s ← defined (v.net.sockets context)
    ok (
      record server { workers = []; iocp_handle = false; service = none },
      (elim s.sock [ none ↦ [] | some sock ↦ some sock ∷ [] ]),
    )
