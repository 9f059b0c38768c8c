-- ===== src/TcpServer/Opening.antt =====
-- Init of a server (network/iocp_tcpserver.h): the listening socket.
use lite_cpplib.Base.{
  ℕ, ◌*◌, ◌≡◌, refl, ap, ◌∙◌, true, false, none, some, List, [], ◌∷◌, ◌++◌, ==_refl, arith,
  none_not_some, ok, undefined, defined, bind_then, if_else, bind_undefined,
}
use lite_cpplib.Event.{EventApi, Event}
use lite_cpplib.IocpBase.{
  Layout, SocketContext, new_socket_context, reset_socket, reset_io, new_io_context,
}
use lite_cpplib.IocpBase.SocketPool.{
  Net, store_socket, find, insert, get_socket_context, add_active_context, get_active_context,
  del_active_context, reset_context,
}
use lite_cpplib.IocpBase.SocketPool.Active.{find-insert}
use lite_cpplib.IocpBase.SocketPool.Consistent.{store-IsFree}
use lite_cpplib.IocpBase.SocketPool.Consistent.Adding.{
  get_socket_context-IsFree, add_active_context-IsConsistent,
}
use lite_cpplib.TcpWorker.{Service, socket_id, set_socket, unbind}
use lite_cpplib.TcpWorker.Invariant.{IsSound}
use lite_cpplib.TcpServer.{
  TcpServer, ListenAnswers, InitAnswers, get_local_ip, new_service, opens, initialize_listen_socket,
  new_workers, init, worker_threads_per_processor,
}

-- The text of the address that Init uses.
abbrev pub chosen_ip : InitAnswers → List ℕ
chosen_ip q = elim q.host_given [ none ↦ get_local_ip q.inet_ntoa | some text ↦ text ]

-- The callbacks are given, and the port of completions and the listening socket are made.
pub record IsGranted (q : InitAnswers) (sock : ℕ) : Type 0 where
  pub received_given : q.received_given ≡ true
  pub disconnected_given : q.disconnected_given ≡ true
  pub creates_iocp : q.creates_iocp ≡ true
  pub made : q.listen.made ≡ some sock

-- The socket listens, and its context is the active one of its id.
pub record IsListening (v : Service) (sock context : ℕ) : Type 0 where
  pub sound : IsSound v
  pub active : get_active_context (socket_id (some sock)) v.sp ≡ some context
  pub socket : SocketContext
  pub alive : v.net.sockets context ≡ some socket
  pub has_socket : socket.sock ≡ some sock
  pub has_id : socket.sock_id ≡ socket_id (some sock)
  pub listens : socket.is_listen_sock ≡ true

module _ (y : Layout) (api : EventApi) where
  new_service-IsSound : (heap : Net) → IsSound (new_service api y heap)
  unfolding new_service find
  new_service-IsSound heap = record {
    active = λ k c e. absurd (none_not_some e);
    live = tt;
    distinct = tt;
    bounded = omega arith;
  }

  listen_lem :
      (q : ListenAnswers) (host_ip : List ℕ) (port : ℕ) (v : Service) (sock : ℕ)
      → IsSound v
      → q.made ≡ some sock
      → opens api y q host_ip port ≡ true
      → (context : ℕ) × (w : Service) × (initialize_listen_socket api y q host_ip port v
          ≡ ok (true, (context, w)))
        × IsListening w sock context
        × (w.net.io ≡ v.net.io)
  unfolding initialize_listen_socket set_socket store_socket add_active_context get_active_context
  listen_lem q host_ip port v sock h made all =
      let (context, sp, net, e, free, _, _, same_io) =
        get_socket_context-IsFree y q.fresh v.sp v.net h in
      let (s0, alive, _) = free.alive in
      let s : SocketContext = record s0 {
        is_listen_sock = true;
        sock = some sock;
        sock_id = socket_id (some sock);
      } in
      (
        context,
        record v {
          sp = record sp { map_active = insert (socket_id (some sock)) context sp.map_active };
          net = store_socket context s net;
        },
        rw (made, e, alive, all, ==_refl context, made) refl,
        record {
          sound =
              add_active_context-IsConsistent context s sp (store_socket context s net)
                (store-IsFree sp net context s net.io free) (rw (==_refl context) refl);
          active = find-insert (socket_id (some sock)) context sp.map_active;
          socket = s;
          alive = rw (==_refl context) refl;
          has_socket = refl;
          has_id = refl;
          listens = refl;
        },
        same_io,
      )

  -- Init where all is granted: its steps put together.
  pub init_lem :
      (q : InitAnswers) (port : ℕ) (heap : Net) (event : Event api) (server : TcpServer api)
      (sock : ℕ)
      → IsGranted q sock
      → opens api y q.listen (chosen_ip q) port ≡ true
      → (server' : TcpServer api) × (v : Service) × (context : ℕ) × (init api y q port heap event
            server
          ≡ ok (true, server'))
        × (server'.service ≡ some v)
        × (server'.listen_context ≡ some context)
        × IsListening v sock context
        × (v.net.io ≡ (new_service api y heap).net.io)
        × (server'.host_ip ≡ chosen_ip q)
        × (server'.is_start ≡ server.is_start)
        × (server'.workers
            ≡ server.workers
              ++ new_workers api y (worker_threads_per_processor * q.processors) event)
  unfolding init
  init_lem q port heap event server sock g all =
      let (context, v, e, listening, same_io) =
        listen_lem q.listen (chosen_ip q) port (new_service api y heap) sock
          (new_service-IsSound heap) g.made all in
      (
        record server {
          listen_port = port;
          host_ip = chosen_ip q;
          iocp_handle = q.creates_iocp;
          listen_context = some context;
          service = some v;
          workers =
              server.workers
              ++ new_workers api y (worker_threads_per_processor * q.processors) event;
        },
        v,
        context,
        simp (g.received_given, g.disconnected_given, g.creates_iocp, e) refl,
        refl,
        refl,
        listening,
        same_io,
        refl,
        refl,
        refl,
      )

  -- A context whose receiving context has no socket cannot be reset.
  unbind-undefined :
      (id context : ℕ) (s : SocketContext) (v : Service)
      → find id v.sp.map_active ≡ some context
      → v.net.sockets context ≡ some s
      → s.recv_context.sock_accept ≡ none
      → unbind y id v ≡ undefined
  unfolding unbind del_active_context reset_context reset_socket reset_io
  unbind-undefined id context s v found alive none_set =
      rw (del_active_context, found, alive, none_set) refl

  listening_undefined :
      (q : ListenAnswers) (host_ip : List ℕ) (port : ℕ) (heap : Net) (sock : ℕ)
      → opens api y (record q { made = some sock }) host_ip port ≡ false
      → initialize_listen_socket api y
          (record q { made = some sock })
          host_ip
          port
          (new_service api y heap)
        ≡ undefined
  unfolding initialize_listen_socket set_socket store_socket add_active_context get_socket_context
      new_service insert new_socket_context new_io_context
  listening_undefined q host_ip port heap sock fails =
      let s : SocketContext = record (new_socket_context y q.fresh) {
        is_listen_sock = true;
        sock = some sock;
        sock_id = socket_id (some sock);
      } in
      let v : Service = new_service api y heap in
      let v2 : Service = record v {
        sp = record (v.sp) { map_active = (socket_id (some sock), heap.next_socket) ∷ [] };
        net = store_socket heap.next_socket s ((get_socket_context y q.fresh (v.sp, v.net)).1).1;
      } in
      let reads : defined
            (((get_socket_context y q.fresh (v.sp, v.net)).1).1.sockets heap.next_socket)
          ≡ ok (new_socket_context y q.fresh) =
        rw (==_refl heap.next_socket) refl in
      let adds : add_active_context heap.next_socket (v.sp, v2.net) ≡ ok v2.sp =
        rw (==_refl heap.next_socket) refl in
      let found = find-insert (socket_id (some sock)) heap.next_socket [] in
      bind_then
        (defined (((get_socket_context y q.fresh (v.sp, v.net)).1).1.sockets heap.next_socket)) _
        reads
        (bind_then (add_active_context heap.next_socket (v.sp, v2.net)) _ adds (
          if_else _ _ fails (
            bind_undefined (unbind y (socket_id (some sock)) v2) _ (
              unbind-undefined (socket_id (some sock)) heap.next_socket s v2 found
                (rw (==_refl heap.next_socket) refl) refl))))

  listen_failure_undefined :
      (q : ListenAnswers) (host_ip : List ℕ) (port : ℕ) (heap : Net) (sock : ℕ)
      → q.made ≡ some sock
      → opens api y q host_ip port ≡ false
      → initialize_listen_socket api y q host_ip port (new_service api y heap) ≡ undefined
  unfolding opens
  listen_failure_undefined q host_ip port heap sock made fails =
      ap
        (λ m.
          initialize_listen_socket api y (record q { made = m }) host_ip port
            (new_service api y heap))
        made
      ∙ listening_undefined q host_ip port heap sock fails

  -- Init where the listening socket is made, but the association, bind, listen or one of the
  -- extension functions fails, is undefined: it resets the new context, whose receiving context
  -- has no initialised socket.
  pub init_failure_undefined :
      (q : InitAnswers) (port : ℕ) (heap : Net) (event : Event api) (server : TcpServer api)
      (sock : ℕ)
      → IsGranted q sock
      → opens api y q.listen (chosen_ip q) port ≡ false
      → init api y q port heap event server ≡ undefined
  unfolding init
  init_failure_undefined q port heap event server sock g fails =
      simp
        (
          g.received_given,
          g.disconnected_given,
          g.creates_iocp,
          listen_failure_undefined q.listen (chosen_ip q) port heap sock g.made fails,
        )
        refl
