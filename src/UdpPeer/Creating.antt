-- ===== src/UdpPeer/Creating.antt =====
-- Create of a peer (network/iocp_udppeer.h).
use lite_cpplib.Base.{
  ℕ, ◌≡◌, ◌≢◌, refl, ap, ◌∙◌, true, Option, some, List, ==_refl, ok, defined, bind_then, if_then,
  replicate,
}
use lite_cpplib.Event.{EventApi}
use lite_cpplib.Thread.{Thread}
use lite_cpplib.IocpBase.{Layout, IoOperation, SocketContext, reset_buffer}
use lite_cpplib.IocpBase.SocketPool.{
  store_socket, find, insert, add_active_context, get_active_context,
}
use lite_cpplib.IocpBase.SocketPool.Active.{find-insert, find-insert_other}
use lite_cpplib.TcpWorker.{Service, socket_id, set_socket}
use lite_cpplib.TcpWorker.Invariant.{IsSound}
use lite_cpplib.TcpServer.{SockaddrIn}
use lite_cpplib.UdpWorker.{post_recv_from}
use lite_cpplib.UdpPeer.{
  UdpAnswers, bind_addr, join_created, bind_created, create_with, create_socket,
}
use lite_cpplib.UdpPeer.Sound.{create_socket-create_with, create_socket-IsSound}

module _ (api : EventApi) (y : Layout) where
  -- A context whose socket is bound becomes active and receives.
  pub record IsOpened (v w : Service) (sock context : ℕ) (local_addr : List ℕ) : Type 0 where
    pub socket : SocketContext
    pub alive : w.net.sockets context ≡ some socket
    pub has_socket : socket.sock ≡ some sock
    pub has_address : socket.local_addr ≡ local_addr
    pub receives : socket.recv_context.operation ≡ IoOperation.recv_posted
    pub active : get_active_context (socket_id (some sock)) w.sp ≡ some context
    pub others :
        (id : ℕ)
        → id ≢ socket_id (some sock)
        → get_active_context id w.sp ≡ get_active_context id v.sp
    pub calls : w.calls ≡ v.calls

  join_created_lem :
      (worker : Thread api) (q : UdpAnswers) (context : ℕ) (s : SocketContext) (sock bind_port : ℕ)
      (v : Service)
      → s.sock ≡ some sock
      → q.associates ≡ true
      → (w : Service) × (join_created api y (some worker) q context s bind_port v
          ≡ ok (record {
            answer = q.receives;
            sock_id = some (socket_id (some sock));
            bind_port = bind_port;
            left = w;
          }))
        × IsOpened v w sock context s.local_addr
  unfolding join_created set_socket store_socket add_active_context post_recv_from
      get_active_context
  join_created_lem worker q context s sock bind_port v made associates =
      let id = socket_id (some sock) in
      let t : SocketContext = record s {
        sock_id = id;
        recv_context = record (reset_buffer y s.recv_context) {
          remote_addr = replicate y.sizeof_sockaddr_in 0;
          operation = IoOperation.recv_posted;
        };
      } in
      let w0 : Service = record (set_socket context (record s { sock_id = id }) v) {
        sp = record (v.sp) { map_active = insert id context v.sp.map_active };
      } in
      (
        set_socket context t w0,
        simp (made, ==_refl context, associates) refl,
        record {
          socket = t;
          alive = rw (==_refl context) refl;
          has_socket = made;
          has_address = refl;
          receives = refl;
          active = find-insert id context v.sp.map_active;
          others = λ other ne. find-insert_other id other context v.sp.map_active ne;
          calls = refl;
        },
      )

  create_with-bind_created :
      (worker : Option (Thread api)) (q : UdpAnswers) (bind_ip : List ℕ)
      (bind_port context sock : ℕ) (s : SocketContext) (v : Service)
      → v.net.sockets context ≡ some s
      → q.made ≡ some sock
      → create_with api y worker q bind_ip bind_port context v
        ≡ bind_created api y worker q bind_ip bind_port context (record s { sock = some sock }) v
  unfolding create_with
  create_with-bind_created worker q bind_ip bind_port context sock s v alive made =
      bind_then (defined (v.net.sockets context)) _ (ap defined alive) (simp made refl)

  -- Create with the port 0 in a sound state, where the system makes and binds the socket, names
  -- its address and associates it: it answers as the receive does, gives the socket's id and the
  -- port of the name, a context is active under that id with the socket, the named address and a
  -- receive, the other ids and what the user heard stay, and the state is sound.
  pub create_any_port :
      (worker : Thread api) (q : UdpAnswers) (bind_ip : List ℕ) (sock : ℕ) (a : SockaddrIn)
      (v : Service)
      → IsSound v
      → q.made ≡ some sock
      → q.binds (bind_addr q bind_ip 0) ≡ true
      → q.sockname ≡ some a
      → q.associates ≡ true
      → (context : ℕ) × (w : Service) × (create_socket api y (some worker) q bind_ip 0 v
          ≡ ok (record {
            answer = q.receives;
            sock_id = some (socket_id (some sock));
            bind_port = q.ntohs a.sin_port;
            left = w;
          }))
        × IsOpened v w sock context (q.bytes_of a)
        × IsSound w
  unfolding bind_created get_active_context
  create_any_port worker q bind_ip sock a v h made binds named associates =
      let (context, u, e, free, same, same_calls, _) =
        create_socket-create_with api y (some worker) q bind_ip 0 v h in
      let (s0, alive, _) = free.alive in
      let s : SocketContext = record s0 { sock = some sock; local_addr = q.bytes_of a } in
      let (w, joins, opened) =
        join_created_lem worker q context s sock (q.ntohs a.sin_port) u refl associates in
      let bound : bind_created api y (some worker) q bind_ip 0 context
            (record s0 { sock = some sock }) u
          ≡ join_created api y (some worker) q context s (q.ntohs a.sin_port) u =
        if_then _ _ binds (simp named refl) in
      let created =
        e
        ∙ create_with-bind_created (some worker) q bind_ip 0 context sock s0 u alive made
        ∙ bound
        ∙ joins in
      (
        context,
        w,
        created,
        record {
          socket = opened.socket;
          alive = opened.alive;
          has_socket = opened.has_socket;
          has_address = opened.has_address;
          receives = opened.receives;
          active = opened.active;
          others = λ id ne. opened.others id ne ∙ ap (find id) same;
          calls = opened.calls ∙ same_calls;
        },
        (create_socket-IsSound api y (some worker) q bind_ip 0 v h).holds _ created,
      )
