-- ===== src/TcpClient/Connecting.antt =====
-- Connect of a client (network/iocp_tcpclient.h).
use lite_cpplib.Base.{
  ℕ, ◌≡◌, ◌≢◌, refl, ap, ◌∙◌, true, some, List, ◌∷◌, ==_refl, ok, defined, bind_then, if_then,
}
use lite_cpplib.Event.{EventApi}
use lite_cpplib.Thread.{Thread}
use lite_cpplib.IocpBase.{Layout, IoOperation, SocketContext, reset_buffer}
use lite_cpplib.IocpBase.SocketPool.{
  Net, SocketContextPool, store_socket, find, insert, add_active_context, get_active_context,
}
use lite_cpplib.IocpBase.SocketPool.Active.{find-insert, find-insert_other}
use lite_cpplib.IocpBase.SocketPool.Consistent.Adding.{get_socket_context-IsFree}
use lite_cpplib.TcpWorker.{Service, socket_id, set_socket, post_recv}
use lite_cpplib.TcpWorker.Invariant.{IsSound}
use lite_cpplib.TcpWorker.Arming.{armed, post_recv-armed}
use lite_cpplib.TcpClient.{
  TcpClient, ConnectAnswers, remote_addr_of, front, adopt_connected, connect_with, connect_socket,
  connect,
}
use lite_cpplib.TcpClient.Sound.{connect_socket-IsSound}

module _ (api : EventApi) (y : Layout) where
  -- The socket of a free context that has been joined is received from.
  adopt_connected_lem :
      (worker : Thread api) (context : ℕ) (q : ConnectAnswers) (v : Service) (s : SocketContext)
      → v.net.sockets context ≡ some s
      → q.associates ≡ true
      → q.receives ≡ true
      → adopt_connected api y (some worker) context q v
        ≡ ok (
          true,
          armed y context s (record v {
            sp = record (v.sp) { map_active = insert s.sock_id context v.sp.map_active };
          }),
        )
  unfolding adopt_connected add_active_context
  adopt_connected_lem worker context q v s alive associates receives =
      let v1 : Service = record v {
        sp = record (v.sp) { map_active = insert s.sock_id context v.sp.map_active };
      } in
      let adds : add_active_context context (v.sp, v.net) ≡ ok v1.sp = rw alive refl in
      bind_then (defined (v.net.sockets context)) _ (ap defined alive) (
        bind_then (add_active_context context (v.sp, v.net)) _ adds (
          if_then _ _ associates (
            ap (λ b. post_recv y context b v1) receives
            ∙ post_recv-armed y v1 context s true alive)))

  -- The state after Connect: the context is active under the id of the socket, and receives.
  pub record IsJoined (v w : Service) (sock context : ℕ) : Type 0 where
    pub socket : SocketContext
    pub alive : w.net.sockets context ≡ some socket
    pub has_socket : socket.sock ≡ some sock
    pub receives : socket.recv_context.operation ≡ IoOperation.recv_posted
    pub active : get_active_context (socket_id (some sock)) w.sp ≡ some context
    pub others :
        (id : ℕ)
        → id ≢ socket_id (some sock)
        → get_active_context id w.sp ≡ get_active_context id v.sp
    pub calls : w.calls ≡ v.calls

  joined_lem :
      (worker : Thread api) (q : ConnectAnswers) (dst_ip : List ℕ) (dst_port sock : ℕ) (v : Service)
      → IsSound v
      → q.connects (remote_addr_of q dst_ip dst_port) ≡ true
      → q.associates ≡ true
      → q.receives ≡ true
      → (context : ℕ) × (w : Service) × (connect_socket api y
            (some worker)
            (record q { made = some sock })
            dst_ip
            dst_port
            v
          ≡ ok (true, (some (socket_id (some sock)), w)))
        × IsJoined v w sock context
  unfolding connect_socket connect_with set_socket store_socket get_active_context remote_addr_of
  joined_lem worker q dst_ip dst_port sock v h connects associates receives =
      let (context, sp, net, e, free, same, _, _) =
        get_socket_context-IsFree y q.fresh v.sp v.net h in
      let (s0, alive, _) = free.alive in
      let id = socket_id (some sock) in
      let s : SocketContext = record s0 {
        sock = some sock;
        recv_context = record (s0.recv_context) {
          remote_addr = q.bytes_of (remote_addr_of q dst_ip dst_port);
        };
        sock_id = id;
      } in
      let v0 : Service = record v { sp = sp; net = net } in
      let v1 : Service = set_socket context s v0 in
      let adopted =
        adopt_connected_lem worker context (record q { made = some sock }) v1 s
          (rw (==_refl context) refl) associates receives in
      let run : connect_with api y (some worker) (record q { made = some sock }) dst_ip dst_port
            context v0
          ≡ ok (
            true,
            (
              some id,
              armed y context s
                  (record v1 { sp = record sp { map_active = insert id context sp.map_active } }),
            ),
          ) =
        bind_then (defined (net.sockets context)) _ (ap defined alive) (
          if_then _ _ connects (
            bind_then
              (adopt_connected api y (some worker) context (record q { made = some sock }) v1) _
              adopted refl)) in
      (
        context,
        armed y context s
            (record v1 { sp = record sp { map_active = insert id context sp.map_active } }),
        ap
              (λ (got : ℕ × (SocketContextPool × Net)).
                connect_with api y (some worker) (record q { made = some sock }) dst_ip dst_port
                  (got.0) (record v { sp = (got.1).0; net = (got.1).1 }))
              e
            ∙ run,
        record {
          socket = record s {
            recv_context = record (reset_buffer y s.recv_context) {
              operation = IoOperation.recv_posted;
            };
          };
          alive = rw (==_refl context) refl;
          has_socket = refl;
          receives = refl;
          active = find-insert id context sp.map_active;
          others = λ other ne.
              find-insert_other id other context sp.map_active ne ∙ ap (find other) same;
          calls = refl;
        },
      )

  -- Connect of a client that has started, has a worker and is in a sound state, where the system
  -- makes the socket, connects, associates and takes the receive: it returns true and the
  -- socket's id, a context is active under that id, has the socket and a posted receive, the
  -- other ids stay what they were, the user hears of nothing, and the state is sound.
  pub connect_lem :
      (q : ConnectAnswers) (dst_ip : List ℕ) (dst_port sock : ℕ) (client : TcpClient api)
      (v : Service) (t : Thread api) (ts : List (Thread api))
      → client.is_start ≡ true
      → client.service ≡ some v
      → client.workers ≡ t ∷ ts
      → IsSound v
      → q.made ≡ some sock
      → q.connects (remote_addr_of q dst_ip dst_port) ≡ true
      → q.associates ≡ true
      → q.receives ≡ true
      → (context : ℕ) × (w : Service) × (connect api y q dst_ip dst_port client
          ≡ ok (true, (some (socket_id (some sock)), record client { service = some w })))
        × IsJoined v w sock context
        × IsSound w
  unfolding connect
  connect_lem q dst_ip dst_port sock client v t ts started has works h made connects associates
        receives =
      let (context, w, e, joined) =
        joined_lem t q dst_ip dst_port sock v h connects associates receives in
      let e' : connect_socket api y (some t) q dst_ip dst_port v
          ≡ ok (true, (some (socket_id (some sock)), w)) =
        ap (λ m. connect_socket api y (some t) (record q { made = m }) dst_ip dst_port v) made
        ∙ e in
      let e'' : connect_socket api y (front api y client.workers) q dst_ip dst_port v
          ≡ ok (true, (some (socket_id (some sock)), w)) =
        ap (λ l. connect_socket api y (front api y l) q dst_ip dst_port v) works ∙ e' in
      (
        context,
        w,
        if_then _ _ started (
            bind_then (defined client.service) _ (ap defined has) (
              bind_then (connect_socket api y (front api y client.workers) q dst_ip dst_port v) _
                e'' refl)),
        joined,
        (connect_socket-IsSound api y (some t) q dst_ip dst_port v h).holds
            (true, (some (socket_id (some sock)), w)) e',
      )
