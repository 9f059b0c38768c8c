-- ===== src/TcpClient/Sound.antt =====
-- Connect of a client (network/iocp_tcpclient.h) keeps the pools sound.
use lite_cpplib.Base.{
  ℕ, ◌≡◌, sym, ap, subst, Bool, Option, some, List, defined, defined_ok, Ensures, Ensures-value,
  Ensures-bind, Ensures-any, Ensures-if, Ensures-option,
}
use lite_cpplib.Event.{EventApi}
use lite_cpplib.Thread.{Thread}
use lite_cpplib.IocpBase.{Layout, SocketContext}
use lite_cpplib.IocpBase.SocketPool.{Net, SocketContextPool, store_socket, add_active_context}
use lite_cpplib.IocpBase.SocketPool.Consistent.{
  IsConsistent, IsFree, store-IsFree, put_socket_context-IsConsistent,
}
use lite_cpplib.IocpBase.SocketPool.Consistent.Adding.{
  get_socket_context-IsFree, add_active_context-IsConsistent,
}
use lite_cpplib.TcpWorker.{Service, socket_id, set_socket, unbind}
use lite_cpplib.TcpWorker.Invariant.{IsSound, AnswerIsSound, unbind-IsSound, post_recv-IsSound}
use lite_cpplib.TcpClient.{
  ConnectAnswers, remote_addr_of, adopt_connected, connect_with, connect_socket,
}

module _ (api : EventApi) (y : Layout) where
  -- AddActiveContext of a free context, where it returns
  pub adding-IsConsistent :
      (c : ℕ) (sp : SocketContextPool) (net : Net)
      → IsFree sp net c
      → Ensures (λ (sp' : SocketContextPool). IsConsistent sp' net) (add_active_context c (sp, net))
  unfolding add_active_context
  adding-IsConsistent c sp net h =
      Ensures-any (defined (net.sockets c)) _
        (λ s e. Ensures-value _ (add_active_context-IsConsistent c s sp net h (defined_ok e)))

  adopt_connected-IsSound :
      (worker : Option (Thread api)) (context : ℕ) (q : ConnectAnswers) (v : Service)
      → IsFree v.sp v.net context
      → Ensures AnswerIsSound (adopt_connected api y worker context q v)
  unfolding adopt_connected
  adopt_connected-IsSound worker context q v h =
      Ensures-any (defined (v.net.sockets context)) _ (λ s _.
        Ensures-bind (add_active_context context (v.sp, v.net)) _
          (adding-IsConsistent context v.sp v.net h)
          (λ sp k. Ensures-any (defined worker) _ (λ _ _.
            let v1 : Service = record v { sp = sp } in
            Ensures-if q.associates (λ _. post_recv-IsSound y context q.receives v1 k)
              (λ _.
                Ensures-bind (unbind y s.sock_id v1) _ (unbind-IsSound y s.sock_id v1 k)
                  (λ v2 k'. Ensures-value _ k')))))

  connect_with-IsSound :
      (worker : Option (Thread api)) (q : ConnectAnswers) (dst_ip : List ℕ) (dst_port context : ℕ)
      (v : Service)
      → IsFree v.sp v.net context
      → Ensures
          (λ (r : Bool × (Option ℕ × Service)). IsSound (r.1).1)
          (connect_with api y worker q dst_ip dst_port context v)
  unfolding connect_with set_socket store_socket
  connect_with-IsSound worker q dst_ip dst_port context v free =
      Ensures-any (defined (v.net.sockets context)) _ (λ s _.
        let t : SocketContext = record s {
          sock = q.made;
          recv_context = record (s.recv_context) {
            remote_addr = q.bytes_of (remote_addr_of q dst_ip dst_port);
          };
          sock_id = socket_id q.made;
        } in
        let joined : Service = set_socket context t v in
        Ensures-option q.made
          (Ensures-value _ (
            put_socket_context-IsConsistent v.sp _ context
              (store-IsFree v.sp v.net context _ v.net.io free)))
          (λ _.
            Ensures-if (q.connects (remote_addr_of q dst_ip dst_port))
              (λ _.
                Ensures-bind (adopt_connected api y worker context q joined) _
                  (adopt_connected-IsSound worker context q joined
                    (store-IsFree v.sp v.net context t v.net.io free))
                  (λ r k. Ensures-value (r.0, (some (socket_id q.made), r.1)) k))
              (λ _. Ensures-value _ (
                put_socket_context-IsConsistent v.sp _ context
                  (store-IsFree v.sp v.net context _ _ free)))))

  pub connect_socket-IsSound :
      (worker : Option (Thread api)) (q : ConnectAnswers) (dst_ip : List ℕ) (dst_port : ℕ)
      (v : Service)
      → IsSound v
      → Ensures
          (λ (r : Bool × (Option ℕ × Service)). IsSound (r.1).1)
          (connect_socket api y worker q dst_ip dst_port v)
  unfolding connect_socket
  connect_socket-IsSound worker q dst_ip dst_port v h =
      let (context, sp, net, e, free, _, _, _) = get_socket_context-IsFree y q.fresh v.sp v.net h in
      let opened : connect_socket api y worker q dst_ip dst_port v
          ≡ connect_with api y worker q dst_ip dst_port context (record v { sp = sp; net = net }) =
        ap
          (λ (got : ℕ × (SocketContextPool × Net)).
            connect_with api y worker q dst_ip dst_port (got.0)
              (record v { sp = (got.1).0; net = (got.1).1 }))
          e in
      subst (Ensures (λ (r : Bool × (Option ℕ × Service)). IsSound (r.1).1)) (sym opened) (
        connect_with-IsSound worker q dst_ip dst_port context (record v { sp = sp; net = net })
          free)
