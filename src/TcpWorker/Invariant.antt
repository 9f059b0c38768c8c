-- ===== src/TcpWorker/Invariant.antt =====
-- The worker's operations (network/iocp_tcpworkthread.h) keep the active and the idle contexts apart.
use lite_cpplib.Base.{
  ℕ, ◌≡◌, refl, Bool, true, none, some, defined, defined_ok, not, ◌&&◌, ◌==◌, ==_refl, Option,
  Ensures, Ensures-value, Ensures-bind, Ensures-any, Ensures-if,
}
use lite_cpplib.IocpBase.{
  Layout, IoContext, IoOperation, Socket, World, IoContextPool, SocketContext, remove_context,
  reset_buffer, put_io_context,
}
use lite_cpplib.IocpBase.SocketPool.{store_socket, del_active_context, add_active_context}
use lite_cpplib.IocpBase.SocketPool.Consistent.{
  IsConsistent, store_same-IsConsistent, store-IsFree, io-IsConsistent,
  del_active_context-IsConsistent,
}
use lite_cpplib.IocpBase.SocketPool.Consistent.Adding.{
  get_socket_context-IsFree, add_active_context-IsConsistent,
}
use lite_cpplib.TcpWorker.{
  Service, report, id_of_context, set_io, set_socket, unbind, drop_context, drop_id, post_recv,
  post_send, post_accept, assert_valid, do_recv, do_send, Answers, adopt, do_accept, handle_error,
  socket_id, connected, wait_timeout, error_netname_deleted,
}

abbrev pub IsSound : Service → Type 0
IsSound v = IsConsistent v.sp v.net

abbrev pub AnswerIsSound : Bool × Service → Type 0
AnswerIsSound r = IsSound (r.1)

pub set_io-IsSound : (io : ℕ) (c : IoContext) (v : Service) → IsSound v → IsSound (set_io io c v)
unfolding set_io
set_io-IsSound io c v h = io-IsConsistent v.sp v.net ((set_io io c v).net).io h

pub set_socket-IsSound :
    (context : ℕ) (s t : SocketContext) (v : Service)
    → v.net.sockets context ≡ some s
    → t.sock_id ≡ s.sock_id
    → IsSound v
    → IsSound (set_socket context t v)
unfolding set_socket store_socket
set_socket-IsSound context s t v alive same h =
    store_same-IsConsistent v.sp v.net context s t v.net.io h alive same

module _ (y : Layout) where
  pub unbind-IsSound : (id : ℕ) (v : Service) → IsSound v → Ensures IsSound (unbind y id v)
  unfolding unbind
  unbind-IsSound id v h =
      Ensures-any (del_active_context y id (v.sp, v.net)) _ (λ (sp, net) e.
        Ensures-value _ (del_active_context-IsConsistent y id v.sp v.net sp net h e))

  pub drop_id-IsSound : (id : ℕ) (v : Service) → IsSound v → Ensures IsSound (drop_id y id v)
  unfolding drop_id report
  drop_id-IsSound id v h =
      Ensures-bind (unbind y id v) _ (unbind-IsSound id v h) (λ v' k. Ensures-value _ k)

  pub drop_context-IsSound :
      (context : ℕ) (v : Service) → IsSound v → Ensures IsSound (drop_context y context v)
  unfolding drop_context report
  drop_context-IsSound context v h = Ensures-any (id_of_context context v) _ (λ id _.
      Ensures-bind (unbind y id v) _ (unbind-IsSound id v h)
        (λ v' k. Ensures-any (id_of_context context v') _ (λ id' _. Ensures-value _ k)))

  pub post_recv-IsSound :
      (context : ℕ) (posted : Bool) (v : Service)
      → IsSound v
      → Ensures AnswerIsSound (post_recv y context posted v)
  unfolding post_recv
  post_recv-IsSound context posted v h = Ensures-any (defined (v.net.sockets context)) _ (λ s e.
      let armed =
        set_socket context
          (record s {
            recv_context = record (reset_buffer y s.recv_context) {
              operation = IoOperation.recv_posted;
            };
          })
          v in
      let k : IsSound armed = set_socket-IsSound context s _ v (defined_ok e) refl h in
      Ensures-if posted (λ _. Ensures-value _ k)
        (λ _.
          Ensures-bind (drop_context y context armed) _ (drop_context-IsSound context armed k)
            (λ v' k'. Ensures-value _ k')))

  pub post_send-IsSound :
      (context io : ℕ) (posted : Bool) (v : Service)
      → IsSound v
      → Ensures AnswerIsSound (post_send y context io posted v)
  unfolding post_send
  post_send-IsSound context io posted v h = Ensures-any (defined (v.net.sockets context)) _ (λ s _.
      Ensures-any (defined ((v.net.io).1.heap io)) _ (λ c _.
        let armed = set_io io (record c { operation = IoOperation.send_posted }) v in
        let k : IsSound armed = set_io-IsSound io _ v h in
        Ensures-if posted (λ _. Ensures-value _ k)
          (λ _.
            Ensures-bind (drop_context y context armed) _ (drop_context-IsSound context armed k)
              (λ v' k'. Ensures-value _ k'))))

  post_accept-IsSound :
      (context io : ℕ) (made : Socket) (posted : Bool) (v : Service)
      → IsSound v
      → Ensures AnswerIsSound (post_accept y context io made posted v)
  unfolding post_accept
  post_accept-IsSound context io made posted v h =
      Ensures-any (defined (v.net.sockets context)) _ (λ s _.
        Ensures-any (assert_valid s.sock) _ (λ _ _.
          Ensures-any (defined ((v.net.io).1.heap io)) _
            (λ c _. Ensures-value _ (set_io-IsSound io _ v h))))

  pub do_recv-IsSound :
      (context : ℕ) (posted : Bool) (v : Service)
      → IsSound v
      → Ensures AnswerIsSound (do_recv y context posted v)
  unfolding do_recv report
  do_recv-IsSound context posted v h =
      Ensures-any (defined (v.net.sockets context)) _ (λ s _. post_recv-IsSound context posted _ h)

  remove_context_id :
      (io : ℕ) (s : SocketContext) (pw : IoContextPool × World)
      → Ensures
          (λ (r : SocketContext × (IoContextPool × World)). r.0.sock_id ≡ s.sock_id)
          (remove_context y io s pw)
  unfolding remove_context
  remove_context_id io s pw = Ensures-any (put_io_context y io pw) _ (λ pw' _. Ensures-value _ refl)

  pub do_send-IsSound :
      (context io : ℕ) (v : Service) → IsSound v → Ensures IsSound (do_send y context io v)
  unfolding do_send set_socket
  do_send-IsSound context io v h = Ensures-any (defined (v.net.sockets context)) _ (λ s e.
      Ensures-bind (remove_context y io s v.net.io) _ (remove_context_id io s v.net.io)
        (λ (s', pool_io) same.
          Ensures-value _
            (store_same-IsConsistent v.sp v.net context s s' pool_io h (defined_ok e) same)))

  -- The accepted socket's context has the id of the socket.
  adopt-IsSound :
      (io : ℕ) (q : Answers) (v : Service)
      → IsSound v
      → Ensures (λ (r : ℕ × Service). IsSound (r.1)) (adopt y io q v)
  unfolding adopt add_active_context set_socket store_socket
  adopt-IsSound io q v h =
      let (c, sp, net, e, free, _, _, _) = get_socket_context-IsFree y q.fresh v.sp v.net h in
      Ensures-any (defined ((v.net.io).1.heap io)) _ (λ i _.
        Ensures-any (defined i.sock_accept) _ (λ sock _. rw e (
          Ensures-any (defined (net.sockets c)) _ (λ s _.
            let s' : SocketContext = record s {
              sock = sock;
              sock_id = socket_id sock;
              local_addr = q.remote_addr;
            } in
            rw (==_refl c) (
              Ensures-value _ (
                add_active_context-IsConsistent c s' sp (store_socket c s' net)
                  (store-IsFree sp net c s' net.io free) (rw (==_refl c) refl)))))))

  pub do_accept-IsSound :
      (listening : Option ℕ) (io : ℕ) (q : Answers) (v : Service)
      → IsSound v
      → Ensures AnswerIsSound (do_accept y listening io q v)
  unfolding do_accept report
  do_accept-IsSound listening io q v h =
      Ensures-bind (adopt y io q v) _ (adopt-IsSound io q v h) (λ (context, v1) h1.
        Ensures-any (id_of_context context v1) _ (λ id _.
          Ensures-if q.associates
            (λ _.
              Ensures-bind (post_recv y context q.receives (report (connected id) v1)) _
                (post_recv-IsSound context q.receives _ h1)
                (λ (posted, v2) h2.
                  Ensures-if posted
                    (λ _. Ensures-any (defined ((v2.net.io).1.heap io)) _ (λ c _.
                      Ensures-any (defined listening) _ (λ listener _.
                        post_accept-IsSound listener io q.made q.accepts _
                          (set_io-IsSound io (reset_buffer y c) v2 h2))))
                    (λ _.
                      Ensures-bind (drop_context y context v2) _
                        (drop_context-IsSound context v2 h2) (λ v' k. Ensures-value _ k))))
            (λ _.
              Ensures-bind (unbind y id v1) _ (unbind-IsSound id v1 h1)
                (λ v' k. Ensures-value _ k))))

  pub handle_error-IsSound :
      (context : Option ℕ) (err : ℕ) (q : Answers) (v : Service)
      → IsSound v
      → Ensures AnswerIsSound (handle_error y context err q v)
  unfolding handle_error
  handle_error-IsSound none err q v h = Ensures-value _ h
  handle_error-IsSound (some context) err q v h =
      Ensures-any (defined (v.net.sockets context)) _ (λ s _.
        let dropped =
          Ensures-bind (drop_id y s.sock_id v) _ (drop_id-IsSound s.sock_id v h)
            (λ v' k. Ensures-value (true, v') k) in
        Ensures-if (not s.is_listen_sock && err == wait_timeout)
          (λ _. Ensures-if q.send_fails (λ _. dropped) (λ _. Ensures-value _ h))
          (λ _.
            Ensures-if (not s.is_listen_sock && err == error_netname_deleted) (λ _. dropped)
              (λ _. Ensures-value _ h)))
