-- ===== src/TcpWorker/Accepting.antt =====
-- _DoAccept (network/iocp_tcpworkthread.h): the accepted socket becomes active, and the listening socket
-- accepts again.
use lite_cpplib.Base.{
  ℕ, ◌≡◌, ◌≢◌, refl, ap, ap₂, ◌∙◌, Bool, true, false, some, List, [], ◌∷◌, ◌++◌, ◌==◌, arith,
  ==_refl, ok, ◌>>=◌, defined, bind_then, if_then,
}
use lite_cpplib.IocpBase.{
  Layout, IoContext, IoOperation, Socket, World, IoContextPool, SocketContext, reset_buffer, store,
}
use lite_cpplib.IocpBase.SocketPool.{
  store_socket, find, insert, get_active_context, add_active_context,
}
use lite_cpplib.IocpBase.SocketPool.Active.{find-insert, find-insert_other}
use lite_cpplib.IocpBase.SocketPool.Consistent.Adding.{get_socket_context-IsFree}
use lite_cpplib.TcpWorker.{
  Service, Callback, connected, report, Answers, set_io, set_socket, socket_id, id_of_context,
  adopt, do_accept, post_recv, post_accept, assert_valid,
}
use lite_cpplib.TcpWorker.Invariant.{IsSound}
use lite_cpplib.TcpWorker.Arming.{armed, post_recv-armed}

-- A service in which the context is active under the id of its socket, the others being as they were.
pub record IsAdopted (v w : Service) (context : ℕ) (sock : Socket) (s : SocketContext)
    : Type 0 where
  pub alive : w.net.sockets context ≡ some s
  pub has_socket : s.sock ≡ sock
  pub has_id : s.sock_id ≡ socket_id sock
  pub active : get_active_context (socket_id sock) w.sp ≡ some context
  pub others :
      (id : ℕ) → id ≢ socket_id sock → get_active_context id w.sp ≡ get_active_context id v.sp
  pub unused : (id c : ℕ) → get_active_context id v.sp ≡ some c → (context == c) ≡ false
  pub untouched : (c : ℕ) → (c == context) ≡ false → w.net.sockets c ≡ v.net.sockets c

module _ (y : Layout) where
  pub adopt_lem :
      (io : ℕ) (q : Answers) (v : Service) (c : IoContext) (sock : Socket)
      → IsSound v
      → (v.net.io).1.heap io ≡ some c
      → c.sock_accept ≡ some sock
      → (context : ℕ) × (w : Service) × (s : SocketContext) × (adopt y io q v ≡ ok (context, w))
        × IsAdopted v w context sock s
        × (w.net.io ≡ v.net.io)
        × (w.calls ≡ v.calls)
  unfolding adopt add_active_context set_socket store_socket get_active_context
  adopt_lem io q v c sock h there set =
      let (context, sp, net, e, free, same, untouched, same_io) =
        get_socket_context-IsFree y q.fresh v.sp v.net h in
      let (s0, alive, _) = free.alive in
      let s : SocketContext = record s0 {
        sock = sock;
        sock_id = socket_id sock;
        local_addr = q.remote_addr;
      } in
      (
        context,
        record v {
          sp = record sp { map_active = insert (socket_id sock) context sp.map_active };
          net = store_socket context s net;
        },
        s,
        rw (there, set, e, alive, ==_refl context) refl,
        record {
          alive = rw (==_refl context) refl;
          has_socket = refl;
          has_id = refl;
          active = find-insert (socket_id sock) context sp.map_active;
          others = λ id ne.
              find-insert_other (socket_id sock) id context sp.map_active ne ∙ ap (find id) same;
          unused = λ id d e'. free.inactive id d (ap (find id) same ∙ e');
          untouched = λ a ne. rw ne (untouched a ne);
        },
        same_io,
        refl,
      )

  post_accept_lem :
      (listener io : ℕ) (made : ℕ) (posted : Bool) (v : Service) (l : SocketContext) (sock : ℕ)
      (c : IoContext)
      → v.net.sockets listener ≡ some l
      → l.sock ≡ some sock
      → (v.net.io).1.heap io ≡ some c
      → post_accept y listener io (some made) posted v
        ≡ ok (
          posted,
          set_io io
              (record c { operation = IoOperation.accept_posted; sock_accept = some (some made) })
              v,
        )
  unfolding post_accept assert_valid
  post_accept_lem listener io made posted v l sock c alive valid there =
      rw (alive, valid, there) refl

  -- The steps of _DoAccept, where each succeeds
  do_accept-post_accept :
      (listener io : ℕ) (q : Answers) (v v1 v3 : Service) (context : ℕ) (s : SocketContext)
      (c : IoContext)
      → adopt y io q v ≡ ok (context, v1)
      → v1.net.sockets context ≡ some s
      → q.associates ≡ true
      → post_recv y context q.receives (report (connected s.sock_id) v1) ≡ ok (true, v3)
      → (v3.net.io).1.heap io ≡ some c
      → do_accept y (some listener) io q v
        ≡ post_accept y listener io q.made q.accepts (set_io io (reset_buffer y c) v3)
  unfolding do_accept id_of_context
  do_accept-post_accept listener io q v v1 v3 context s c adopts alive associates posts there =
      bind_then (adopt y io q v) _ adopts (
        bind_then (defined (v1.net.sockets context) >>= λ t. ok t.sock_id) _ (rw alive refl) (
          if_then _ _ associates (
            bind_then (post_recv y context q.receives (report (connected s.sock_id) v1)) _ posts
              (bind_then (defined ((v3.net.io).1.heap io)) _ (ap defined there) refl))))

  -- _DoAccept in a sound state, where the system grants all its calls and the listening socket's
  -- context is active and valid: the accepted socket's context is active under the socket's id,
  -- the other ids stay what they were, its receive is posted, the user hears of the connection,
  -- and the network context accepts again, with the new socket.
  pub do_accept_lem :
      (listening_id listener io : ℕ) (q : Answers) (v : Service) (c : IoContext)
      (sock made listening_sock : ℕ) (l : SocketContext)
      → IsSound v
      → (v.net.io).1.heap io ≡ some c
      → c.sock_accept ≡ some (some sock)
      → get_active_context listening_id v.sp ≡ some listener
      → v.net.sockets listener ≡ some l
      → l.sock ≡ some listening_sock
      → q.associates ≡ true
      → q.receives ≡ true
      → q.made ≡ some made
      → (context : ℕ) × (w : Service) × (s : SocketContext) × (do_accept y (some listener) io q v
          ≡ ok (q.accepts, w))
        × IsAdopted v w context (some sock) s
        × (s.recv_context.operation ≡ IoOperation.recv_posted)
        × (w.calls ≡ v.calls ++ (connected (socket_id (some sock)) ∷ []))
        × ((d : IoContext) × ((w.net.io).1.heap io ≡ some d)
            × (d.operation ≡ IoOperation.accept_posted)
            × (d.sock_accept ≡ some (some made))
            × (d.trans_len ≡ 0))
  unfolding do_accept report set_socket store_socket set_io store id_of_context get_active_context
      reset_buffer
  do_accept_lem listening_id listener io q v c sock made listening_sock l h there set active alive
        valid associates receives creates =
      let (context, v1, s, e, adopted, same_io, same_calls) =
        adopt_lem io q v c (some sock) h there set in
      let v2 : Service = report (connected (socket_id (some sock))) v1 in
      let v3 : Service = armed y context s v2 in
      let c' : IoContext = reset_buffer y c in
      let apart : (listener == context) ≡ false =
        ground (arith, adopted.unused listening_id listener active) in
      let still : v3.net.sockets listener ≡ some l =
        rw apart (adopted.untouched listener apart ∙ alive) in
      let posts = post_recv-armed y v2 context s true adopted.alive in
      let held : (v3.net.io).1.heap io ≡ some c =
        ap (λ (p : IoContextPool × World). p.1.heap io) same_io ∙ there in
      let accepts =
        post_accept_lem listener io made q.accepts (set_io io c' v3) l listening_sock c' still valid
          (rw (==_refl io) refl) in
      (
        context,
        set_io io
            (record c' { operation = IoOperation.accept_posted; sock_accept = some (some made) })
            (set_io io c' v3),
        record s {
          recv_context = record (reset_buffer y s.recv_context) {
            operation = IoOperation.recv_posted;
          };
        },
        do_accept-post_accept listener io q v v1 v3 context s c e adopted.alive associates
              (ap₂ (λ b id. post_recv y context b (report (connected id) v1)) receives
                  adopted.has_id
                ∙ posts)
              held
            ∙ ap (λ m. post_accept y listener io m q.accepts (set_io io c' v3)) creates
            ∙ accepts,
        record {
          alive = rw (==_refl context) refl;
          has_socket = adopted.has_socket;
          has_id = adopted.has_id;
          active = adopted.active;
          others = adopted.others;
          unused = adopted.unused;
          untouched = λ a ne. rw ne (adopted.untouched a ne);
        },
        refl,
        ap (λ (k : List Callback). k ++ (connected (socket_id (some sock)) ∷ [])) same_calls,
        (
          record c' { operation = IoOperation.accept_posted; sock_accept = some (some made) },
          rw (==_refl io) refl,
          refl,
          refl,
          refl,
        ),
      )
