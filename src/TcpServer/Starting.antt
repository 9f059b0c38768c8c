-- ===== src/TcpServer/Starting.antt =====
-- Start of a server (network/iocp_tcpserver.h): every worker has a thread and a context that is set to accept.
use lite_cpplib.Base.{
  ℕ, zero, suc, ◌<◌, ◌≡◌, refl, sym, ap, ◌∙◌, subst, Bool, true, false, not, Option, none, some,
  List, [], ◌∷◌, ◌++◌, length, ==_refl, arith, ◌==◌, ok, defined, bind_then, if_else,
}
use mathlib.Core.List.{append-nil, append_assoc}
use lite_cpplib.Event.{EventApi, reset}
use lite_cpplib.Thread.{Thread, start, create_thread}
use lite_cpplib.IocpBase.{
  Layout, IoContext, IoOperation, World, SocketContext, get_io_context, new_io_context, store,
}
use lite_cpplib.IocpBase.SocketPool.{store_socket}
use lite_cpplib.TcpWorker.{Service, set_io, set_socket, post_accept, assert_valid}
use lite_cpplib.TcpServer.{TcpServer}
use lite_cpplib.TcpServer.Operations.{StartAnswers, listen_once, start_loop, start_server}

-- As many addresses, from the given one on
abbrev pub addresses : ℕ → ℕ → List ℕ
addresses zero from = []
addresses (suc n) from = from ∷ addresses n (suc from)

-- Every context of the list is set to accept, with what WSASocket has answered to it.
abbrev pub AllPrepared : World → (ℕ → StartAnswers) → List ℕ → Type 0
AllPrepared w q [] = Unit {0}
AllPrepared w q (a ∷ as') =
    ((c : IoContext) × (w.heap a ≡ some c)
      × (c.operation ≡ IoOperation.accept_posted)
      × (c.sock_accept ≡ some (q 0).accept_made))
    × AllPrepared w (λ n. q (suc n)) as'

module _ (api : EventApi) (y : Layout) where
  -- Workers that have no thread yet, for which the system makes one
  abbrev pub AllStartable : (ℕ → StartAnswers) → List (Thread api) → Type 0
  AllStartable q [] = Unit {0}
  AllStartable q (t ∷ ts) =
      ((t.thread_handle ≡ none) × (made : ℕ × ℕ) × ((q 0).thread_made ≡ some made))
      × AllStartable (λ n. q (suc n)) ts

  abbrev pub AllStarted : List (Thread api) → Type 0
  AllStarted [] = Unit {0}
  AllStarted (t ∷ ts) = ((handle : ℕ) × (t.thread_handle ≡ some handle)) × AllStarted ts

  start_worker :
      (made : Option (ℕ × ℕ)) (handle id resumed : ℕ) (t : Thread api)
      → t.thread_handle ≡ none
      → made ≡ some (handle, id)
      → (b : Bool) × (t' : Thread api) × (start api made resumed t ≡ ok (b, t'))
        × (t'.thread_handle ≡ some handle)
  unfolding start create_thread
  start_worker made handle id resumed t e e' = (
    not (resumed == 0xffffffff),
    record t { thread_handle = some handle; id = id; event = reset api t.event },
    simp (start, create_thread, e, e') refl,
    refl,
  )

  listen_once_lem :
      (context sock : ℕ) (a : StartAnswers) (v : Service) (s : SocketContext)
      → ((v.net.io).0).list_io_context ≡ []
      → v.net.sockets context ≡ some s
      → s.sock ≡ some sock
      → (w : Service) × (listen_once api y context a v ≡ ok w)
        × (((w.net.io).0).list_io_context ≡ [])
        × (w.net.sockets context
            ≡ some (record s { list_io_context = s.list_io_context ++ ((v.net.io).1.next ∷ []) }))
        × ((w.net.io).1.next ≡ suc (v.net.io).1.next)
        × ((b : ℕ) → b < (v.net.io).1.next → (w.net.io).1.heap b ≡ (v.net.io).1.heap b)
        × ((c : IoContext) × ((w.net.io).1.heap (v.net.io).1.next ≡ some c)
            × (c.operation ≡ IoOperation.accept_posted)
            × (c.sock_accept ≡ some a.accept_made))
        × (w.sp ≡ v.sp)
  unfolding listen_once get_io_context store set_socket store_socket post_accept assert_valid set_io
  listen_once_lem context sock a v s empty alive valid =
      let p = (v.net.io).0 in
      let world = (v.net.io).1 in
      let s' : SocketContext = record s {
        list_io_context = s.list_io_context ++ (world.next ∷ []);
      } in
      let c : IoContext = record (new_io_context y) {
        operation = IoOperation.accept_posted;
        sock_accept = some a.accept_made;
      } in
      let v1 : Service = set_socket context s' (record v {
        net = record (v.net) {
          io = (
            p,
            record (store world.next (some (new_io_context y)) world) { next = suc world.next },
          );
        };
      }) in
      let got : get_io_context y v.net.io ≡ (
        world.next,
        (p, record (store world.next (some (new_io_context y)) world) { next = suc world.next }),
      ) =
        simp (get_io_context, empty) refl in
      (
        set_io world.next c v1,
        rw (got, alive, ==_refl context, valid, ==_refl world.next) refl,
        empty,
        rw (==_refl context) refl,
        refl,
        λ b h. (let ne : (b == world.next) ≡ false = ground arith in rw ne refl),
        (c, rw (==_refl world.next) refl, refl, refl),
        refl,
      )

  start_loop_lem :
      (context sock : ℕ) (q : ℕ → StartAnswers) (ts : List (Thread api)) (v : Service)
      (s : SocketContext)
      → AllStartable q ts
      → ((v.net.io).0).list_io_context ≡ []
      → v.net.sockets context ≡ some s
      → s.sock ≡ some sock
      → (us : List (Thread api)) × (w : Service) × (start_loop api y context q ts v ≡ ok (us, w))
        × AllStarted us
        × (length us ≡ length ts)
        × (w.net.sockets context
            ≡ some (record s {
              list_io_context = s.list_io_context ++ addresses (length ts) (v.net.io).1.next;
            }))
        × ((b : ℕ) → b < (v.net.io).1.next → (w.net.io).1.heap b ≡ (v.net.io).1.heap b)
        × AllPrepared (w.net.io).1 q (addresses (length ts) (v.net.io).1.next)
        × (w.sp ≡ v.sp)
  unfolding start_loop
  start_loop_lem context sock q [] v s h empty alive valid = (
    [],
    v,
    refl,
    tt,
    refl,
    alive ∙ ap (λ l. some (record s { list_io_context = l })) (sym (append-nil s.list_io_context)),
    λ b lt. refl,
    tt,
    refl,
  )
  start_loop_lem context sock q (t ∷ ts) v s ((idle, (handle, id), made), h) empty alive valid =
      let (_, t', starts, runs) =
        start_worker (q 0).thread_made handle id (q 0).resumed t idle made in
      let from = (v.net.io).1.next in
      let (v', listens, empty', alive', next', same', (c, there, accepts, socket), same_sp') =
        listen_once_lem context sock (q 0) v s empty alive valid in
      let (us, w, loops, run, as_many, alive'', same'', accepting, same_sp'') =
        start_loop_lem context sock (λ n. q (suc n)) ts v'
          (record s { list_io_context = s.list_io_context ++ (from ∷ []) }) h empty' alive' valid in
      let later : AllPrepared (w.net.io).1 (λ n. q (suc n)) (addresses (length ts) (suc from)) =
        subst (λ n. AllPrepared (w.net.io).1 (λ k. q (suc k)) (addresses (length ts) n)) next'
          accepting in
      let keeps : (b : ℕ) → b < suc from → (w.net.io).1.heap b ≡ (v'.net.io).1.heap b =
        λ b lt. same'' b (omega (arith, next', lt)) in
      (
        t' ∷ us,
        w,
        bind_then (start api (q 0).thread_made (q 0).resumed t) _ starts (
            bind_then (listen_once api y context (q 0) v) _ listens
              (bind_then (start_loop api y context (λ n. q (suc n)) ts v') _ loops refl)),
        ((handle, runs), run),
        ap suc as_many,
        alive''
            ∙ ap (λ l. some (record s { list_io_context = l }))
                (append_assoc s.list_io_context (from ∷ [])
                    (addresses (length ts) (v'.net.io).1.next)
                  ∙ ap (λ n. s.list_io_context ++ (from ∷ addresses (length ts) n)) next'),
        λ b lt. keeps b (omega (arith, lt)) ∙ same' b lt,
        ((c, keeps from (omega arith) ∙ there, accepts, socket), later),
        same_sp'' ∙ same_sp',
      )

  -- Start where the system makes every thread and the listening socket's context has a socket.
  pub start_server_lem :
      (context sock : ℕ) (q : ℕ → StartAnswers) (t : Thread api) (ts : List (Thread api))
      (server : TcpServer api) (v : Service) (s : SocketContext)
      → server.is_start ≡ false
      → server.service ≡ some v
      → server.listen_context ≡ some context
      → server.workers ≡ t ∷ ts
      → AllStartable q (t ∷ ts)
      → ((v.net.io).0).list_io_context ≡ []
      → v.net.sockets context ≡ some s
      → s.sock ≡ some sock
      → (us : List (Thread api)) × (w : Service) × (start_server api y q server
          ≡ ok (true, record server { is_start = true; workers = us; service = some w }))
        × AllStarted us
        × (length us ≡ length (t ∷ ts))
        × (w.net.sockets context
            ≡ some (record s {
              list_io_context = s.list_io_context ++ addresses (length (t ∷ ts)) (v.net.io).1.next;
            }))
        × AllPrepared (w.net.io).1 q (addresses (length (t ∷ ts)) (v.net.io).1.next)
        × (w.sp ≡ v.sp)
  unfolding start_server
  start_server_lem context sock q t ts server v s stopped has listens works startable empty alive
        valid =
      let (us, w, loops, run, as_many, alive', _, accepting, same_sp) =
        start_loop_lem context sock q (t ∷ ts) v s startable empty alive valid in
      let loops' : start_loop api y context q server.workers v ≡ ok (us, w) =
        ap (λ l. start_loop api y context q l v) works ∙ loops in
      (
        us,
        w,
        if_else _ _ stopped (
            rw works (
              bind_then (defined server.service) _ (ap defined has) (
                bind_then (defined server.listen_context) _ (ap defined listens)
                  (bind_then (start_loop api y context q server.workers v) _ loops' refl)))),
        run,
        as_many,
        alive',
        accepting,
        same_sp,
      )
