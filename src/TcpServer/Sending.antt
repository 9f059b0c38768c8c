-- ===== src/TcpServer/Sending.antt =====
-- Send of a server (network/iocp_tcpserver.h): what is posted, and what is refused.
use lite_cpplib.Base.{
  ℕ, suc, ◌≤◌, ◌<◌, ◌≡◌, refl, ap, inl, inr, Bool, true, some, List, [], ◌∷◌, ◌++◌, length, leb,
  le→leb, gt→leb, Bool-cases, take, drop, take-append, length-take, List-cases, ==_refl, arith, ok,
  undefined, defined, bind_then, if_then,
}
use lite_cpplib.Event.{EventApi}
use lite_cpplib.Thread.{Thread}
use lite_cpplib.IocpBase.{
  Layout, IoContext, IoOperation, World, IoContextPool, SocketContext, max_io_buffer_size,
  get_io_context, add_context, store, new_io_context, cleared,
}
use lite_cpplib.IocpBase.Contexts.{IsPool, get_io_context_lem}
use lite_cpplib.IocpBase.SocketPool.{store_socket, get_active_context}
use lite_cpplib.TcpWorker.{Service, set_io, set_socket, post_send}
use lite_cpplib.TcpServer.{TcpServer}
use lite_cpplib.TcpServer.Operations.{copy_in, send_message, send}

module _ (y : Layout) where
  get_io_context-alive :
      (p : IoContextPool) (w : World)
      → IsPool y p w
      → (io : ℕ) × (p' : IoContextPool) × (w' : World) × (c : IoContext) × (get_io_context y (p, w)
          ≡ (io, (p', w')))
        × (w'.heap io ≡ some c)
  unfolding get_io_context store
  get_io_context-alive p w h = elim (List-cases p.list_io_context) [
    | inl e ↦ (
      w.next,
      p,
      record (store w.next (some (new_io_context y)) w) { next = suc w.next },
      new_io_context y,
      simp (get_io_context, e) refl,
      rw (==_refl w.next) refl,
    )
    | inr (c, cs, e) ↦
        let there : 0 < length p.list_io_context = rw e (omega arith) in
        let (io, q, e', pooled, _, _, _) = get_io_context_lem y p w h there in
        (io, q, w, cleared y pooled.old, e', pooled.alive)
  ]

  copy_in_lem :
      (content : List ℕ) (n : ℕ) (buf : List ℕ)
      → n ≤ length content
      → n ≤ max_io_buffer_size
      → copy_in content n buf ≡ ok (take n content ++ drop n buf)
  unfolding copy_in
  copy_in_lem content n buf h k =
      rw (le→leb n (length content) h, le→leb n max_io_buffer_size k) refl

module _ (api : EventApi) (y : Layout) where
  send_message_lem :
      (context n : ℕ) (content : List ℕ) (v : Service) (s : SocketContext)
      → v.net.sockets context ≡ some s
      → IsPool y (v.net.io).0 (v.net.io).1
      → n ≤ length content
      → n ≤ max_io_buffer_size
      → (io : ℕ) × (w : Service) × (c : IoContext) × (send_message api y context content n true v
          ≡ ok (true, w))
        × ((w.net.io).1.heap io ≡ some c)
        × (c.operation ≡ IoOperation.send_posted)
        × (c.wsa_len ≡ n)
        × (take n c.buf ≡ take n content)
        × (w.net.sockets context
            ≡ some (record s { list_io_context = s.list_io_context ++ (io ∷ []) }))
        × (w.sp ≡ v.sp)
        × (w.calls ≡ v.calls)
  unfolding send_message set_io store set_socket store_socket add_context post_send
  send_message_lem context n content v s alive h long short =
      let (io, p, world, c, e, there) = get_io_context-alive y (v.net.io).0 (v.net.io).1 h in
      let c' : IoContext = record c { buf = take n content ++ drop n c.buf; wsa_len = n } in
      let v1 : Service = record v { net = record (v.net) { io = (p, world) } } in
      let v2 : Service =
        set_socket context (record s { list_io_context = s.list_io_context ++ (io ∷ []) })
          (set_io io c' v1) in
      (
        io,
        set_io io (record c' { operation = IoOperation.send_posted }) v2,
        record c' { operation = IoOperation.send_posted },
        rw (e, there, copy_in_lem y content n c.buf long short, alive, ==_refl context, ==_refl io)
            refl,
        rw (==_refl io) refl,
        refl,
        refl,
        take-append n (take n content) (drop n c.buf) (omega (arith, length-take n content)),
        rw (==_refl context) refl,
        refl,
        refl,
      )

  -- Send of at most MAX_IO_BUFFER_SIZE bytes to an active socket of a server that has started,
  -- where WSASend is granted: it returns true, a context of the pool holds the bytes and their
  -- number and is posted for sending, it stands last in the socket's list, and neither the
  -- active sockets nor what the user heard change.
  pub send_lem :
      (sock_id context n : ℕ) (content : List ℕ) (server : TcpServer api) (v : Service)
      (s : SocketContext) (t : Thread api) (ts : List (Thread api))
      → server.is_start ≡ true
      → server.service ≡ some v
      → server.workers ≡ t ∷ ts
      → get_active_context sock_id v.sp ≡ some context
      → v.net.sockets context ≡ some s
      → IsPool y (v.net.io).0 (v.net.io).1
      → n ≤ length content
      → n ≤ max_io_buffer_size
      → (io : ℕ) × (w : Service) × (c : IoContext) × (send api y sock_id content n true server
          ≡ ok (true, record server { service = some w }))
        × ((w.net.io).1.heap io ≡ some c)
        × (c.operation ≡ IoOperation.send_posted)
        × (c.wsa_len ≡ n)
        × (take n c.buf ≡ take n content)
        × (w.net.sockets context
            ≡ some (record s { list_io_context = s.list_io_context ++ (io ∷ []) }))
        × (w.sp ≡ v.sp)
        × (w.calls ≡ v.calls)
  unfolding send
  send_lem sock_id context n content server v s t ts started has works active alive h long short =
      let (io, w, c, e, there, posts, size, same, given, others, calls) =
        send_message_lem context n content v s alive h long short in
      (
        io,
        w,
        c,
        if_then _ _ started
            (bind_then (defined server.service) _ (ap defined has) (simp (active, works, e) refl)),
        there,
        posts,
        size,
        same,
        given,
        others,
        calls,
      )

  copy_in-undefined :
      (content : List ℕ) (n : ℕ) (buf : List ℕ)
      → max_io_buffer_size < n
      → copy_in content n buf ≡ undefined
  unfolding copy_in
  copy_in-undefined content n buf h = elim (Bool-cases (leb n (length content))) [
    | inl e ↦ rw (e, gt→leb n max_io_buffer_size h) refl
    | inr e ↦ rw e refl
  ]

  send_message-undefined :
      (context n : ℕ) (content : List ℕ) (posted : Bool) (v : Service)
      → IsPool y (v.net.io).0 (v.net.io).1
      → max_io_buffer_size < n
      → send_message api y context content n posted v ≡ undefined
  unfolding send_message
  send_message-undefined context n content posted v h long =
      let (io, p, world, c, e, there) = get_io_context-alive y (v.net.io).0 (v.net.io).1 h in
      rw (e, there, copy_in-undefined content n c.buf long) refl

  -- Send of more than MAX_IO_BUFFER_SIZE bytes to an active socket of a server that has started
  -- writes past the buffer.
  pub send_too_long :
      (sock_id context n : ℕ) (content : List ℕ) (posted : Bool) (server : TcpServer api)
      (v : Service)
      → server.is_start ≡ true
      → server.service ≡ some v
      → get_active_context sock_id v.sp ≡ some context
      → IsPool y (v.net.io).0 (v.net.io).1
      → max_io_buffer_size < n
      → send api y sock_id content n posted server ≡ undefined
  unfolding send
  send_too_long sock_id context n content posted server v started has active h long =
      let too_long = send_message-undefined context n content posted v h long in
      elim (List-cases server.workers) [
        | inl e ↦
            if_then _ _ started
              (bind_then (defined server.service) _ (ap defined has) (simp (active, e) refl))
        | inr (t, ts, e) ↦ if_then _ _ started (
            bind_then (defined server.service) _ (ap defined has) (simp (active, e, too_long) refl))
      ]
