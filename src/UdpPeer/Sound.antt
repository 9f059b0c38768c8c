-- ===== src/UdpPeer/Sound.antt =====
-- Create of a peer (network/iocp_udppeer.h) keeps the pools sound.
use lite_cpplib.Base.{
  ℕ, ◌≡◌, refl, sym, ap, subst, Option, some, List, ◌==◌, defined, Ensures, Ensures-value,
  Ensures-bind, Ensures-any, Ensures-if, Ensures-option,
}
use lite_cpplib.Event.{EventApi}
use lite_cpplib.Thread.{Thread}
use lite_cpplib.IocpBase.{Layout, SocketContext}
use lite_cpplib.IocpBase.SocketPool.{Net, SocketContextPool, store_socket, add_active_context}
use lite_cpplib.IocpBase.SocketPool.Consistent.{
  IsFree, store-IsFree, put_socket_context-IsConsistent,
}
use lite_cpplib.IocpBase.SocketPool.Consistent.Adding.{get_socket_context-IsFree}
use lite_cpplib.TcpWorker.{Service, socket_id, set_socket, unbind}
use lite_cpplib.TcpWorker.Invariant.{IsSound, unbind-IsSound}
use lite_cpplib.TcpClient.Sound.{adding-IsConsistent}
use lite_cpplib.UdpWorker.{post_recv_from}
use lite_cpplib.UdpWorker.Keeping.{post_recv_from-IsKept}
use lite_cpplib.UdpPeer.{
  UdpAnswers, Created, bind_addr, close_created, join_created, bind_created, create_with,
  create_socket,
}

-- What a call of Create leaves is sound.
abbrev pub LeavesSound : Created → Type 0
LeavesSound r = IsSound r.left

module _ (api : EventApi) (y : Layout) where
  close_created-IsSound :
      (context : ℕ) (s : SocketContext) (v : Service)
      → IsFree v.sp v.net context
      → IsSound (close_created api y context s v)
  unfolding close_created set_socket store_socket
  close_created-IsSound context s v free =
      put_socket_context-IsConsistent v.sp _ context (store-IsFree v.sp v.net context s _ free)

  join_created-IsSound :
      (worker : Option (Thread api)) (q : UdpAnswers) (context : ℕ) (s : SocketContext)
      (bind_port : ℕ) (v : Service)
      → IsFree v.sp v.net context
      → Ensures LeavesSound (join_created api y worker q context s bind_port v)
  unfolding join_created set_socket store_socket
  join_created-IsSound worker q context s bind_port v free =
      let id = socket_id s.sock in
      let u : Service = set_socket context (record s { sock_id = id }) v in
      Ensures-bind (add_active_context context (u.sp, u.net)) _
        (adding-IsConsistent api y context u.sp u.net
          (store-IsFree v.sp v.net context _ v.net.io free))
        (λ sp k. Ensures-any (defined worker) _ (λ _ _.
          let w : Service = record u { sp = sp } in
          Ensures-if q.associates
            (λ _.
              Ensures-bind (post_recv_from y context q.receives w) _
                (post_recv_from-IsKept y context q.receives w k) (λ r k'. Ensures-value _ k'.sound))
            (λ _.
              Ensures-bind (unbind y id w) _ (unbind-IsSound y id w k)
                (λ w' k'. Ensures-value _ k'))))

  bind_created-IsSound :
      (worker : Option (Thread api)) (q : UdpAnswers) (bind_ip : List ℕ) (bind_port context : ℕ)
      (s : SocketContext) (v : Service)
      → IsFree v.sp v.net context
      → Ensures LeavesSound (bind_created api y worker q bind_ip bind_port context s v)
  unfolding bind_created
  bind_created-IsSound worker q bind_ip bind_port context s v free =
      Ensures-if (q.binds (bind_addr q bind_ip bind_port))
        (λ _.
          Ensures-if (bind_port == 0)
            (λ _.
              Ensures-option q.sockname (Ensures-value _ (close_created-IsSound context _ v free))
                (λ a.
                  join_created-IsSound worker q context (record s { local_addr = q.bytes_of a }) _ v
                    free))
            (λ _.
              join_created-IsSound worker q context
                (record s { local_addr = q.bytes_of (bind_addr q bind_ip bind_port) }) bind_port v
                free))
        (λ _. Ensures-value _ (close_created-IsSound context _ v free))

  create_with-IsSound :
      (worker : Option (Thread api)) (q : UdpAnswers) (bind_ip : List ℕ) (bind_port context : ℕ)
      (v : Service)
      → IsFree v.sp v.net context
      → Ensures LeavesSound (create_with api y worker q bind_ip bind_port context v)
  unfolding create_with set_socket store_socket
  create_with-IsSound worker q bind_ip bind_port context v free =
      Ensures-any (defined (v.net.sockets context)) _ (λ s _.
        Ensures-option q.made
          (Ensures-value _ (
            put_socket_context-IsConsistent v.sp _ context
              (store-IsFree v.sp v.net context _ v.net.io free)))
          (λ k.
            bind_created-IsSound worker q bind_ip bind_port context (record s { sock = some k }) v
              free))

  pub create_socket-create_with :
      (worker : Option (Thread api)) (q : UdpAnswers) (bind_ip : List ℕ) (bind_port : ℕ)
      (v : Service)
      → IsSound v
      → (context : ℕ) × (u : Service) × (create_socket api y worker q bind_ip bind_port v
          ≡ create_with api y worker q bind_ip bind_port context u)
        × IsFree u.sp u.net context
        × (u.sp.map_active ≡ v.sp.map_active)
        × (u.calls ≡ v.calls)
        × (u.net.io ≡ v.net.io)
  unfolding create_socket
  create_socket-create_with worker q bind_ip bind_port v h =
      let (context, sp, net, e, free, same, _, same_io) =
        get_socket_context-IsFree y q.fresh v.sp v.net h in
      (
        context,
        record v { sp = sp; net = net },
        ap
            (λ (got : ℕ × (SocketContextPool × Net)).
              create_with api y worker q bind_ip bind_port (got.0)
                (record v { sp = (got.1).0; net = (got.1).1 }))
            e,
        free,
        same,
        refl,
        same_io,
      )

  pub create_socket-IsSound :
      (worker : Option (Thread api)) (q : UdpAnswers) (bind_ip : List ℕ) (bind_port : ℕ)
      (v : Service)
      → IsSound v
      → Ensures LeavesSound (create_socket api y worker q bind_ip bind_port v)
  create_socket-IsSound worker q bind_ip bind_port v h =
      let (context, u, e, free, _, _, _) =
        create_socket-create_with worker q bind_ip bind_port v h in
      subst (Ensures LeavesSound) (sym e)
        (create_with-IsSound worker q bind_ip bind_port context u free)
