-- ===== src/UdpPeer/Reachable.antt =====
-- All runs of a peer and its workers (network/iocp_udppeer.h, network/iocp_udpworkthread.h).
use lite_cpplib.Base.{
  ℕ, ◌≡◌, ◌≢◌, refl, Bool, Option, some, List, ok, defined, defined_ok, Ensures, Ensures-value,
  Ensures-any,
}
use lite_cpplib.Event.{EventApi}
use lite_cpplib.Thread.{Thread}
use lite_cpplib.IocpBase.{
  Layout, IoContext, World, IoContextPool, SocketContext, get_io_context, add_context,
}
use lite_cpplib.IocpBase.Contexts.{Absent}
use lite_cpplib.IocpBase.SocketPool.{get_active_context}
use lite_cpplib.IocpBase.SocketPool.Consistent.{IsConsistent, io-IsConsistent}
use lite_cpplib.TcpWorker.{Service, set_io, set_socket, unbind}
use lite_cpplib.TcpWorker.Run.{Dequeued}
use lite_cpplib.TcpWorker.Invariant.{
  IsSound, AnswerIsSound, set_io-IsSound, set_socket-IsSound, unbind-IsSound,
}
use lite_cpplib.TcpWorker.Reachable.{IsSound-apart}
use lite_cpplib.TcpServer.Operations.{copy_in}
use lite_cpplib.UdpWorker.{post_send_to, round_udp}
use lite_cpplib.UdpWorker.Keeping.{round_udp-IsKept}
use lite_cpplib.UdpPeer.{UdpAnswers, Created, create_socket}
use lite_cpplib.UdpPeer.Operations.{send_datagram}
use lite_cpplib.UdpPeer.Sound.{create_socket-IsSound}

module _ (api : EventApi) (y : Layout) where
  post_send_to-IsSound :
      (context io : ℕ) (posted : Bool) (v : Service)
      → IsSound v
      → Ensures AnswerIsSound (post_send_to y context io posted v)
  unfolding post_send_to
  post_send_to-IsSound context io posted v h =
      Ensures-any (defined (v.net.sockets context)) _ (λ _ _.
        Ensures-any (defined ((v.net.io).1.heap io)) _
          (λ c _. Ensures-value _ (set_io-IsSound io _ v h)))

  send_datagram-IsSound :
      (context : ℕ) (content : List ℕ) (data_len : ℕ) (remote_addr : List ℕ) (posted : Bool)
      (v : Service)
      → IsSound v
      → Ensures AnswerIsSound (send_datagram api y context content data_len remote_addr posted v)
  unfolding send_datagram add_context set_io
  send_datagram-IsSound context content data_len remote_addr posted v h =
      let got = get_io_context y v.net.io in
      let v1 : Service = record v { net = record (v.net) { io = got.1 } } in
      Ensures-any (defined ((got.1).1.heap got.0)) _ (λ c _.
        Ensures-any (copy_in content data_len c.buf) _ (λ buf _.
          Ensures-any (defined (v.net.sockets context)) _ (λ s e.
            let v2 : Service =
              set_io (got.0) (record c { buf = buf; wsa_len = data_len; remote_addr = remote_addr })
                v1 in
            post_send_to-IsSound context (got.0) posted
              (set_socket context (add_context y (got.0) s) v2)
              (set_socket-IsSound context s _ v2 (defined_ok e) refl
                (set_io-IsSound (got.0) _ v1 (io-IsConsistent v.sp v.net (got.1) h))))))

  -- What changes the shared state: a round of any worker, Create, SendTo and CloseSocket of the peer,
  -- and the system, which fills the contexts of operations that are under way.
  pub data Step : Service → Service → Type 0 where
    round_of :
        (id : ℕ) (d : Dequeued) (receives : Bool) (v : Service) (goes_on : Bool) (id' : ℕ)
        (v' : Service)
        → round_udp y id d receives v ≡ ok (goes_on, (id', v'))
        → Step v v'
    creates :
        (worker : Option (Thread api)) (q : UdpAnswers) (bind_ip : List ℕ) (bind_port : ℕ)
        (v : Service) (r : Created)
        → create_socket api y worker q bind_ip bind_port v ≡ ok r
        → Step v r.left
    sends :
        (context : ℕ) (content : List ℕ) (data_len : ℕ) (remote_addr : List ℕ)
        (posted answer : Bool) (v v' : Service)
        → send_datagram api y context content data_len remote_addr posted v ≡ ok (answer, v')
        → Step v v'
    closes : (id : ℕ) (v v' : Service) → unbind y id v ≡ ok v' → Step v v'
    fills_heap :
        (io : IoContextPool × World) (v : Service)
        → Step v (record v { net = record (v.net) { io = io } })
    fills_receiving :
        (context : ℕ) (s : SocketContext) (c : IoContext) (v : Service)
        → v.net.sockets context ≡ some s
        → Step v (set_socket context (record s { recv_context = c }) v)

  pub data Reach (v : Service) : Service → Type 0 where
    here : Reach v v
    next : {u w : Service} → Reach v u → Step u w → Reach v w

  Step-IsSound : (v w : Service) → Step v w → IsSound v → IsSound w
  Step-IsSound _ _ (round_of id d receives v b id' v' e) h =
      ((round_udp-IsKept y id d receives v h).holds (b, (id', v')) e).sound
  Step-IsSound _ _ (creates worker q bind_ip bind_port v r e) h =
      (create_socket-IsSound api y worker q bind_ip bind_port v h).holds r e
  Step-IsSound _ _ (sends context content data_len remote_addr posted b v v' e) h =
      (send_datagram-IsSound context content data_len remote_addr posted v h).holds (b, v') e
  Step-IsSound _ _ (closes id v v' e) h = (unbind-IsSound y id v h).holds v' e
  Step-IsSound _ _ (fills_heap io v) h = io-IsConsistent v.sp v.net io h
  Step-IsSound _ _ (fills_receiving context s c v e) h = set_socket-IsSound context s _ v e refl h

  Reach-IsSound : (v w : Service) → Reach v w → IsSound v → IsSound w
  Reach-IsSound v _ here h = h
  Reach-IsSound v w (next {u = u} r s) h = Step-IsSound u w s (Reach-IsSound v u r h)

  -- In every state that rounds of the workers, Create, SendTo, CloseSocket and the system's
  -- writes lead to from a sound one, whatever the system answers: the active and the idle
  -- contexts are sound, two different active ids have different contexts, an active context is
  -- not idle, it is alive, and it has the id that it is found by.
  pub active_peers_apart :
      (v w : Service) (k l c d : ℕ)
      → IsSound v
      → Reach v w
      → get_active_context k w.sp ≡ some c
      → get_active_context l w.sp ≡ some d
      → IsConsistent w.sp w.net
        × (k ≢ l → c ≢ d)
        × Absent c w.sp.list_idle
        × ((s : SocketContext) × (w.net.sockets c ≡ some s) × (s.sock_id ≡ k))
  active_peers_apart v w k l c d h r e e' = IsSound-apart w k l c d (Reach-IsSound v w r h) e e'
