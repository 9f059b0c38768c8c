-- ===== src/TcpWorker/Reachable.antt =====
-- All runs of the workers (network/iocp_tcpworkthread.h): no two active sockets share a context.
use lite_cpplib.Base.{
  ℕ, ◌≡◌, ◌≢◌, refl, sym, ap, ◌∙◌, ◌&&◌, ◌==◌, Bool, Option, none, some, ok, defined, defined_ok,
  Ensures, Ensures-value, Ensures-undefined, Ensures-bind, Ensures-any, Ensures-if,
}
use lite_cpplib.IocpBase.{Layout, IoContext, IoOperation, World, IoContextPool, SocketContext}
use lite_cpplib.IocpBase.Contexts.{Absent}
use lite_cpplib.IocpBase.SocketPool.{get_active_context}
use lite_cpplib.IocpBase.SocketPool.Consistent.{IsConsistent, IsConsistent-apart, io-IsConsistent}
use lite_cpplib.TcpWorker.{
  Service, Answers, set_socket, unbind, post_send, do_recv, do_accept, handle_error,
}
use lite_cpplib.TcpWorker.Run.{
  Overlapped, of_heap, receiving_of, Dequeued, operation_of, receive, dispatch, is_transfer,
  complete, round, option_or,
}
use lite_cpplib.TcpWorker.Invariant.{
  IsSound, set_socket-IsSound, unbind-IsSound, drop_id-IsSound, post_send-IsSound, do_recv-IsSound,
  do_send-IsSound, do_accept-IsSound, handle_error-IsSound,
}

-- What a sound state says of two active ids.
pub IsSound-apart :
    (w : Service) (k l c d : ℕ)
    → IsSound w
    → get_active_context k w.sp ≡ some c
    → get_active_context l w.sp ≡ some d
    → IsConsistent w.sp w.net
      × (k ≢ l → c ≢ d)
      × Absent c w.sp.list_idle
      × ((s : SocketContext) × (w.net.sockets c ≡ some s) × (s.sock_id ≡ k))
unfolding get_active_context
IsSound-apart w k l c d sound e e' =
    let ((s, alive, id, _), away) = sound.active k c e in
    (
      sound,
      λ ne same. ne (IsConsistent-apart w.sp w.net k l c sound e (e' ∙ ap some (sym same))),
      away,
      (s, alive, id),
    )

module _ (y : Layout) where
  receive-IsSound :
      (context : Option ℕ) (bytes : ℕ) (receives : Bool) (v : Service)
      → IsSound v
      → Ensures IsSound (receive y context bytes receives v)
  unfolding receive
  receive-IsSound context bytes receives v h = Ensures-any (defined context) _ (λ c _.
      Ensures-any (defined (v.net.sockets c)) _ (λ s e.
        let got : Service =
          set_socket c (record s { recv_context = record (s.recv_context) { trans_len = bytes } })
            v in
        Ensures-bind (do_recv y c receives got) _
          (do_recv-IsSound y c receives got (set_socket-IsSound c s _ v (defined_ok e) refl h))
          (λ (_, v') k. Ensures-value v' k)))

  dispatch-IsSound :
      (context : Option ℕ) (operation : IoOperation) (io : Overlapped) (bytes : ℕ) (q : Answers)
      (v : Service)
      → IsSound v
      → Ensures IsSound (dispatch y context operation io bytes q v)
  unfolding dispatch
  dispatch-IsSound context IoOperation.accept_posted (of_heap io) bytes q v h =
      Ensures-bind (do_accept y context io q v) _ (do_accept-IsSound y context io q v h)
        (λ (_, v') k. Ensures-value v' k)
  dispatch-IsSound context IoOperation.accept_posted (receiving_of _) bytes q v h =
      Ensures-undefined
  dispatch-IsSound context IoOperation.recv_posted io bytes q v h =
      receive-IsSound context bytes q.receives v h
  dispatch-IsSound context IoOperation.send_posted (of_heap io) bytes q v h =
      Ensures-any (defined context) _ (λ c _. do_send-IsSound y c io v h)
  dispatch-IsSound context IoOperation.send_posted (receiving_of _) bytes q v h = Ensures-undefined
  dispatch-IsSound context IoOperation.null_posted io bytes q v h = Ensures-value _ h

  complete-IsSound :
      (id : ℕ) (context : Option ℕ) (io : Option Overlapped) (bytes : ℕ) (q : Answers) (v : Service)
      → IsSound v
      → Ensures IsSound (complete y id context io bytes q v)
  unfolding complete
  complete-IsSound id context none bytes q v h = Ensures-value _ h
  complete-IsSound id context (some io) bytes q v h =
      Ensures-any (operation_of io v) _ (λ operation _.
        Ensures-if (bytes == 0 && is_transfer operation) (λ _. drop_id-IsSound y id v h)
          (λ _. dispatch-IsSound context operation io bytes q v h))

  round-IsSound :
      (id : ℕ) (d : Dequeued) (q : Answers) (v : Service)
      → IsSound v
      → Ensures (λ (r : Bool × (ℕ × Service)). IsSound (r.1).1) (round y id d q v)
  unfolding round
  round-IsSound id d q v h =
      let key = option_or id d.key in
      let context = get_active_context key v.sp in
      Ensures-if d.ret
        (λ _.
          Ensures-bind (complete y key context d.overlapped d.bytes q v) _
            (complete-IsSound key context d.overlapped d.bytes q v h) (λ v' k. Ensures-value _ k))
        (λ _.
          Ensures-bind (handle_error y context d.err q v) _
            (handle_error-IsSound y context d.err q v h) (λ (_, v') k. Ensures-value _ k))

  -- What changes the shared state: a round of any worker, PostSend and CloseSocket for the server,
  -- and the system, which fills the contexts of operations that are under way.
  pub data Step : Service → Service → Type 0 where
    round_of :
        (id : ℕ) (d : Dequeued) (q : Answers) (v : Service) (goes_on : Bool) (id' : ℕ)
        (v' : Service)
        → round y id d q v ≡ ok (goes_on, (id', v'))
        → Step v v'
    sends :
        (context io : ℕ) (posted answer : Bool) (v v' : Service)
        → post_send y context io posted v ≡ ok (answer, v')
        → Step v v'
    closes : (id : ℕ) (v v' : Service) → unbind y id v ≡ ok v' → Step v v'
    fills_heap :
        (io : IoContextPool × World) (v : Service)
        → Step v (record v { net = record (v.net) { io = io } })
    fills_receiving :
        (context : ℕ) (s : SocketContext) (c : IoContext) (v : Service)
        → v.net.sockets context ≡ some s
        → Step v (set_socket context (record s { recv_context = c }) v)

  pub data Reach (v : Service) : Service → Type 0 where
    here : Reach v v
    next : {u w : Service} → Reach v u → Step u w → Reach v w

  Step-IsSound : (v w : Service) → Step v w → IsSound v → IsSound w
  Step-IsSound _ _ (round_of id d q v b id' v' e) h =
      (round-IsSound id d q v h).holds (b, (id', v')) e
  Step-IsSound _ _ (sends context io posted b v v' e) h =
      (post_send-IsSound y context io posted v h).holds (b, v') e
  Step-IsSound _ _ (closes id v v' e) h = (unbind-IsSound y id v h).holds v' e
  Step-IsSound _ _ (fills_heap io v) h = io-IsConsistent v.sp v.net io h
  Step-IsSound _ _ (fills_receiving context s c v e) h = set_socket-IsSound context s _ v e refl h

  pub Reach-IsSound : (v w : Service) → Reach v w → IsSound v → IsSound w
  Reach-IsSound v _ here h = h
  Reach-IsSound v w (next {u = u} r s) h = Step-IsSound u w s (Reach-IsSound v u r h)

  -- In every state that rounds of the workers, sends, closes and the system's writes lead to
  -- from a sound one: the active and the idle contexts are sound, two different active ids have
  -- different contexts, an active context is not idle, it is alive, and it has the id that it is
  -- found by.
  pub active_sockets_apart :
      (v w : Service) (k l c d : ℕ)
      → IsSound v
      → Reach v w
      → get_active_context k w.sp ≡ some c
      → get_active_context l w.sp ≡ some d
      → IsConsistent w.sp w.net
        × (k ≢ l → c ≢ d)
        × Absent c w.sp.list_idle
        × ((s : SocketContext) × (w.net.sockets c ≡ some s) × (s.sock_id ≡ k))
  active_sockets_apart v w k l c d h r e e' = IsSound-apart w k l c d (Reach-IsSound v w r h) e e'
