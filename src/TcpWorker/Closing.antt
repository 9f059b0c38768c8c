-- ===== src/TcpWorker/Closing.antt =====
-- What a worker (network/iocp_tcpworkthread.h) and the server close: Reset of a context reads the socket
-- that nobody has initialised (network/iocp_base.h).
use lite_cpplib.Base.{
  ℕ, ◌≡◌, refl, ap, ◌∙◌, Bool, true, false, Option, none, some, ◌==◌, ◌&&◌, not, inl, inr,
  Bool-cases, ==_refl, Outcome, ok, undefined, ◌>>=◌, defined, defined_ok, bind_then, if_then,
  if_else, Ensures, Ensures-value, Ensures-undefined, Ensures-bind, Ensures-any, Ensures-if,
}
use lite_cpplib.IocpBase.{Layout, IoContext, IoOperation, Socket, SocketContext, reset_buffer}
use lite_cpplib.IocpBase.SocketPool.{get_active_context, clear_active_context, store_socket}
use lite_cpplib.TcpWorker.{
  Service, report, received, connected, disconnected, id_of_context, set_socket, unbind,
  drop_context, drop_id, post_recv, do_recv, Answers, adopt, do_accept, handle_error, wait_timeout,
  error_netname_deleted,
}
use lite_cpplib.TcpWorker.Run.{
  Overlapped, of_heap, receiving_of, Dequeued, operation_of, receive, dispatch, is_transfer,
  complete, round, option_or,
}
use lite_cpplib.TcpWorker.Invariant.{IsSound}
use lite_cpplib.TcpWorker.Reachable.{
  Step, round_of, sends, closes, fills_heap, fills_receiving, Reach, Reach-IsSound, here, next,
}
use lite_cpplib.TcpWorker.Arming.{armed, post_recv-armed}
use lite_cpplib.TcpWorker.Accepting.{adopt_lem}
use lite_cpplib.TcpWorker.Uninitialised.{
  ServiceIsUnset, AnswerIsUnset, set_socket-IsUnset, io-IsUnset, unbind_undefined,
  clear_active_context_undefined, unbind-IsUnset, drop_id-IsUnset, post_send-IsUnset,
  do_recv-IsUnset, do_send-IsUnset, adopt-IsUnset, do_accept-IsUnset,
}

module _ (y : Layout) where
  handle_error-IsUnset :
      (context : Option ℕ) (err : ℕ) (q : Answers) (v : Service)
      → ServiceIsUnset v
      → Ensures AnswerIsUnset (handle_error y context err q v)
  unfolding handle_error
  handle_error-IsUnset none err q v h = Ensures-value _ h
  handle_error-IsUnset (some context) err q v h =
      Ensures-any (defined (v.net.sockets context)) _ (λ s _.
        let dropped =
          Ensures-bind (drop_id y s.sock_id v) _ (drop_id-IsUnset y s.sock_id v h)
            (λ v' k. Ensures-value (true, v') k) in
        Ensures-if (not s.is_listen_sock && err == wait_timeout)
          (λ _. Ensures-if q.send_fails (λ _. dropped) (λ _. Ensures-value _ h))
          (λ _.
            Ensures-if (not s.is_listen_sock && err == error_netname_deleted) (λ _. dropped)
              (λ _. Ensures-value _ h)))

  receive-IsUnset :
      (context : Option ℕ) (bytes : ℕ) (receives : Bool) (v : Service)
      → ServiceIsUnset v
      → Ensures ServiceIsUnset (receive y context bytes receives v)
  unfolding receive
  receive-IsUnset context bytes receives v h = Ensures-any (defined context) _ (λ c _.
      Ensures-any (defined (v.net.sockets c)) _ (λ s e.
        let got : Service =
          set_socket c (record s { recv_context = record (s.recv_context) { trans_len = bytes } })
            v in
        Ensures-bind (do_recv y c receives got) _
          (do_recv-IsUnset y c receives got
            (set_socket-IsUnset c _ v (h.unset c s (defined_ok e)) h))
          (λ (_, v') k. Ensures-value v' k)))

  dispatch-IsUnset :
      (context : Option ℕ) (operation : IoOperation) (io : Overlapped) (bytes : ℕ) (q : Answers)
      (v : Service)
      → ServiceIsUnset v
      → Ensures ServiceIsUnset (dispatch y context operation io bytes q v)
  unfolding dispatch
  dispatch-IsUnset context IoOperation.accept_posted (of_heap io) bytes q v h =
      Ensures-bind (do_accept y context io q v) _ (do_accept-IsUnset y context io q v h)
        (λ (_, v') k. Ensures-value v' k)
  dispatch-IsUnset context IoOperation.accept_posted (receiving_of _) bytes q v h =
      Ensures-undefined
  dispatch-IsUnset context IoOperation.recv_posted io bytes q v h =
      receive-IsUnset context bytes q.receives v h
  dispatch-IsUnset context IoOperation.send_posted (of_heap io) bytes q v h =
      Ensures-any (defined context) _ (λ c _. do_send-IsUnset y c io v h)
  dispatch-IsUnset context IoOperation.send_posted (receiving_of _) bytes q v h = Ensures-undefined
  dispatch-IsUnset context IoOperation.null_posted io bytes q v h = Ensures-value _ h

  complete-IsUnset :
      (id : ℕ) (context : Option ℕ) (io : Option Overlapped) (bytes : ℕ) (q : Answers) (v : Service)
      → ServiceIsUnset v
      → Ensures ServiceIsUnset (complete y id context io bytes q v)
  unfolding complete
  complete-IsUnset id context none bytes q v h = Ensures-value _ h
  complete-IsUnset id context (some io) bytes q v h =
      Ensures-any (operation_of io v) _ (λ operation _.
        Ensures-if (bytes == 0 && is_transfer operation) (λ _. drop_id-IsUnset y id v h)
          (λ _. dispatch-IsUnset context operation io bytes q v h))

  round-IsUnset :
      (id : ℕ) (d : Dequeued) (q : Answers) (v : Service)
      → ServiceIsUnset v
      → Ensures (λ (r : Bool × (ℕ × Service)). ServiceIsUnset (r.1).1) (round y id d q v)
  unfolding round
  round-IsUnset id d q v h =
      let key = option_or id d.key in
      let context = get_active_context key v.sp in
      Ensures-if d.ret
        (λ _.
          Ensures-bind (complete y key context d.overlapped d.bytes q v) _
            (complete-IsUnset key context d.overlapped d.bytes q v h) (λ v' k. Ensures-value _ k))
        (λ _.
          Ensures-bind (handle_error y context d.err q v) _
            (handle_error-IsUnset context d.err q v h) (λ (_, v') k. Ensures-value _ k))

  -- The system writes what a receive brings, and not the member `sock_accept_`.
  abbrev pub KeepsReceiving : (v w : Service) → Step y v w → Type 0
  KeepsReceiving _ _ (round_of _ _ _ _ _ _ _ _) = Unit {0}
  KeepsReceiving _ _ (sends _ _ _ _ _ _ _) = Unit {0}
  KeepsReceiving _ _ (closes _ _ _ _) = Unit {0}
  KeepsReceiving _ _ (fills_heap _ _) = Unit {0}
  KeepsReceiving _ _ (fills_receiving context s c v e) = c.sock_accept ≡ s.recv_context.sock_accept

  pub data Course (v : Service) : Service → Type 0 where
    begin : Course v v
    go_on : {u w : Service} → Course v u → (t : Step y u w) → KeepsReceiving u w t → Course v w

  Step-IsUnset :
      (v w : Service) (t : Step y v w) → KeepsReceiving v w t → ServiceIsUnset v → ServiceIsUnset w
  Step-IsUnset _ _ (round_of id d q v b id' v' e) _ h =
      (round-IsUnset id d q v h).holds (b, (id', v')) e
  Step-IsUnset _ _ (sends context io posted b v v' e) _ h =
      (post_send-IsUnset y context io posted v h).holds (b, v') e
  Step-IsUnset _ _ (closes id v v' e) _ h = (unbind-IsUnset y id v h).holds v' e
  Step-IsUnset _ _ (fills_heap io v) _ h = io-IsUnset io v.net h
  Step-IsUnset _ _ (fills_receiving context s c v e) same h =
      set_socket-IsUnset context _ v (same ∙ h.unset context s e) h

  pub Course-IsUnset : (v w : Service) → Course v w → ServiceIsUnset v → ServiceIsUnset w
  Course-IsUnset v _ begin h = h
  Course-IsUnset v w (go_on {u = u} r t keeps) h = Step-IsUnset u w t keeps (Course-IsUnset v u r h)

  Course-Reach : (v w : Service) → Course v w → Reach y v w
  Course-Reach v _ begin = here
  Course-Reach v w (go_on {u = u} r t _) = next (Course-Reach v u r) t

  -- A receive that fails closes its context.
  post_recv_undefined :
      (context : ℕ) (v : Service) (s : SocketContext)
      → ServiceIsUnset v
      → v.net.sockets context ≡ some s
      → get_active_context s.sock_id v.sp ≡ some context
      → post_recv y context false v ≡ undefined
  unfolding drop_context id_of_context set_socket store_socket reset_buffer
  post_recv_undefined context v s h alive active =
      let w : Service = armed y context s v in
      let k : ServiceIsUnset w = set_socket-IsUnset context _ v (h.unset context s alive) h in
      let drops : drop_context y context w ≡ undefined =
        bind_then (id_of_context context w) _ (rw (==_refl context) refl) (
          ap
            (λ (m : Outcome Service).
              m >>= λ v'. id_of_context context v' >>= λ id'. ok (report (disconnected id') v'))
            (unbind_undefined y s.sock_id context w k active)) in
      post_recv-armed y v context s false alive
      ∙ ap (λ (m : Outcome Service). m >>= λ v'. ok (false, v')) drops

  -- From a sound state in which no socket's receiving context has its `sock_accept_` set, as the
  -- constructor leaves it, rounds of the workers, sends, closes and the system's writes, which
  -- do not touch that member, lead only to states in which closing any active socket is
  -- undefined, since Reset reads the member: CloseSocket of its id, a completion of no bytes of
  -- a receive or a send under its id, _DoRecv of its context whose next receive is refused, and
  -- ClearActiveContext.
  pub closing_undefined :
      (v w : Service) (id0 id context : ℕ) (d : Dequeued) (q : Answers) (io : Overlapped)
      (operation : IoOperation)
      → IsSound v
      → ServiceIsUnset v
      → Course v w
      → get_active_context id w.sp ≡ some context
      → d.ret ≡ true
      → option_or id0 d.key ≡ id
      → d.bytes ≡ 0
      → d.overlapped ≡ some io
      → operation_of io w ≡ ok operation
      → is_transfer operation ≡ true
      → (unbind y id w ≡ undefined)
        × (round y id0 d q w ≡ undefined)
        × (do_recv y context false w ≡ undefined)
        × (clear_active_context y (w.sp, w.net) ≡ undefined)
  unfolding round complete drop_id do_recv report
  closing_undefined v w id0 id context d q io operation sound h r active ret key empty points op
        transfer =
      let k = Course-IsUnset v w r h in
      let ((s, alive, same_id, _), _) =
        (Reach-IsSound y v w (Course-Reach v w r) sound).active id context active in
      let told : Service =
        report (received s.sock_id s.recv_context.buf s.recv_context.trans_len) w in
      let closes = unbind_undefined y id context w k active in
      (
        closes,
        rw (ret, key, points, op, empty, transfer, closes) refl,
        bind_then (defined (w.net.sockets context)) _ (ap defined alive) (
            post_recv_undefined context told s (record { unset = k.unset }) alive
              (ap (λ (n : ℕ). get_active_context n w.sp) same_id ∙ active)),
        clear_active_context_undefined y id context w.sp w.net k active,
      )

  -- In the same states, _DoAccept of a context with an accepted socket is undefined, whatever
  -- the listening context, where the accepted socket is not associated or its first receive is
  -- not taken.
  pub failed_accept_undefined :
      (v w : Service) (listening : Option ℕ) (io : ℕ) (q : Answers) (c : IoContext) (sock : Socket)
      → IsSound v
      → ServiceIsUnset v
      → Course v w
      → (w.net.io).1.heap io ≡ some c
      → c.sock_accept ≡ some sock
      → (q.associates && q.receives) ≡ false
      → do_accept y listening io q w ≡ undefined
  unfolding do_accept id_of_context report
  failed_accept_undefined v w listening io q c sock sound h r there set fails =
      let k = Reach-IsSound y v w (Course-Reach v w r) sound in
      let (context, w1, s, adopts, adopted, _, _) = adopt_lem y io q w c sock k there set in
      let unset : ServiceIsUnset w1 =
        (adopt-IsUnset y io q w (Course-IsUnset v w r h)).holds (context, w1) adopts in
      let told : Service = report (connected s.sock_id) w1 in
      let active : get_active_context s.sock_id w1.sp ≡ some context =
        ap (λ (n : ℕ). get_active_context n w1.sp) adopted.has_id ∙ adopted.active in
      let reads : id_of_context context w1 ≡ ok s.sock_id = rw adopted.alive refl in
      bind_then (adopt y io q w) _ adopts (
        bind_then (id_of_context context w1) _ reads (elim (Bool-cases q.associates) [
          | inl grants ↦
              let refuses : q.receives ≡ false = rw grants at fails in
              let undone : post_recv y context q.receives told ≡ undefined =
                ap (λ b. post_recv y context b told) refuses
                ∙ post_recv_undefined context told s (record { unset = unset.unset }) adopted.alive
                    active in
              if_then _ _ grants (rw undone refl)
          | inr denies ↦
              if_else _ _ denies (rw (unbind_undefined y s.sock_id context w1 unset active) refl)
        ]))
