-- ===== src/UdpWorker/Keeping.antt =====
-- The workers of UDP (network/iocp_udpworkthread.h) neither open nor close a socket.
use lite_cpplib.Base.{
  ℕ, ◌≡◌, refl, ap, ◌∙◌, Bool, Option, none, some, List, [], ◌∷◌, ok, defined, defined_ok, Ensures,
  Ensures-value, Ensures-undefined, Ensures-bind, Ensures-any, Ensures-if, Ensures-weaken,
}
use lite_cpplib.IocpBase.{Layout, IoOperation, remove_context}
use lite_cpplib.IocpBase.SocketPool.{get_active_context}
use lite_cpplib.TcpWorker.{Service, received_from, report, set_socket, do_send}
use lite_cpplib.TcpWorker.Invariant.{IsSound, set_socket-IsSound, do_send-IsSound}
use lite_cpplib.TcpWorker.Run.{Overlapped, of_heap, receiving_of, Dequeued, operation_of, option_or}
use lite_cpplib.UdpWorker.{
  post_recv_from, do_recv_from, receive_from, dispatch_udp, complete_udp, round_udp, run_udp,
}

-- The same active and idle contexts, in a sound state.
pub record IsKept (v w : Service) : Type 0 where
  pub sound : IsSound w
  pub same : w.sp ≡ v.sp

module _ (y : Layout) where
  pub post_recv_from-IsKept :
      (context : ℕ) (posted : Bool) (v : Service)
      → IsSound v
      → Ensures (λ (r : Bool × Service). IsKept v (r.1)) (post_recv_from y context posted v)
  unfolding post_recv_from
  post_recv_from-IsKept context posted v h = Ensures-any (defined (v.net.sockets context)) _ (λ s e.
      Ensures-value _
        (record { sound = set_socket-IsSound context s _ v (defined_ok e) refl h; same = refl }))

  do_recv_from-IsKept :
      (context : ℕ) (posted : Bool) (v : Service)
      → IsSound v
      → Ensures (λ (r : Bool × Service). IsKept v (r.1)) (do_recv_from y context posted v)
  unfolding do_recv_from report
  do_recv_from-IsKept context posted v h = Ensures-any (defined (v.net.sockets context)) _ (λ s _.
      let told =
        report
          (received_from s.sock_id s.recv_context.buf s.recv_context.trans_len
            s.recv_context.remote_addr)
          v in
      Ensures-weaken (λ r k. record { sound = k.sound; same = k.same })
        (post_recv_from-IsKept context posted told h))

  do_send-IsKept :
      (context io : ℕ) (v : Service) → IsSound v → Ensures (IsKept v) (do_send y context io v)
  unfolding do_send
  do_send-IsKept context io v h =
      let same : Ensures (λ w. w.sp ≡ v.sp) (do_send y context io v) =
        Ensures-any (defined (v.net.sockets context)) _
          (λ s _. Ensures-any (remove_context y io s v.net.io) _ (λ r _. Ensures-value _ refl)) in
      record {
        holds = λ w e. record {
          sound = (do_send-IsSound y context io v h).holds w e;
          same = same.holds w e;
        };
      }

  receive_from-IsKept :
      (context : Option ℕ) (bytes : ℕ) (receives : Bool) (v : Service)
      → IsSound v
      → Ensures (IsKept v) (receive_from y context bytes receives v)
  unfolding receive_from set_socket
  receive_from-IsKept context bytes receives v h = Ensures-any (defined context) _ (λ c _.
      Ensures-any (defined (v.net.sockets c)) _ (λ s e.
        let got : Service =
          set_socket c (record s { recv_context = record (s.recv_context) { trans_len = bytes } })
            v in
        Ensures-bind (do_recv_from y c receives got) _
          (do_recv_from-IsKept c receives got (set_socket-IsSound c s _ v (defined_ok e) refl h))
          (λ r k. Ensures-value (r.1) (record { sound = k.sound; same = k.same }))))

  dispatch_udp-IsKept :
      (context : Option ℕ) (operation : IoOperation) (io : Overlapped) (bytes : ℕ) (receives : Bool)
      (v : Service)
      → IsSound v
      → Ensures (IsKept v) (dispatch_udp y context operation io bytes receives v)
  unfolding dispatch_udp
  dispatch_udp-IsKept context IoOperation.recv_posted io bytes receives v h =
      receive_from-IsKept context bytes receives v h
  dispatch_udp-IsKept context IoOperation.send_posted (of_heap io) bytes receives v h =
      Ensures-any (defined context) _ (λ c _. do_send-IsKept c io v h)
  dispatch_udp-IsKept context IoOperation.send_posted (receiving_of _) bytes receives v h =
      Ensures-undefined
  dispatch_udp-IsKept context IoOperation.accept_posted io bytes receives v h =
      Ensures-value _ (record { sound = h; same = refl })
  dispatch_udp-IsKept context IoOperation.null_posted io bytes receives v h =
      Ensures-value _ (record { sound = h; same = refl })

  complete_udp-IsKept :
      (context : Option ℕ) (io : Option Overlapped) (bytes : ℕ) (receives : Bool) (v : Service)
      → IsSound v
      → Ensures (IsKept v) (complete_udp y context io bytes receives v)
  unfolding complete_udp
  complete_udp-IsKept context none bytes receives v h =
      Ensures-value _ (record { sound = h; same = refl })
  complete_udp-IsKept context (some io) bytes receives v h =
      Ensures-any (operation_of io v) _
        (λ operation _. dispatch_udp-IsKept context operation io bytes receives v h)

  pub round_udp-IsKept :
      (id : ℕ) (d : Dequeued) (receives : Bool) (v : Service)
      → IsSound v
      → Ensures (λ (r : Bool × (ℕ × Service)). IsKept v (r.1).1) (round_udp y id d receives v)
  unfolding round_udp
  round_udp-IsKept id d receives v h =
      let context = get_active_context (option_or id d.key) v.sp in
      Ensures-if d.ret
        (λ _.
          Ensures-bind (complete_udp y context d.overlapped d.bytes receives v) _
            (complete_udp-IsKept context d.overlapped d.bytes receives v h)
            (λ v' k. Ensures-value _ k))
        (λ _. Ensures-value _ (record { sound = h; same = refl }))

  run_udp-IsKept :
      (id : ℕ) (rounds : List (Dequeued × Bool)) (v : Service)
      → IsSound v
      → Ensures (IsKept v) (run_udp y id rounds v)
  unfolding run_udp
  run_udp-IsKept id [] v h = Ensures-value _ (record { sound = h; same = refl })
  run_udp-IsKept id ((d, receives) ∷ rounds) v h =
      Ensures-bind (round_udp y id d receives v) _ (round_udp-IsKept id d receives v h) (λ r k.
        Ensures-if (r.0)
          (λ _.
            Ensures-weaken (λ w k'. record { sound = k'.sound; same = k'.same ∙ k.same })
              (run_udp-IsKept (r.1).0 rounds (r.1).1 k.sound))
          (λ _. Ensures-value _ k))

  -- A worker of UDP that starts in a sound state and runs on completions without an undefined
  -- step, whatever they are and whether or not the receives are taken, leaves a sound state with
  -- the same idle and active contexts.
  pub run_udp_keeps_sockets :
      (id active_id : ℕ) (rounds : List (Dequeued × Bool)) (v w : Service)
      → IsSound v
      → run_udp y id rounds v ≡ ok w
      → IsSound w
        × (w.sp ≡ v.sp)
        × (get_active_context active_id w.sp ≡ get_active_context active_id v.sp)
  run_udp_keeps_sockets id active_id rounds v w h e =
      let kept = (run_udp-IsKept id rounds v h).holds w e in
      (kept.sound, kept.same, ap (get_active_context active_id) kept.same)
