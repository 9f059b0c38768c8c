-- ===== src/UdpWorker.antt =====
-- network/iocp_udpworkthread.h: what a worker thread of UDP does with a completion. RemoveContext in
-- _DoSend is that of network/iocp_tcpworkthread.h.
pub mod Keeping
pub mod Receiving
mod Tests
use lite_cpplib.Base.{
  ℕ, Bool, true, false, ◌||◌, Option, none, some, List, [], ◌∷◌, replicate, ◌==◌, if◌then◌else◌,
  Outcome, ok, undefined, ◌>>=◌, defined,
}
use lite_cpplib.IocpBase.{Layout, IoContext, IoOperation, SocketContext, reset_buffer}
use lite_cpplib.IocpBase.SocketPool.{get_active_context}
use lite_cpplib.TcpWorker.{
  Service, received_from, report, set_io, set_socket, do_send, wait_timeout, error_netname_deleted,
}
use lite_cpplib.TcpWorker.Run.{Overlapped, of_heap, receiving_of, Dequeued, operation_of, option_or}

-- _HandleError, with NULL for a context whose id is not active: whether the thread goes on
unfoldable pub handle_udp_error : Option ℕ → ℕ → Bool
handle_udp_error none err = true
handle_udp_error (some context) err = err == wait_timeout || err == error_netname_deleted

module _ (y : Layout) where
  -- PostRecv, from whether WSARecvFrom succeeds or its operation is pending
  unfoldable pub post_recv_from : ℕ → Bool → Service → Outcome (Bool × Service)
  unfolding set_socket reset_buffer
  post_recv_from context posted v = do
    s ← defined (v.net.sockets context)
    let emptied = record (reset_buffer y s.recv_context) {
      remote_addr = replicate y.sizeof_sockaddr_in 0;
      operation = IoOperation.recv_posted;
    }
    ok (posted, set_socket context (record s { recv_context = emptied }) v)

  -- PostSend, from whether WSASendTo succeeds or its operation is pending
  unfoldable pub post_send_to : ℕ → ℕ → Bool → Service → Outcome (Bool × Service)
  unfolding set_io
  post_send_to context io posted v = do
    _ ← defined (v.net.sockets context)
    c ← defined ((v.net.io).1.heap io)
    ok (posted, set_io io (record c { operation = IoOperation.send_posted }) v)

  -- _DoRecv
  unfoldable pub do_recv_from : ℕ → Bool → Service → Outcome (Bool × Service)
  unfolding report post_recv_from
  do_recv_from context posted v = do
    s ← defined (v.net.sockets context)
    let r = s.recv_context
    post_recv_from context posted
        (report (received_from s.sock_id r.buf r.trans_len r.remote_addr) v)

  -- `sock_context->recv_context_.trans_len_ = bytes` and _DoRecv
  unfoldable pub receive_from : Option ℕ → ℕ → Bool → Service → Outcome Service
  unfolding set_socket do_recv_from
  receive_from context bytes receives v = do
    c ← defined context
    s ← defined (v.net.sockets c)
    (_, v') ←
        do_recv_from c receives (
          set_socket c (record s { recv_context = record (s.recv_context) { trans_len = bytes } })
            v)
    ok v'

  -- The `switch` over the operation, with whether WSARecvFrom succeeds. Only receiving is posted with
  -- a receiving context.
  unfoldable pub dispatch_udp :
      Option ℕ → IoOperation → Overlapped → ℕ → Bool → Service → Outcome Service
  unfolding receive_from do_send
  dispatch_udp context IoOperation.recv_posted io bytes receives v =
      receive_from context bytes receives v
  dispatch_udp context IoOperation.send_posted (of_heap io) bytes receives v = do
    c ← defined context
    do_send y c io v
  dispatch_udp context IoOperation.send_posted (receiving_of _) bytes receives v = undefined
  dispatch_udp context IoOperation.accept_posted io bytes receives v = ok v
  dispatch_udp context IoOperation.null_posted io bytes receives v = ok v

  -- What _Run does with `io_data` of a completed operation
  unfoldable pub complete_udp : Option ℕ → Option Overlapped → ℕ → Bool → Service → Outcome Service
  unfolding operation_of dispatch_udp
  complete_udp context none bytes receives v = ok v
  complete_udp context (some io) bytes receives v = do
    operation ← operation_of io v
    dispatch_udp context operation io bytes receives v

  -- A round of the loop of _Run, with the variable `sock_id`: whether it goes on, and the id then
  unfoldable pub round_udp : ℕ → Dequeued → Bool → Service → Outcome (Bool × (ℕ × Service))
  unfolding get_active_context handle_udp_error complete_udp
  round_udp sock_id d receives v =
      let id = option_or sock_id d.key in
      let context = get_active_context id v.sp in
      let completed : Outcome (Bool × (ℕ × Service)) = do
        v' ← complete_udp context d.overlapped d.bytes receives v
        ok (true, (id, v'))
      in if d.ret then completed else ok (handle_udp_error context d.err, (id, v))

  -- _Run until the thread is signalled, which the end of the list stands for, or a round breaks the
  -- loop: what it leaves. It returns 0.
  unfoldable pub run_udp : ℕ → List (Dequeued × Bool) → Service → Outcome Service
  unfolding round_udp
  run_udp sock_id [] v = ok v
  run_udp sock_id ((d, receives) ∷ rounds) v = do
    (goes_on, (id, v')) ← round_udp sock_id d receives v
    let rest = run_udp id rounds v'
    if goes_on then rest else ok v'
