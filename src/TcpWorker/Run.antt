-- ===== src/TcpWorker/Run.antt =====
-- IOCP_TCPWorkThread::_Run (network/iocp_tcpworkthread.h): what a worker does with a completion, and with
-- a sequence of them.
use lite_cpplib.Base.{
  ℕ, Bool, true, false, ◌&&◌, Option, none, some, List, [], ◌∷◌, ◌==◌, if◌then◌else◌, Outcome, ok,
  undefined, ◌>>=◌, defined,
}
use lite_cpplib.IocpBase.{Layout, IoOperation}
use lite_cpplib.IocpBase.SocketPool.{get_active_context}
use lite_cpplib.TcpWorker.{
  Service, Answers, set_socket, drop_id, do_recv, do_send, do_accept, handle_error,
}

-- What GetQueuedCompletionStatus points `overlapped` to: a context in the heap, or the receiving
-- context of the socket's context at an address.
pub data Overlapped : Type 0 where
  of_heap receiving_of : ℕ → Overlapped

-- GetQueuedCompletionStatus: its result, what it stores in `sock_id` if it stores anything, the bytes,
-- `overlapped`, and the error of GetLastError.
pub record Dequeued : Type 0 where
  pub ret : Bool
  pub key : Option ℕ
  pub bytes : ℕ
  pub overlapped : Option Overlapped
  pub err : ℕ

abbrev pub option_or {ℓ} : {A : Type ℓ} → A → Option A → A
option_or d none = d
option_or d (some a) = a

-- `io_data->operation_`
unfoldable pub operation_of : Overlapped → Service → Outcome IoOperation
operation_of (of_heap io) v = do c ← defined ((v.net.io).1.heap io); ok c.operation
operation_of (receiving_of context) v = do
  s ← defined (v.net.sockets context)
  ok s.recv_context.operation

-- `RECV_POSTED == io_data->operation_ || SEND_POSTED == io_data->operation_`
abbrev pub is_transfer : IoOperation → Bool
is_transfer IoOperation.accept_posted = false
is_transfer IoOperation.recv_posted = true
is_transfer IoOperation.send_posted = true
is_transfer IoOperation.null_posted = false

module _ (y : Layout) where
  -- `sock_context->recv_context_.trans_len_ = bytes` and _DoRecv
  unfoldable pub receive : Option ℕ → ℕ → Bool → Service → Outcome Service
  unfolding set_socket do_recv
  receive context bytes receives v = do
    c ← defined context
    s ← defined (v.net.sockets c)
    (_, v') ←
        do_recv y c receives (
          set_socket c (record s { recv_context = record (s.recv_context) { trans_len = bytes } })
            v)
    ok v'

  -- The `switch` over the operation. Only receiving is posted with a receiving context: the other
  -- operations of one have no meaning here.
  unfoldable pub dispatch :
      Option ℕ → IoOperation → Overlapped → ℕ → Answers → Service → Outcome Service
  unfolding do_accept receive do_send
  dispatch context IoOperation.accept_posted (of_heap io) bytes q v = do
    (_, v') ← do_accept y context io q v
    ok v'
  dispatch context IoOperation.accept_posted (receiving_of _) bytes q v = undefined
  dispatch context IoOperation.recv_posted io bytes q v = receive context bytes q.receives v
  dispatch context IoOperation.send_posted (of_heap io) bytes q v = do
    c ← defined context
    do_send y c io v
  dispatch context IoOperation.send_posted (receiving_of _) bytes q v = undefined
  dispatch context IoOperation.null_posted io bytes q v = ok v

  -- What _Run does with `io_data` of a completed operation
  unfoldable pub complete :
      ℕ → Option ℕ → Option Overlapped → ℕ → Answers → Service → Outcome Service
  unfolding operation_of drop_id dispatch
  complete sock_id context none bytes q v = ok v
  complete sock_id context (some io) bytes q v = do
    operation ← operation_of io v
    let closes = drop_id y sock_id v
    let goes_on = dispatch context operation io bytes q v
    if bytes == 0 && is_transfer operation then closes else goes_on

  -- A round of the loop of _Run, with the variable `sock_id`: whether it goes on, and the id then
  unfoldable pub round : ℕ → Dequeued → Answers → Service → Outcome (Bool × (ℕ × Service))
  unfolding get_active_context handle_error complete
  round sock_id d q v =
      let id = option_or sock_id d.key in
      let context = get_active_context id v.sp in
      let completed : Outcome (Bool × (ℕ × Service)) = do
        v' ← complete id context d.overlapped d.bytes q v
        ok (true, (id, v'))
      in let failed : Outcome (Bool × (ℕ × Service)) = do
        (goes_on, v') ← handle_error y context d.err q v
        ok (goes_on, (id, v'))
        in if d.ret then completed else failed

  -- _Run until the thread is signalled, which the end of the list stands for, or a round breaks the
  -- loop: what it leaves. It returns 0.
  unfoldable pub run : ℕ → List (Dequeued × Answers) → Service → Outcome Service
  unfolding round
  run sock_id [] v = ok v
  run sock_id ((d, q) ∷ rounds) v = do
    (goes_on, (id, v')) ← round sock_id d q v
    let rest = run id rounds v'
    if goes_on then rest else ok v'
