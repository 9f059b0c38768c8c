-- ===== src/TcpWorker.antt =====
-- network/iocp_tcpworkthread.h: what a worker thread does with a completion, over the pools of
-- network/iocp_base.h and the answers of the system's calls.
pub mod Reachable
pub mod Invariant
pub mod Run
pub mod Accepting
pub mod Uninitialised
pub mod Closing
pub mod Arming
mod Tests
use lite_cpplib.Base.{
  ℕ, ◌+◌, Bool, true, false, not, ◌&&◌, ◌||◌, Option, none, some, List, [], ◌∷◌, ◌++◌, ◌==◌,
  if◌then◌else◌, u32, Outcome, ok, undefined, ◌>>=◌, ◌>>◌, defined,
}
use lite_cpplib.IocpBase.{
  Layout, IoContext, IoOperation, Socket, World, IoContextPool, SocketContext, store, reset_buffer,
  remove_context,
}
use lite_cpplib.IocpBase.SocketPool.{
  Net, SocketContextPool, store_socket, get_socket_context, add_active_context, del_active_context,
  get_active_context,
}

-- The calls of the user's callbacks; those of `received_from` are of network/iocp_udpworkthread.h.
pub data Callback : Type 0 where
  connected : ℕ → Callback
  received : ℕ → List ℕ → ℕ → Callback
  disconnected : ℕ → Callback
  received_from : ℕ → List ℕ → ℕ → List ℕ → Callback

-- What the workers of one server share: the pools, the contexts, and the callbacks so far.
pub record Service : Type 0 where
  pub sp : SocketContextPool
  pub net : Net
  pub calls : List Callback

unfoldable pub report : Callback → Service → Service
report c v = record v { calls = v.calls ++ (c ∷ []) }

-- `assert(INVALID_SOCKET != s)`
unfoldable pub assert_valid : Socket → Outcome (Unit {0})
assert_valid none = undefined
assert_valid (some _) = ok tt

-- `(unsigned long)socket`, of 32 bits
abbrev pub socket_id : Socket → ℕ
socket_id none = 0xffffffff
socket_id (some s) = u32 s

-- WAIT_TIMEOUT and ERROR_NETNAME_DELETED
abbrev pub wait_timeout : ℕ
wait_timeout = 258

abbrev pub error_netname_deleted : ℕ
error_netname_deleted = 64

-- The member `sock_id_` of a context
unfoldable pub id_of_context : ℕ → Service → Outcome ℕ
id_of_context context v = do s ← defined (v.net.sockets context); ok s.sock_id

-- A context of a network operation in the heap, changed.
unfoldable pub set_io : ℕ → IoContext → Service → Service
unfolding store
set_io io c v = record v {
  net = record (v.net) { io = ((v.net.io).0, store io (some c) (v.net.io).1) };
}

unfoldable pub set_socket : ℕ → SocketContext → Service → Service
unfolding store_socket
set_socket context s v = record v { net = store_socket context s v.net }

module _ (y : Layout) where
  -- `DelActiveContext(sock_id)`
  unfoldable pub unbind : ℕ → Service → Outcome Service
  unfolding del_active_context
  unbind sock_id v = do
    (sp, net) ← del_active_context y sock_id (v.sp, v.net)
    ok (record v { sp = sp; net = net })

  -- `DelActiveContext(context->sock_id_); DisconnectedCallback_(context->sock_id_, user_ptr_)`: the id
  -- is read again for the callback.
  unfoldable pub drop_context : ℕ → Service → Outcome Service
  unfolding unbind report id_of_context
  drop_context context v = do
    sock_id ← id_of_context context v
    v' ← unbind sock_id v
    sock_id' ← id_of_context context v'
    ok (report (disconnected sock_id') v')

  -- `DelActiveContext(sock_id); DisconnectedCallback_(sock_id, user_ptr_)` with an id at hand
  unfoldable pub drop_id : ℕ → Service → Outcome Service
  unfolding unbind report
  drop_id sock_id v = do v' ← unbind sock_id v; ok (report (disconnected sock_id) v')

  -- PostRecv, from whether WSARecv succeeds or its operation is pending
  unfoldable pub post_recv : ℕ → Bool → Service → Outcome (Bool × Service)
  unfolding set_socket drop_context reset_buffer
  post_recv context posted v = do
    s ← defined (v.net.sockets context)
    let armed =
        set_socket context
          (record s {
            recv_context = record (reset_buffer y s.recv_context) {
              operation = IoOperation.recv_posted;
            };
          })
          v
    let failed : Outcome (Bool × Service) = do v' ← drop_context context armed; ok (false, v')
    if posted then ok (true, armed) else failed

  -- PostSend, from whether WSASend succeeds or its operation is pending
  unfoldable pub post_send : ℕ → ℕ → Bool → Service → Outcome (Bool × Service)
  unfolding set_io drop_context
  post_send context io posted v = do
    _ ← defined (v.net.sockets context)
    c ← defined ((v.net.io).1.heap io)
    let armed = set_io io (record c { operation = IoOperation.send_posted }) v
    let failed : Outcome (Bool × Service) = do v' ← drop_context context armed; ok (false, v')
    if posted then ok (true, armed) else failed

  -- PostAccept, from what WSASocket returns, and whether AcceptEx succeeds or its operation is pending
  unfoldable pub post_accept : ℕ → ℕ → Socket → Bool → Service → Outcome (Bool × Service)
  unfolding assert_valid set_io
  post_accept context io made posted v = do
    s ← defined (v.net.sockets context)
    assert_valid s.sock
    c ← defined ((v.net.io).1.heap io)
    ok (
      elim made [ none ↦ false | some _ ↦ posted ],
      set_io io (record c { operation = IoOperation.accept_posted; sock_accept = some made }) v,
    )

  -- _DoRecv
  unfoldable pub do_recv : ℕ → Bool → Service → Outcome (Bool × Service)
  unfolding report post_recv
  do_recv context posted v = do
    s ← defined (v.net.sockets context)
    post_recv context posted
        (report (received s.sock_id s.recv_context.buf s.recv_context.trans_len) v)

  -- _DoSend
  unfoldable pub do_send : ℕ → ℕ → Service → Outcome Service
  unfolding remove_context set_socket
  do_send context io v = do
    s ← defined (v.net.sockets context)
    (s', pool_io) ← remove_context y io s v.net.io
    ok (record v { net = record ((set_socket context s' v).net) { io = pool_io } })

-- What the system answers to the calls of a round.
pub record Answers : Type 0 where
  -- The bytes of `local_addr_` in a new context, and the peer's address by GetAcceptExSockAddrs
  pub fresh : List ℕ
  pub remote_addr : List ℕ
  -- CreateIoCompletionPort, and WSARecv
  pub associates : Bool
  pub receives : Bool
  -- WSASocket, and AcceptEx
  pub made : Socket
  pub accepts : Bool
  -- Whether `send` of no bytes returns -1
  pub send_fails : Bool

module _ (y : Layout) where
  -- The part of _DoAccept that makes an active context for the accepted socket
  unfoldable pub adopt : ℕ → Answers → Service → Outcome (ℕ × Service)
  unfolding get_socket_context add_active_context set_socket
  adopt io q v = do
    c ← defined ((v.net.io).1.heap io)
    sock ← defined c.sock_accept
    let got = get_socket_context y q.fresh (v.sp, v.net)
    s ← defined ((got.1).1.sockets got.0)
    let v' =
        set_socket (got.0)
          (record s { sock = sock; sock_id = socket_id sock; local_addr = q.remote_addr })
          (record v { sp = (got.1).0; net = (got.1).1 })
    sp ← add_active_context (got.0) (v'.sp, v'.net)
    ok (got.0, record v' { sp = sp })

  -- _DoAccept of a context in the heap, with NULL for the listening socket's context if the id is
  -- not active
  unfoldable pub do_accept : Option ℕ → ℕ → Answers → Service → Outcome (Bool × Service)
  unfolding adopt id_of_context unbind post_recv drop_context set_io reset_buffer post_accept report
  do_accept listening io q v = do
    (context, v1) ← adopt io q v
    sock_id ← id_of_context context v1
    let refused : Outcome (Bool × Service) = do v' ← unbind y sock_id v1; ok (false, v')
    let connects : Outcome (Bool × Service) = do
      (posted, v2) ← post_recv y context q.receives (report (connected sock_id) v1)
      let lost : Outcome (Bool × Service) = do v' ← drop_context y context v2; ok (false, v')
      let next : Outcome (Bool × Service) = do
        c ← defined ((v2.net.io).1.heap io)
        listener ← defined listening
        post_accept y listener io q.made q.accepts (set_io io (reset_buffer y c) v2)
      if posted then next else lost
    if q.associates then connects else refused

  -- _HandleError, with NULL for a context whose id is not active: whether the thread goes on
  unfoldable pub handle_error : Option ℕ → ℕ → Answers → Service → Outcome (Bool × Service)
  unfolding drop_id
  handle_error none err q v = ok (true, v)
  handle_error (some context) err q v = do
    s ← defined (v.net.sockets context)
    let dropped : Outcome (Bool × Service) = do v' ← drop_id y s.sock_id v; ok (true, v')
    let probed : Outcome (Bool × Service) = if q.send_fails then dropped else ok (true, v)
    let answer : Outcome (Bool × Service) =
        if not s.is_listen_sock && err == wait_timeout
        then probed
        else if not s.is_listen_sock && err == error_netname_deleted
        then dropped
        else ok (false, v)
    answer
