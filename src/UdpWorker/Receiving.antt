-- ===== src/UdpWorker/Receiving.antt =====
-- A completed receive of a worker of UDP (network/iocp_udpworkthread.h).
use lite_cpplib.Base.{
  ℕ, ◌≡◌, refl, Bool, true, some, [], ◌∷◌, ◌++◌, sym, ◌∙◌, some_inj, ap, ==_refl, ok, replicate,
}
use lite_cpplib.IocpBase.{Layout, IoOperation, SocketContext, reset_buffer}
use lite_cpplib.IocpBase.SocketPool.{store_socket, get_active_context}
use lite_cpplib.TcpWorker.{Service, received_from, report, set_socket}
use lite_cpplib.TcpWorker.Run.{receiving_of, operation_of}
use lite_cpplib.TcpWorker.Invariant.{IsSound}
use lite_cpplib.UdpWorker.{
  post_recv_from, do_recv_from, receive_from, dispatch_udp, complete_udp, round_udp,
}

module _ (y : Layout) where
  -- The context `s` of an id has received `bytes` bytes, and is as for its first receive again.
  pub record IsReceived (v w : Service) (sock_id context : ℕ) (s : SocketContext) (bytes : ℕ)
      : Type 0 where
    pub socket : SocketContext
    pub alive : w.net.sockets context ≡ some socket
    pub same_sock : socket.sock ≡ s.sock
    pub has_id : socket.sock_id ≡ sock_id
    pub same_list : socket.list_io_context ≡ s.list_io_context
    pub emptied : socket.recv_context ≡ record {
      overlapped = replicate y.sizeof_overlapped 0;
      sock_accept = s.recv_context.sock_accept;
      wsa_len = 4096;
      buf = replicate 4096 0;
      trans_len = 0;
      operation = IoOperation.recv_posted;
      remote_addr = replicate y.sizeof_sockaddr_in 0;
      addr_size = y.sizeof_sockaddr_in;
    }
    pub same_pool : w.sp ≡ v.sp
    pub reported :
        w.calls
        ≡ v.calls
          ++ (received_from sock_id s.recv_context.buf bytes s.recv_context.remote_addr ∷ [])

  -- In a sound state, a completed receive on an active socket whose receive is posted: the
  -- worker goes on with the socket's id, the user gets that id, the buffer, the number of bytes
  -- of the completion and the sender's address, and the context, with the same socket, id and
  -- list, has its receiving context as for a first receive: all zeroes, with the full length,
  -- and the operation set, whether or not the receive is taken. The pool and the active ids
  -- stay.
  pub receive_completion :
      (last sock_id context bytes err : ℕ) (posted : Bool) (v : Service) (s : SocketContext)
      → IsSound v
      → get_active_context sock_id v.sp ≡ some context
      → v.net.sockets context ≡ some s
      → s.recv_context.operation ≡ IoOperation.recv_posted
      → (w : Service) × (round_udp y last
            (record {
              ret = true;
              key = some sock_id;
              bytes = bytes;
              overlapped = some (receiving_of context);
              err = err;
            })
            posted
            v
          ≡ ok (true, (sock_id, w)))
        × IsReceived v w sock_id context s bytes
  unfolding round_udp complete_udp operation_of dispatch_udp receive_from do_recv_from
      post_recv_from report set_socket store_socket reset_buffer get_active_context
  receive_completion last sock_id context bytes err posted v s h active alive receiving =
      let ((u, alive', id, _), _) = h.active sock_id context active in
      let has_id : s.sock_id ≡ sock_id =
        ap (λ (r : SocketContext). r.sock_id) (some_inj (sym alive ∙ alive')) ∙ id in
      let t : SocketContext = record s {
        recv_context = record (reset_buffer y s.recv_context) {
          remote_addr = replicate y.sizeof_sockaddr_in 0;
          operation = IoOperation.recv_posted;
        };
      } in
      let got =
        set_socket context
          (record s { recv_context = record (s.recv_context) { trans_len = bytes } }) v in
      let call = received_from s.sock_id s.recv_context.buf bytes s.recv_context.remote_addr in
      (
        set_socket context t (report call got),
        simp (active, alive, receiving, ==_refl context) refl,
        record {
          socket = t;
          alive = rw (==_refl context) refl;
          same_sock = refl;
          has_id = has_id;
          same_list = refl;
          emptied = refl;
          same_pool = refl;
          reported =
              ap
                (λ (n : ℕ).
                  v.calls
                  ++ (received_from n s.recv_context.buf bytes s.recv_context.remote_addr ∷ []))
                has_id;
        },
      )
