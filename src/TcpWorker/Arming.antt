-- ===== src/TcpWorker/Arming.antt =====
-- PostRecv (network/iocp_tcpworkthread.h), from the prepared context on.
use lite_cpplib.Base.{ℕ, ◌≡◌, refl, Bool, true, false, some, if◌then◌else◌, ok, ◌>>=◌}
use lite_cpplib.IocpBase.{Layout, IoOperation, SocketContext, reset_buffer}
use lite_cpplib.TcpWorker.{Service, set_socket, drop_context, post_recv}

module _ (y : Layout) where
  -- The context of a socket with its next receive prepared
  abbrev pub armed : ℕ → SocketContext → Service → Service
  armed context s v =
      set_socket context
        (record s {
          recv_context = record (reset_buffer y s.recv_context) {
            operation = IoOperation.recv_posted;
          };
        })
        v

  pub post_recv-armed :
      (v : Service) (context : ℕ) (s : SocketContext) (posted : Bool)
      → v.net.sockets context ≡ some s
      → post_recv y context posted v ≡ (
          if posted
          then ok (true, armed context s v)
          else (drop_context y context (armed context s v) >>= λ v'. ok (false, v')))
  unfolding post_recv
  post_recv-armed v context s posted e = rw e refl
