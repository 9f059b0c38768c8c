-- ===== src/IocpBase/Tests.antt =====
-- Pools run on small inputs.
use lite_cpplib.Base.{◌≡◌, refl, false, some, [], ◌∷◌, ok, undefined}
use lite_cpplib.IocpBase.{
  Layout, IoContext, IoOperation, World, IoContextPool, SocketContext, cleared, reset_socket,
  reset_io, put_all, put_io_context, keep_or_delete, store, new_socket_context, new_io_context,
}

abbrev small : Layout
small = record { sizeof_overlapped = 2; sizeof_sockaddr_in = 3 }

-- A context whose last operation accepted the socket 77.
abbrev accepted : IoContext
accepted = record {
  overlapped = 1 ∷ 2 ∷ [];
  sock_accept = some (some 77);
  wsa_len = 10;
  buf = [];
  trans_len = 10;
  operation = IoOperation.accept_posted;
  remote_addr = 9 ∷ 9 ∷ 9 ∷ [];
  addr_size = 3;
}

abbrev pooled : IoContext
pooled = cleared small accepted

-- The context 5 is in the pool, all the others are in use.
abbrev world : World
world = record { heap = λ a. some pooled; next = 100; closed = [] }

abbrev pool : IoContextPool
pool = record { list_io_context = 5 ∷ []; pool_size = 2 }

-- A connected socket with two operations under way.
abbrev connected : SocketContext
connected = record {
  sock = some 77;
  list_io_context = 6 ∷ 7 ∷ [];
  recv_context = accepted;
  local_addr = 1 ∷ 2 ∷ 3 ∷ [];
  sock_id = 77;
  is_listen_sock = false;
}

-- The contexts of a socket go to the pool as long as it has room.
reset_runs :
    (t : SocketContext) × (q : IoContextPool) × (v : World) × (reset_socket small connected
        (pool, world)
      ≡ ok (t, (q, v)))
    × (q.list_io_context ≡ 5 ∷ 6 ∷ [])
unfolding reset_socket reset_io put_all put_io_context keep_or_delete store cleared
reset_runs = (_, _, _, refl, refl)

-- As the constructor leaves it, a context cannot be reset.
reset_undefined : reset_socket small (new_socket_context small []) (pool, world) ≡ undefined
unfolding reset_socket reset_io new_socket_context new_io_context
reset_undefined = refl
