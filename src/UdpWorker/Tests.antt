-- ===== src/UdpWorker/Tests.antt =====
-- A bound socket, and a worker that is run on its completions.
use lite_cpplib.Base.{
  ℕ, ◌≡◌, refl, subst, inl, inr, Bool, true, false, none, some, List, [], ◌∷◌, ◌==◌, arith,
  if◌then◌else◌, Bool-cases, some_inj, none_not_some, ok,
}
use lite_cpplib.IocpBase.{Layout, IoContext, IoOperation, SocketContext, reset_buffer}
use lite_cpplib.IocpBase.SocketPool.{find, get_active_context, store_socket}
use lite_cpplib.IocpBase.SocketPool.Consistent.{IsActive}
use lite_cpplib.TcpWorker.{Service, received_from, report, set_socket}
use lite_cpplib.TcpWorker.Run.{receiving_of, Dequeued, operation_of}
use lite_cpplib.TcpWorker.Invariant.{IsSound}
use lite_cpplib.UdpWorker.{
  post_recv_from, do_recv_from, receive_from, dispatch_udp, complete_udp, round_udp, run_udp,
  handle_udp_error,
}
use lite_cpplib.UdpWorker.Keeping.{run_udp_keeps_sockets}
use lite_cpplib.UdpWorker.Receiving.{IsReceived, receive_completion}

abbrev small : Layout
small = record { sizeof_overlapped = 2; sizeof_sockaddr_in = 3 }

-- The bytes "hi" from the address 9.
abbrev receiving : IoContext
receiving = record {
  overlapped = 1 ∷ 2 ∷ [];
  sock_accept = none;
  wsa_len = 10;
  buf = b'h' ∷ b'i' ∷ [];
  trans_len = 2;
  operation = IoOperation.recv_posted;
  remote_addr = 9 ∷ 9 ∷ 9 ∷ [];
  addr_size = 3;
}

abbrev bound : SocketContext
bound = record {
  sock = some 77;
  list_io_context = [];
  recv_context = receiving;
  local_addr = 1 ∷ 2 ∷ 3 ∷ [];
  sock_id = 77;
  is_listen_sock = false;
}

abbrev service : Service
service = record {
  sp = record { list_idle = []; pool_size = 2; map_active = (77, 42) ∷ [] };
  net = record {
    sockets = λ a. if a == 42 then some bound else none;
    next_socket = 43;
    io = (
      record { list_io_context = []; pool_size = 2 },
      record { heap = λ a. none; next = 100; closed = [] },
    );
  };
  calls = [];
}

active_there :
    (k c : ℕ) → find k service.sp.map_active ≡ some c → IsActive service.sp service.net k c
unfolding find
active_there k c e = elim (Bool-cases (77 == k)) [
  | inl is_77 ↦
      let here_at : 42 ≡ c = some_inj (rw is_77 at e) in
      subst (λ n. IsActive service.sp service.net n c) (ground arith)
        (subst (λ n. IsActive service.sp service.net 77 n) here_at
          ((bound, refl, refl, omega arith), tt))
  | inr not_77 ↦ absurd (none_not_some (rw not_77 at e))
]

service-IsSound : IsSound service
service-IsSound = record { active = active_there; live = tt; distinct = tt; bounded = omega arith }

receive_completion_example :
    (w : Service) × (round_udp small 0
        (record {
          ret = true;
          key = some 77;
          bytes = 2;
          overlapped = some (receiving_of 42);
          err = 0;
        })
        true
        service
      ≡ ok (true, (77, w)))
    × IsReceived small service w 77 42 bound 2
unfolding get_active_context find
receive_completion_example =
    receive_completion small 0 77 42 2 0 true service bound service-IsSound refl refl refl

-- A receive of no bytes, and a wait that fails otherwise than by the time
abbrev rounds : List (Dequeued × Bool)
rounds =
    (
      record { ret = true; bytes = 0; key = some 77; overlapped = some (receiving_of 42); err = 0 },
      true,
    )
    ∷ (record { ret = false; bytes = 0; key = some 77; overlapped = none; err = 5 }, true)
    ∷ []

-- What the socket's context is after it has received no bytes
abbrev again : SocketContext
again = record bound {
  recv_context = record (reset_buffer small receiving) { remote_addr = 0 ∷ 0 ∷ 0 ∷ [] };
}

abbrev after : Service
after = set_socket 42 again (
    report (received_from 77 (b'h' ∷ b'i' ∷ []) 0 (9 ∷ 9 ∷ 9 ∷ []))
      (set_socket 42 (record bound { recv_context = record receiving { trans_len = 0 } }) service))

rounds_run : run_udp small 0 rounds service ≡ ok after
unfolding run_udp round_udp complete_udp operation_of dispatch_udp receive_from do_recv_from
    post_recv_from set_socket report store_socket get_active_context find handle_udp_error
    reset_buffer
rounds_run = refl

run_udp_keeps_sockets_example :
    IsSound after
    × (after.sp ≡ service.sp)
    × (get_active_context 77 after.sp ≡ get_active_context 77 service.sp)
run_udp_keeps_sockets_example =
    run_udp_keeps_sockets small 0 77 rounds service after service-IsSound rounds_run
