-- ===== src/UdpPeer/Tests.antt =====
-- A peer whose sockets are made with concrete answers.
use lite_cpplib.Base.{
  ℕ, ◌≡◌, ◌≢◌, refl, subst, inl, inr, ◌==◌, if◌then◌else◌, Bool-cases, some_inj, Bool, true, false,
  none, some, [], ◌∷◌, arith, ok, none_not_some,
}
use lite_cpplib.Event.{EventApi, Event, reset}
use lite_cpplib.Thread.{Thread, new_thread, start, create_thread}
use lite_cpplib.IocpBase.{Layout, IoContext, IoOperation, SocketContext, reset_buffer}
use lite_cpplib.IocpBase.Contexts.{Absent}
use lite_cpplib.IocpBase.SocketPool.Consistent.{IsConsistent, IsActive}
use lite_cpplib.TcpWorker.Run.{receiving_of, Dequeued, operation_of}
use lite_cpplib.UdpWorker.{
  post_recv_from, do_recv_from, receive_from, dispatch_udp, complete_udp, round_udp,
}
use lite_cpplib.IocpBase.SocketPool.{Net, find, get_active_context, store_socket}
use lite_cpplib.TcpWorker.{Service, received_from, report, set_socket}
use lite_cpplib.TcpWorker.Invariant.{IsSound}
use lite_cpplib.TcpServer.{new_service, new_workers}
use lite_cpplib.TcpClient.{start_all}
use lite_cpplib.UdpPeer.{UdpPeer, UdpAnswers, new_udp_peer, init_peer, start_peer, create_socket}
use lite_cpplib.UdpPeer.Reachable.{here, next, round_of, active_peers_apart}
use lite_cpplib.UdpPeer.Operations.{send_to_address}
use lite_cpplib.UdpPeer.Creating.{IsOpened, create_any_port}

abbrev small : Layout
small = record { sizeof_overlapped = 2; sizeof_sockaddr_in = 3 }

abbrev flag_api : EventApi
flag_api = record {
  State = Bool;
  created = false;
  set_event = λ _. true;
  reset_event = λ _. false;
  wait_object = λ s. s;
}

abbrev unset : Event flag_api
unset = record { event_handle = some false }

abbrev heap : Net
heap = record {
  sockets = λ _. none;
  next_socket = 40;
  io = (
    record { list_io_context = []; pool_size = 0 },
    record { heap = λ _. none; next = 100; closed = [] },
  );
}

abbrev service : Service
service = record {
  sp = record { list_idle = []; pool_size = 2000; map_active = [] };
  net = record heap { io = (record { list_io_context = []; pool_size = 1000 }, heap.io.1) };
  calls = [];
}

abbrev idle_worker : Thread flag_api
idle_worker = record { name = []; id = 0; event = unset; thread_handle = none }

abbrev worker : Thread flag_api
worker = record idle_worker { id = 5; thread_handle = some 9 }

abbrev peer : UdpPeer flag_api
peer = record {
  is_start = true;
  iocp_handle = true;
  workers = worker ∷ worker ∷ [];
  service = some service;
}

init_runs :
    init_peer flag_api small true true 1 heap unset (new_udp_peer flag_api small)
    ≡ ok (true, record peer { is_start = false; workers = idle_worker ∷ idle_worker ∷ [] })
unfolding init_peer new_udp_peer new_service new_workers new_thread
init_runs = refl

start_runs :
    start_peer flag_api small
      (λ _. some (9, 5))
      (λ _. 0)
      (record peer { is_start = false; workers = idle_worker ∷ idle_worker ∷ [] })
    ≡ ok (true, peer)
unfolding start_peer start_all start create_thread reset
start_runs = refl

not_created : send_to_address flag_api small 77 (b'h' ∷ []) 1 (0 ∷ []) true peer ≡ ok (false, peer)
unfolding send_to_address get_active_context find
not_created = refl

service-IsSound : IsSound service
unfolding find
service-IsSound = record {
  active = λ k c e. absurd (none_not_some e);
  live = tt;
  distinct = tt;
  bounded = omega arith;
}

-- The socket 77 is bound; the system has chosen the port 5000.
abbrev answers : UdpAnswers
answers = record {
  fresh = [];
  made = some 77;
  inet_addr = λ _. 16777343;
  htons = λ port. port;
  ntohs = λ port. port;
  bytes_of = λ a. a.sin_port ∷ a.sin_addr ∷ [];
  binds = λ _. true;
  sockname = some (record { sin_addr = 0; sin_port = 5000 });
  associates = true;
  receives = true;
}

abbrev refusing : UdpAnswers
refusing = record answers { binds = λ _. false }

create_any_port_example :
    (context : ℕ) × (w : Service) × (create_socket flag_api small
        (some worker)
        answers
        (b'*' ∷ [])
        0
        service
      ≡ ok (record { answer = true; sock_id = some 77; bind_port = 5000; left = w }))
    × IsOpened flag_api small service w 77 context (5000 ∷ 0 ∷ [])
    × IsSound w
create_any_port_example =
    create_any_port flag_api small worker answers (b'*' ∷ []) 77
      (record { sin_addr = 0; sin_port = 5000 }) service service-IsSound refl refl refl refl

-- Two bound sockets.
abbrev receiving : IoContext
receiving = record {
  overlapped = 1 ∷ 2 ∷ [];
  sock_accept = none;
  wsa_len = 10;
  buf = b'h' ∷ b'i' ∷ [];
  trans_len = 0;
  operation = IoOperation.recv_posted;
  remote_addr = 9 ∷ 9 ∷ 9 ∷ [];
  addr_size = 3;
}

abbrev first : SocketContext
first = record {
  sock = some 77;
  list_io_context = [];
  recv_context = receiving;
  local_addr = 1 ∷ 2 ∷ 3 ∷ [];
  sock_id = 77;
  is_listen_sock = false;
}

abbrev second : SocketContext
second = record first { sock = some 78; sock_id = 78 }

abbrev bound : Service
bound = record service {
  sp = record (service.sp) { map_active = (77, 40) ∷ (78, 41) ∷ [] };
  net = record (service.net) {
    sockets = λ a. if a == 40 then some first else if a == 41 then some second else none;
    next_socket = 42;
  };
}

active_there : (k c : ℕ) → find k bound.sp.map_active ≡ some c → IsActive bound.sp bound.net k c
unfolding find
active_there k c e = elim (Bool-cases (77 == k)) [
  | inl is_77 ↦
      let here_at : 40 ≡ c = some_inj (rw is_77 at e) in
      subst (λ n. IsActive bound.sp bound.net n c) (ground arith)
        (subst (λ n. IsActive bound.sp bound.net 77 n) here_at
          ((first, refl, refl, omega arith), tt))
  | inr not_77 ↦ elim (Bool-cases (78 == k)) [
    | inl is_78 ↦
        let here_at : 41 ≡ c = some_inj (rw (not_77, is_78) at e) in
        subst (λ n. IsActive bound.sp bound.net n c) (ground arith)
          (subst (λ n. IsActive bound.sp bound.net 78 n) here_at
            ((second, refl, refl, omega arith), tt))
    | inr not_78 ↦ absurd (none_not_some (rw (not_77, not_78) at e))
  ]
]

bound-IsSound : IsSound bound
bound-IsSound = record { active = active_there; live = tt; distinct = tt; bounded = omega arith }

-- The socket 77 has received two bytes.
abbrev received : Service
received =
    set_socket 40
      (record first {
        recv_context = record (reset_buffer small receiving) { remote_addr = 0 ∷ 0 ∷ 0 ∷ [] };
      })
      (report (received_from 77 (b'h' ∷ b'i' ∷ []) 2 (9 ∷ 9 ∷ 9 ∷ []))
        (set_socket 40 (record first { recv_context = record receiving { trans_len = 2 } }) bound))

abbrev two_bytes : Dequeued
two_bytes = record {
  ret = true;
  bytes = 2;
  key = some 77;
  overlapped = some (receiving_of 40);
  err = 0;
}

round_runs : round_udp small 0 two_bytes true bound ≡ ok (true, (77, received))
unfolding round_udp complete_udp operation_of dispatch_udp receive_from do_recv_from post_recv_from
    set_socket report store_socket get_active_context find reset_buffer
round_runs = refl

abbrev id_77 : ℕ
id_77 = 77

abbrev address_40 : ℕ
address_40 = 40

active_peers_apart_example :
    IsConsistent received.sp received.net
    × (id_77 ≢ 78 → address_40 ≢ 41)
    × Absent 40 received.sp.list_idle
    × ((s : SocketContext) × (received.net.sockets 40 ≡ some s) × (s.sock_id ≡ 77))
unfolding get_active_context find set_socket report
active_peers_apart_example =
    active_peers_apart flag_api small bound received 77 78 40 41 bound-IsSound
      (next here (round_of 0 two_bytes true bound true 77 received round_runs)) refl refl
