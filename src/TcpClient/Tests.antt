-- ===== src/TcpClient/Tests.antt =====
-- A client that is made, started and connected with concrete answers.
use lite_cpplib.Base.{
  ℕ, ◌≡◌, refl, Bool, true, false, none, some, [], ◌∷◌, arith, ok, none_not_some,
}
use lite_cpplib.Event.{EventApi, Event, reset}
use lite_cpplib.Thread.{Thread, new_thread, start, create_thread}
use lite_cpplib.IocpBase.{Layout}
use lite_cpplib.IocpBase.SocketPool.{Net, find, get_active_context}
use lite_cpplib.TcpWorker.{Service}
use lite_cpplib.TcpWorker.Invariant.{IsSound}
use lite_cpplib.TcpServer.{new_service, new_workers}
use lite_cpplib.TcpClient.{
  TcpClient, ConnectAnswers, new_tcp_client, init_client, start_all, start_client, connect, send_to,
}
use lite_cpplib.TcpClient.Connecting.{IsJoined, connect_lem}

abbrev small : Layout
small = record { sizeof_overlapped = 2; sizeof_sockaddr_in = 3 }

abbrev flag_api : EventApi
flag_api = record {
  State = Bool;
  created = false;
  set_event = λ _. true;
  reset_event = λ _. false;
  wait_object = λ s. s;
}

abbrev unset : Event flag_api
unset = record { event_handle = some false }

abbrev heap : Net
heap = record {
  sockets = λ _. none;
  next_socket = 40;
  io = (
    record { list_io_context = []; pool_size = 0 },
    record { heap = λ _. none; next = 100; closed = [] },
  );
}

abbrev service : Service
service = record {
  sp = record { list_idle = []; pool_size = 2000; map_active = [] };
  net = record heap { io = (record { list_io_context = []; pool_size = 1000 }, heap.io.1) };
  calls = [];
}

abbrev idle_worker : Thread flag_api
idle_worker = record { name = []; id = 0; event = unset; thread_handle = none }

abbrev worker : Thread flag_api
worker = record idle_worker { id = 5; thread_handle = some 9 }

abbrev client : TcpClient flag_api
client = record {
  is_start = true;
  iocp_handle = true;
  workers = worker ∷ worker ∷ [];
  service = some service;
}

init_runs :
    init_client flag_api small true true true 1 heap unset (new_tcp_client flag_api small)
    ≡ ok (true, record client { is_start = false; workers = idle_worker ∷ idle_worker ∷ [] })
unfolding init_client new_tcp_client new_service new_workers new_thread
init_runs = refl

start_runs :
    start_client flag_api small
      (λ _. some (9, 5))
      (λ _. 0)
      (record client { is_start = false; workers = idle_worker ∷ idle_worker ∷ [] })
    ≡ ok (true, client)
unfolding start_client start_all start create_thread reset
start_runs = refl

service-IsSound : IsSound service
unfolding find
service-IsSound = record {
  active = λ k c e. absurd (none_not_some e);
  live = tt;
  distinct = tt;
  bounded = omega arith;
}

-- The socket 77 connects to 127.0.0.1.
abbrev answers : ConnectAnswers
answers = record {
  fresh = [];
  made = some 77;
  inet_addr = λ _. 16777343;
  htons = λ port. port;
  bytes_of = λ a. a.sin_port ∷ a.sin_addr ∷ [];
  connects = λ _. true;
  associates = true;
  receives = true;
}

not_connected : send_to flag_api small 77 (b'h' ∷ []) 1 true client ≡ ok (false, client)
unfolding send_to get_active_context find
not_connected = refl

connect_lem_example :
    (context : ℕ) × (w : Service) × (connect flag_api small answers (b'1' ∷ []) 80 client
      ≡ ok (true, (some 77, record client { service = some w })))
    × IsJoined flag_api small service w 77 context
    × IsSound w
connect_lem_example =
    connect_lem flag_api small answers (b'1' ∷ []) 80 77 client service worker (worker ∷ []) refl
      refl refl service-IsSound refl refl refl refl
