-- ===== src/TcpServer/Tests.antt =====
-- A server that is opened, started, sends, and is stopped, with concrete answers.
use lite_cpplib.Base.{
  none_not_some, suc, List, ℕ, ◌≡◌, refl, Bool, true, false, none, some, [], ◌∷◌, ◌++◌, length,
  take, arith, ◌==◌, if◌then◌else◌, ok, undefined, ◌&&◌,
}
use lite_cpplib.Event.{EventApi, Event, reset}
use lite_cpplib.Thread.{new_thread, start, create_thread, Thread, wait_object_0, ended}
use lite_cpplib.IocpBase.{
  new_socket_context, new_io_context, get_io_context, store, Layout, IoContext, IoOperation,
  SocketContext,
}
use lite_cpplib.IocpBase.SocketPool.{
  store_socket, insert, get_socket_context, add_active_context, Net, find, get_active_context,
}
use lite_cpplib.TcpWorker.{set_io, set_socket, post_accept, assert_valid, Service}
use lite_cpplib.TcpServer.{
  init, initialize_listen_socket, new_service, new_workers, TcpServer, ListenAnswers, InitAnswers,
  new_tcp_server, opens, host_addr, get_local_ip,
}
use lite_cpplib.TcpServer.Operations.{
  start_loop, listen_once, StartAnswers, start_server, send, StopAnswers, infinite, stop_server,
}
use lite_cpplib.Event.Windows.{IsDocumented}
use lite_cpplib.Thread.Stopping.{IsEnding, has_ended}
use lite_cpplib.IocpBase.Contexts.{IsPool}
use lite_cpplib.TcpServer.Opening.{chosen_ip, IsGranted, IsListening, init_failure_undefined}
use lite_cpplib.TcpServer.Starting.{AllPrepared, AllStarted}
use lite_cpplib.TcpServer.Running.{init_then_start}
use lite_cpplib.TcpServer.Sending.{send_lem, send_too_long}
use lite_cpplib.TcpWorker.Uninitialised.{IsUnset}
use lite_cpplib.TcpWorker.Closing.{begin}
use lite_cpplib.TcpServer.Halting.{init_start_stop}

abbrev small : Layout
small = record { sizeof_overlapped = 2; sizeof_sockaddr_in = 3 }

abbrev flag_api : EventApi
flag_api = record {
  State = Bool;
  created = false;
  set_event = λ _. true;
  reset_event = λ _. false;
  wait_object = λ s. s;
}

flag_api-IsDocumented : IsDocumented flag_api
flag_api-IsDocumented = record {
  created_unset = refl;
  set_signals = λ _. refl;
  reset_clears = λ _. refl;
}

abbrev unset : Event flag_api
unset = record { event_handle = some false }

-- The socket 4 can be bound to port 8080 of any address.
abbrev listen_answers : ListenAnswers
listen_answers = record {
  fresh = [];
  made = some 4;
  associates = true;
  inet_addr = λ _. 16777343;
  htons = λ port. port;
  binds = λ a. (a.sin_addr == 0) && (a.sin_port == 8080);
  listens = true;
  gets_acceptex = true;
  gets_sockaddrs = true;
}

abbrev init_answers : InitAnswers
init_answers = record {
  received_given = true;
  disconnected_given = true;
  host_given = some (b'*' ∷ []);
  inet_ntoa = none;
  creates_iocp = true;
  listen = listen_answers;
  processors = 1;
}

init_answers-IsGranted : IsGranted init_answers 4
init_answers-IsGranted = record {
  received_given = refl;
  disconnected_given = refl;
  creates_iocp = refl;
  made = refl;
}

abbrev heap : Net
heap = record {
  sockets = λ _. none;
  next_socket = 40;
  io = (
    record { list_io_context = []; pool_size = 0 },
    record { heap = λ _. none; next = 100; closed = [] },
  );
}

abbrev start_answers : ℕ → StartAnswers
start_answers k = record {
  thread_made = some (9, 5);
  resumed = 0;
  accept_made = some 78;
  accepts = true;
}

made_all : (k : ℕ) → (made : ℕ × ℕ) × ((start_answers k).thread_made ≡ some made)
made_all k = ((9, 5), refl)

-- Without an address the local one is taken, which the socket cannot be bound to.
local_ip_fails : opens flag_api small listen_answers (get_local_ip none) 8080 ≡ false
unfolding opens host_addr get_local_ip
local_ip_fails = refl

can_open : opens flag_api small listen_answers (chosen_ip init_answers) 8080 ≡ true
unfolding opens host_addr
can_open = refl

cannot_open : opens flag_api small listen_answers (chosen_ip init_answers) 80 ≡ false
unfolding opens host_addr
cannot_open = refl

init_failure_undefined_example :
    init flag_api small init_answers 80 heap unset (new_tcp_server flag_api small 0) ≡ undefined
init_failure_undefined_example =
    init_failure_undefined small flag_api init_answers 80 heap unset
      (new_tcp_server flag_api small 0) 4 init_answers-IsGranted cannot_open

init_then_start_example :
    (server server' : TcpServer flag_api) × (w : Service) × (context : ℕ) × (v : Service)
    × (listening : IsListening v 4 context) × (init flag_api small init_answers 8080 heap unset
          (new_tcp_server flag_api small 0)
        ≡ ok (true, server))
    × (start_server flag_api small start_answers server ≡ ok (true, server'))
    × (server'.service ≡ some w)
    × (server'.is_start ≡ true)
    × AllStarted flag_api small server'.workers
    × (length server'.workers ≡ 2)
    × (w.net.sockets context
        ≡ some (record (listening.socket) {
          list_io_context = listening.socket.list_io_context ++ (100 ∷ 101 ∷ []);
        }))
    × AllPrepared (w.net.io).1 start_answers (100 ∷ 101 ∷ [])
    × (get_active_context 4 w.sp ≡ some context)
init_then_start_example =
    init_then_start flag_api small init_answers 8080 0 4 heap unset start_answers
      init_answers-IsGranted can_open refl made_all

-- A running server with the listening socket 4 and the client 77
abbrev receiving : IoContext
receiving = record {
  overlapped = [];
  sock_accept = none;
  wsa_len = 4096;
  buf = [];
  trans_len = 0;
  operation = IoOperation.recv_posted;
  remote_addr = [];
  addr_size = 3;
}

abbrev listener : SocketContext
listener = record {
  sock = some 4;
  list_io_context = [];
  recv_context = receiving;
  local_addr = [];
  sock_id = 4;
  is_listen_sock = true;
}

abbrev client : SocketContext
client = record listener { sock = some 77; sock_id = 77; is_listen_sock = false }

abbrev service : Service
service = record {
  sp = record { list_idle = []; pool_size = 2; map_active = (4, 40) ∷ (77, 41) ∷ [] };
  net = record {
    sockets = λ a. if a == 40 then some listener else if a == 41 then some client else none;
    next_socket = 42;
    io = (
      record { list_io_context = []; pool_size = 2 },
      record { heap = λ _. none; next = 100; closed = [] },
    );
  };
  calls = [];
}

abbrev worker : Thread flag_api
worker = record { name = []; id = 5; event = unset; thread_handle = some 9 }

abbrev server : TcpServer flag_api
server = record {
  is_start = true;
  iocp_handle = true;
  listen_port = 8080;
  host_ip = b'*' ∷ [];
  workers = worker ∷ [];
  listen_context = some 40;
  service = some service;
}

nothing_pooled : IsPool small (service.net.io).0 (service.net.io).1
nothing_pooled = record { pooled = tt; distinct = tt; bounded = omega arith }

send_lem_example :
    (io : ℕ) × (w : Service) × (c : IoContext) × (send flag_api small 77
        (b'h' ∷ b'i' ∷ b'!' ∷ [])
        2
        true
        server
      ≡ ok (true, record server { service = some w }))
    × ((w.net.io).1.heap io ≡ some c)
    × (c.operation ≡ IoOperation.send_posted)
    × (c.wsa_len ≡ 2)
    × (take 2 c.buf ≡ b'h' ∷ b'i' ∷ [])
    × (w.net.sockets 41 ≡ some (record client { list_io_context = io ∷ [] }))
    × (w.sp ≡ service.sp)
    × (w.calls ≡ [])
unfolding get_active_context find
send_lem_example =
    send_lem flag_api small 77 41 2 (b'h' ∷ b'i' ∷ b'!' ∷ []) server service client worker [] refl
      refl refl refl refl nothing_pooled (omega arith) (omega arith)

send_too_long_example : send flag_api small 77 (b'h' ∷ []) 5000 true server ≡ undefined
unfolding get_active_context find
send_too_long_example =
    send_too_long flag_api small 77 41 5000 (b'h' ∷ []) true server service refl refl refl
      nothing_pooled (omega arith)

-- The thread ends at the first look.
abbrev stop_answers : StopAnswers
stop_answers = record {
  t1 = 0;
  resumptions = record { result = 0; ticks = 1 } ∷ [];
  looks = record { ticks = 2; result = wait_object_0 } ∷ [];
}

stop_answers-IsEnding :
    IsEnding infinite stop_answers.t1 stop_answers.resumptions stop_answers.looks
stop_answers-IsEnding = record {
  suspended = 0;
  counts = (refl, tt);
  enough = omega arith;
  before = [];
  last = record { ticks = 2; result = wait_object_0 };
  after = [];
  splits = refl;
  running = tt;
  left = ended;
  decides = has_ended (omega arith) refl;
}

-- What Init makes: the listening socket 4 in the context 40
abbrev listening : SocketContext
listening = record (new_socket_context small []) {
  is_listen_sock = true;
  sock = some 4;
  sock_id = 4;
}

abbrev made_service : Service
made_service = record {
  sp = record { list_idle = []; pool_size = 2000; map_active = [] };
  net =
      record (store_socket 40 (new_socket_context small [])
        (record heap { io = (record { list_io_context = []; pool_size = 1000 }, heap.io.1) })) {
          next_socket = 41;
        };
  calls = [];
}

abbrev opened_service : Service
opened_service = record (set_socket 40 listening made_service) {
  sp = record (made_service.sp) { map_active = (4, 40) ∷ [] };
}

-- What the loop of Start makes for one worker
abbrev prepared : ℕ → List ℕ → Service → Service
prepared io ios v =
    set_io io
      (record (new_io_context small) {
        operation = IoOperation.accept_posted;
        sock_accept = some (some 78);
      })
      (set_socket 40 (record listening { list_io_context = ios })
        (record v {
          net = record (v.net) {
            io = (
              (v.net.io).0,
              record (store io (some (new_io_context small)) (v.net.io).1) { next = suc io },
            );
          };
        }))

abbrev started_service : Service
started_service = prepared 101 (100 ∷ 101 ∷ []) (prepared 100 (100 ∷ []) opened_service)

abbrev opened_server : TcpServer flag_api
opened_server = record server {
  is_start = false;
  workers =
      record worker { id = 0; thread_handle = none }
      ∷ record worker { id = 0; thread_handle = none }
      ∷ [];
  service = some opened_service;
}

abbrev started_server : TcpServer flag_api
started_server = record server { workers = worker ∷ worker ∷ []; service = some started_service }

init_runs :
    init flag_api small init_answers 8080 heap unset (new_tcp_server flag_api small 0)
    ≡ ok (true, opened_server)
unfolding init initialize_listen_socket new_tcp_server new_service new_workers new_thread opens
    host_addr get_socket_context set_socket add_active_context store_socket insert
    new_socket_context new_io_context
init_runs = refl

start_runs : start_server flag_api small start_answers opened_server ≡ ok (true, started_server)
unfolding start_server start_loop listen_once start create_thread reset get_io_context set_socket
    post_accept assert_valid set_io store store_socket new_socket_context
start_runs = refl

heap-IsUnset : IsUnset heap
heap-IsUnset = record { unset = λ a s there. absurd (none_not_some there) }

init_start_stop_example : stop_server flag_api small (λ _. stop_answers) started_server ≡ undefined
unfolding get_active_context find set_io set_socket
init_start_stop_example =
    init_start_stop flag_api flag_api-IsDocumented small init_answers 8080 heap unset
      (new_tcp_server flag_api small 0) opened_server started_server true true start_answers
      (λ _. stop_answers) started_service started_service 4 40 40 heap-IsUnset init_runs start_runs
      refl refl refl begin refl
      (stop_answers-IsEnding, (false, refl), (stop_answers-IsEnding, (false, refl), tt))
