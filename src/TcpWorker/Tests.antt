-- ===== src/TcpWorker/Tests.antt =====
-- A server with a listening and a connected socket, run on completions.
use lite_cpplib.Base.{
  ℕ, ◌≡◌, ◌≢◌, refl, sym, ap, undefined, subst, inl, inr, true, false, none, some, List, [], ◌∷◌,
  ◌==◌, arith, if◌then◌else◌, Bool-cases, some_inj, none_not_some, Outcome, ok,
}
use lite_cpplib.IocpBase.{Layout, IoContext, IoOperation, SocketContext, reset_buffer}
use lite_cpplib.IocpBase.Contexts.{IsPool, Absent}
use lite_cpplib.IocpBase.SocketPool.{
  Net, SocketContextPool, find, get_active_context, clear_active_context, store_socket,
}
use lite_cpplib.IocpBase.SocketPool.Consistent.{IsConsistent, IsActive}
use lite_cpplib.TcpWorker.{
  Service, Callback, connected, received, Answers, do_recv, do_accept, post_recv, unbind, report,
  set_socket,
}
use lite_cpplib.TcpWorker.Run.{
  receiving_of, Dequeued, operation_of, round, run, receive, dispatch, complete,
}
use lite_cpplib.TcpWorker.Invariant.{IsSound}
use lite_cpplib.TcpWorker.Reachable.{fills_heap, round_of, here, next, active_sockets_apart}
use lite_cpplib.TcpWorker.Accepting.{IsAdopted, do_accept_lem}
use lite_cpplib.TcpWorker.Uninitialised.{ServiceIsUnset}
use lite_cpplib.TcpWorker.Closing.{Course, begin, go_on, closing_undefined, failed_accept_undefined}

abbrev small : Layout
small = record { sizeof_overlapped = 2; sizeof_sockaddr_in = 3 }

-- A context whose last operation accepted the socket 78.
abbrev accepting : IoContext
accepting = record {
  overlapped = 1 ∷ 2 ∷ [];
  sock_accept = some (some 78);
  wsa_len = 10;
  buf = [];
  trans_len = 10;
  operation = IoOperation.accept_posted;
  remote_addr = 9 ∷ 9 ∷ 9 ∷ [];
  addr_size = 3;
}

abbrev receiving : IoContext
receiving = record accepting {
  buf = b'h' ∷ b'i' ∷ [];
  trans_len = 2;
  operation = IoOperation.recv_posted;
  sock_accept = none;
}

abbrev listener : SocketContext
listener = record {
  sock = some 4;
  list_io_context = 6 ∷ [];
  recv_context = record accepting { sock_accept = none };
  local_addr = [];
  sock_id = 4;
  is_listen_sock = true;
}

abbrev client : SocketContext
client = record {
  sock = some 77;
  list_io_context = [];
  recv_context = receiving;
  local_addr = 1 ∷ 2 ∷ 3 ∷ [];
  sock_id = 77;
  is_listen_sock = false;
}

abbrev idle : SocketContext
idle = record client { sock = none; sock_id = 0 }

abbrev net : Net
net = record {
  sockets = λ a.
      if a == 40
      then some listener
      else if a == 41
      then some idle
      else if a == 42
      then some client
      else none;
  next_socket = 43;
  io = (
    record { list_io_context = []; pool_size = 2 },
    record { heap = λ a. some accepting; next = 100; closed = [] },
  );
}

abbrev sp : SocketContextPool
sp = record { list_idle = 41 ∷ []; pool_size = 2; map_active = (4, 40) ∷ (77, 42) ∷ [] }

abbrev service : Service
service = record { sp = sp; net = net; calls = [] }

nothing_pooled : IsPool small (net.io).0 (net.io).1
nothing_pooled = record { pooled = tt; distinct = tt; bounded = omega arith }

active_there : (k c : ℕ) → find k sp.map_active ≡ some c → IsActive sp net k c
unfolding find
active_there k c e = elim (Bool-cases (4 == k)) [
  | inl is_4 ↦
      let here_at : 40 ≡ c = some_inj (rw is_4 at e) in
      subst (λ n. IsActive sp net n c) (ground arith)
        (subst (λ n. IsActive sp net 4 n) here_at ((listener, refl, refl, omega arith), (refl, tt)))
  | inr not_4 ↦ elim (Bool-cases (77 == k)) [
    | inl is_77 ↦
        let here_at : 42 ≡ c = some_inj (rw (not_4, is_77) at e) in
        subst (λ n. IsActive sp net n c) (ground arith)
          (subst (λ n. IsActive sp net 77 n) here_at
            ((client, refl, refl, omega arith), (refl, tt)))
    | inr not_77 ↦ absurd (none_not_some (rw (not_4, not_77) at e))
  ]
]

service-IsSound : IsSound service
service-IsSound = record {
  active = active_there;
  live = ((idle, refl, omega arith), tt);
  distinct = (tt, tt);
  bounded = omega arith;
}

-- All calls of the system succeed.
abbrev answers : Answers
answers = record {
  fresh = [];
  remote_addr = 7 ∷ 7 ∷ 7 ∷ [];
  associates = true;
  receives = true;
  made = some 79;
  accepts = true;
  send_fails = false;
}

-- Two bytes have come for the client.
abbrev two_bytes : Dequeued
two_bytes = record {
  ret = true;
  key = some 77;
  bytes = 2;
  overlapped = some (receiving_of 42);
  err = 0;
}

-- The client has closed the connection.
abbrev no_bytes : Dequeued
no_bytes = record two_bytes { bytes = 0 }

calls_of : Outcome Service → List Callback
calls_of (ok v) = v.calls
calls_of m = []

run_reports :
    calls_of (run small 0 ((two_bytes, answers) ∷ []) service)
    ≡ received 77 (b'h' ∷ b'i' ∷ []) 2 ∷ []
unfolding run round receive dispatch complete do_recv post_recv report set_socket operation_of
    get_active_context find store_socket reset_buffer calls_of
run_reports = refl

-- The ids as numbers, for `≢`
abbrev id_4 : ℕ
id_4 = 4

abbrev id_0 : ℕ
id_0 = 0

abbrev address_40 : ℕ
address_40 = 40

one_77 : id_4 ≢ 77
one_77 h = omega arith

active_sockets_apart_example :
    IsConsistent service.sp service.net
    × (id_4 ≢ 77 → address_40 ≢ 42)
    × Absent 40 service.sp.list_idle
    × ((s : SocketContext) × (net.sockets 40 ≡ some s) × (s.sock_id ≡ 4))
unfolding get_active_context find
active_sockets_apart_example =
    active_sockets_apart small service service 4 77 40 42 service-IsSound
      (next here (fills_heap net.io service)) refl refl

do_accept_lem_example :
    (context : ℕ) × (w : Service) × (s : SocketContext) × (do_accept small
        (some 40)
        6
        answers
        service
      ≡ ok (true, w))
    × IsAdopted service w context (some 78) s
    × (s.recv_context.operation ≡ IoOperation.recv_posted)
    × (w.calls ≡ connected 78 ∷ [])
    × ((d : IoContext) × ((w.net.io).1.heap 6 ≡ some d)
        × (d.operation ≡ IoOperation.accept_posted)
        × (d.sock_accept ≡ some (some 79))
        × (d.trans_len ≡ 0))
unfolding get_active_context find
do_accept_lem_example =
    do_accept_lem small 4 40 6 answers service accepting 78 79 4 listener service-IsSound refl refl
      refl refl refl refl refl refl

service-IsUnset : ServiceIsUnset service
service-IsUnset = record {
  unset = λ a s there. elim (Bool-cases (a == 40)) [
    | inl at_40 ↦
        let same : listener ≡ s = some_inj (rw at_40 at there) in
        ap (λ (r : SocketContext). r.recv_context.sock_accept) (sym same)
    | inr not_40 ↦ elim (Bool-cases (a == 41)) [
      | inl at_41 ↦
          let same : idle ≡ s = some_inj (rw (not_40, at_41) at there) in
          ap (λ (r : SocketContext). r.recv_context.sock_accept) (sym same)
      | inr not_41 ↦ elim (Bool-cases (a == 42)) [
        | inl at_42 ↦
            let same : client ≡ s = some_inj (rw (not_40, not_41, at_42) at there) in
            ap (λ (r : SocketContext). r.recv_context.sock_accept) (sym same)
        | inr not_42 ↦ absurd (none_not_some (rw (not_40, not_41, not_42) at there))
      ]
    ]
  ];
}

-- The client's bytes have been handed over.
abbrev after : Service
after =
    set_socket 42
      (record client {
        recv_context = record (reset_buffer small receiving) {
          operation = IoOperation.recv_posted;
        };
      })
      (report (received 77 (b'h' ∷ b'i' ∷ []) 2) (
        set_socket 42 (record client { recv_context = record receiving { trans_len = 2 } })
          service))

round_runs : round small 0 two_bytes answers service ≡ ok (true, (77, after))
unfolding round complete operation_of dispatch receive do_recv post_recv set_socket report
    store_socket get_active_context find reset_buffer
round_runs = refl

course : Course small service after
course = go_on begin (round_of 0 two_bytes answers service true 77 after round_runs) tt

closing_undefined_example :
    (unbind small 77 after ≡ undefined)
    × (round small 0 no_bytes answers after ≡ undefined)
    × (do_recv small 42 false after ≡ undefined)
    × (clear_active_context small (after.sp, after.net) ≡ undefined)
unfolding get_active_context find set_socket store_socket report operation_of reset_buffer
closing_undefined_example =
    closing_undefined small service after 0 77 42 no_bytes answers (receiving_of 42)
      IoOperation.recv_posted service-IsSound service-IsUnset course refl refl refl refl refl refl
      refl

failed_accept_undefined_example :
    do_accept small (some 40) 6 (record answers { receives = false }) after ≡ undefined
unfolding set_socket store_socket report
failed_accept_undefined_example =
    failed_accept_undefined small service after (some 40) 6 (record answers { receives = false })
      accepting (some 78) service-IsSound service-IsUnset course refl refl refl
