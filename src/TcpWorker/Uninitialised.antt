-- ===== src/TcpWorker/Uninitialised.antt =====
-- The `sock_accept_` of a receiving context, which the constructor leaves uninitialised
-- (network/iocp_base.h), through the operations of a worker (network/iocp_tcpworkthread.h).
use lite_cpplib.Base.{
  ℕ, ◌≡◌, refl, sym, ap, ◌∙◌, Bool, Option, none, some, List, ◌==◌, inl, inr, some_inj,
  none_not_some, Bool-cases, Option-cases, List-cases, ok, undefined, defined, defined_ok, Ensures,
  Ensures-value, Ensures-undefined, Ensures-bind, Ensures-any, Ensures-if,
}
use lite_cpplib.IocpBase.{
  Layout, IoContext, IoOperation, Socket, World, IoContextPool, SocketContext, reset_io,
  reset_socket, remove_context, put_io_context, reset_buffer, new_io_context, new_socket_context,
}
use lite_cpplib.IocpBase.SocketPool.{
  Net, SocketContextPool, find, store_socket, get_socket_context, add_active_context,
  del_active_context, reset_context, get_active_context, clear_loop, clear_active_context,
}
use lite_cpplib.TcpWorker.{
  Service, report, id_of_context, set_io, set_socket, unbind, drop_context, drop_id, post_recv,
  post_send, post_accept, assert_valid, do_recv, do_send, Answers, adopt, do_accept, socket_id,
  connected,
}

-- The `sock_accept_` of every socket's receiving context is uninitialised.
pub record IsUnset (net : Net) : Type 0 where
  pub unset :
      (a : ℕ) (s : SocketContext) → net.sockets a ≡ some s → s.recv_context.sock_accept ≡ none

abbrev pub ServiceIsUnset : Service → Type 0
ServiceIsUnset v = IsUnset v.net

abbrev pub AnswerIsUnset : Bool × Service → Type 0
AnswerIsUnset r = IsUnset (r.1).net

store_socket-IsUnset :
    (context : ℕ) (t : SocketContext) (net : Net)
    → t.recv_context.sock_accept ≡ none
    → IsUnset net
    → IsUnset (store_socket context t net)
unfolding store_socket
store_socket-IsUnset context t net e h = record {
  unset = λ a s there. elim (Bool-cases (a == context)) [
    | inl at_it ↦
        let same : t ≡ s = some_inj (rw at_it at there) in
        ap (λ (r : SocketContext). r.recv_context.sock_accept) (sym same) ∙ e
    | inr away ↦ h.unset a s (rw away at there)
  ];
}

pub set_socket-IsUnset :
    (context : ℕ) (t : SocketContext) (v : Service)
    → t.recv_context.sock_accept ≡ none
    → ServiceIsUnset v
    → ServiceIsUnset (set_socket context t v)
unfolding set_socket
set_socket-IsUnset context t v e h = store_socket-IsUnset context t v.net e h

pub io-IsUnset :
    (io : IoContextPool × World) (net : Net) → IsUnset net → IsUnset (record net { io = io })
io-IsUnset io net h = record { unset = h.unset }

set_io-IsUnset :
    (io : ℕ) (c : IoContext) (v : Service) → ServiceIsUnset v → ServiceIsUnset (set_io io c v)
unfolding set_io
set_io-IsUnset io c v h = record { unset = h.unset }

module _ (y : Layout) where
  pub reset_context_undefined :
      (context : ℕ) (net : Net) → IsUnset net → reset_context y context net ≡ undefined
  unfolding reset_context reset_socket reset_io
  reset_context_undefined context net h = elim (Option-cases (net.sockets context)) [
    | inl gone ↦ rw gone refl
    | inr (s, alive) ↦ rw (alive, h.unset context s alive) refl
  ]

  pub unbind_undefined :
      (id context : ℕ) (v : Service)
      → ServiceIsUnset v
      → get_active_context id v.sp ≡ some context
      → unbind y id v ≡ undefined
  unfolding unbind del_active_context get_active_context
  unbind_undefined id context v h active =
      let found : find id v.sp.map_active ≡ some context = active in
      rw (found, unbind, del_active_context, reset_context_undefined context v.net h) refl

  pub clear_active_context_undefined :
      (id context : ℕ) (sp : SocketContextPool) (net : Net)
      → IsUnset net
      → get_active_context id sp ≡ some context
      → clear_active_context y (sp, net) ≡ undefined
  unfolding clear_active_context clear_loop get_active_context find
  clear_active_context_undefined id context sp net h active = elim (List-cases sp.map_active) [
    | inl e ↦ absurd (none_not_some (rw e at active))
    | inr ((k, c), rest, e) ↦ rw (e, reset_context_undefined c net h) refl
  ]

  -- An id that is not active is left alone, and else there is no outcome.
  pub unbind-IsUnset :
      (id : ℕ) (v : Service) → ServiceIsUnset v → Ensures ServiceIsUnset (unbind y id v)
  unfolding unbind del_active_context get_active_context
  unbind-IsUnset id v h = elim (Option-cases (find id v.sp.map_active)) [
    | inl none_there ↦
        let nothing : unbind y id v ≡ ok v = rw (none_there, unbind, del_active_context) refl in
        rw nothing (Ensures-value v h)
    | inr (context, found) ↦ rw (unbind_undefined id context v h found) Ensures-undefined
  ]

  pub drop_id-IsUnset :
      (id : ℕ) (v : Service) → ServiceIsUnset v → Ensures ServiceIsUnset (drop_id y id v)
  unfolding drop_id report
  drop_id-IsUnset id v h =
      Ensures-bind (unbind y id v) _ (unbind-IsUnset id v h) (λ v' k. Ensures-value _ k)

  drop_context-IsUnset :
      (context : ℕ) (v : Service)
      → ServiceIsUnset v
      → Ensures ServiceIsUnset (drop_context y context v)
  unfolding drop_context report
  drop_context-IsUnset context v h = Ensures-any (id_of_context context v) _ (λ id _.
      Ensures-bind (unbind y id v) _ (unbind-IsUnset id v h)
        (λ v' k. Ensures-any (id_of_context context v') _ (λ id' _. Ensures-value _ k)))

  post_recv-IsUnset :
      (context : ℕ) (posted : Bool) (v : Service)
      → ServiceIsUnset v
      → Ensures AnswerIsUnset (post_recv y context posted v)
  unfolding post_recv reset_buffer
  post_recv-IsUnset context posted v h = Ensures-any (defined (v.net.sockets context)) _ (λ s e.
      let armed =
        set_socket context
          (record s {
            recv_context = record (reset_buffer y s.recv_context) {
              operation = IoOperation.recv_posted;
            };
          })
          v in
      let k : ServiceIsUnset armed =
        set_socket-IsUnset context _ v (h.unset context s (defined_ok e)) h in
      Ensures-if posted (λ _. Ensures-value _ k)
        (λ _.
          Ensures-bind (drop_context y context armed) _ (drop_context-IsUnset context armed k)
            (λ v' k'. Ensures-value _ k')))

  pub post_send-IsUnset :
      (context io : ℕ) (posted : Bool) (v : Service)
      → ServiceIsUnset v
      → Ensures AnswerIsUnset (post_send y context io posted v)
  unfolding post_send
  post_send-IsUnset context io posted v h = Ensures-any (defined (v.net.sockets context)) _ (λ s _.
      Ensures-any (defined ((v.net.io).1.heap io)) _ (λ c _.
        let armed = set_io io (record c { operation = IoOperation.send_posted }) v in
        let k : ServiceIsUnset armed = set_io-IsUnset io _ v h in
        Ensures-if posted (λ _. Ensures-value _ k)
          (λ _.
            Ensures-bind (drop_context y context armed) _ (drop_context-IsUnset context armed k)
              (λ v' k'. Ensures-value _ k'))))

  pub post_accept-IsUnset :
      (context io : ℕ) (made : Socket) (posted : Bool) (v : Service)
      → ServiceIsUnset v
      → Ensures AnswerIsUnset (post_accept y context io made posted v)
  unfolding post_accept
  post_accept-IsUnset context io made posted v h =
      Ensures-any (defined (v.net.sockets context)) _ (λ s _.
        Ensures-any (assert_valid s.sock) _ (λ _ _.
          Ensures-any (defined ((v.net.io).1.heap io)) _
            (λ c _. Ensures-value _ (set_io-IsUnset io _ v h))))

  pub do_recv-IsUnset :
      (context : ℕ) (posted : Bool) (v : Service)
      → ServiceIsUnset v
      → Ensures AnswerIsUnset (do_recv y context posted v)
  unfolding do_recv report
  do_recv-IsUnset context posted v h =
      Ensures-any (defined (v.net.sockets context)) _
        (λ s _. post_recv-IsUnset context posted _ (record { unset = h.unset }))

  remove_context_receiving :
      (io : ℕ) (s : SocketContext) (pw : IoContextPool × World)
      → Ensures
          (λ (r : SocketContext × (IoContextPool × World)). r.0.recv_context ≡ s.recv_context)
          (remove_context y io s pw)
  unfolding remove_context
  remove_context_receiving io s pw =
      Ensures-any (put_io_context y io pw) _ (λ pw' _. Ensures-value _ refl)

  pub do_send-IsUnset :
      (context io : ℕ) (v : Service)
      → ServiceIsUnset v
      → Ensures ServiceIsUnset (do_send y context io v)
  unfolding do_send
  do_send-IsUnset context io v h = Ensures-any (defined (v.net.sockets context)) _ (λ s e.
      Ensures-bind (remove_context y io s v.net.io) _ (remove_context_receiving io s v.net.io)
        (λ (s', pool_io) same. Ensures-value _ (
          io-IsUnset pool_io _ (
            set_socket-IsUnset context s' v
              (ap (λ (c : IoContext). c.sock_accept) same ∙ h.unset context s (defined_ok e)) h))))

  pub get_socket_context-IsUnset :
      (fresh : List ℕ) (sp : SocketContextPool) (net : Net)
      → IsUnset net
      → IsUnset ((get_socket_context y fresh (sp, net)).1).1
  unfolding get_socket_context new_socket_context new_io_context
  get_socket_context-IsUnset fresh sp net h = elim (List-cases sp.list_idle) [
    | inl e ↦ rw e (record {
      unset = (store_socket-IsUnset net.next_socket (new_socket_context y fresh) net refl h).unset;
    })
    | inr (c, cs, e) ↦ rw e h
  ]

  pub adopt-IsUnset :
      (io : ℕ) (q : Answers) (v : Service)
      → ServiceIsUnset v
      → Ensures (λ (r : ℕ × Service). ServiceIsUnset (r.1)) (adopt y io q v)
  unfolding adopt
  adopt-IsUnset io q v h =
      let got = get_socket_context y q.fresh (v.sp, v.net) in
      let k : IsUnset (got.1).1 = get_socket_context-IsUnset q.fresh v.sp v.net h in
      Ensures-any (defined ((v.net.io).1.heap io)) _ (λ i _.
        Ensures-any (defined i.sock_accept) _ (λ sock _.
          Ensures-any (defined ((got.1).1.sockets got.0)) _ (λ s e.
            let v' : Service =
              set_socket (got.0)
                (record s { sock = sock; sock_id = socket_id sock; local_addr = q.remote_addr })
                (record v { sp = (got.1).0; net = (got.1).1 }) in
            let k' : ServiceIsUnset v' =
              set_socket-IsUnset (got.0) _ (record v { sp = (got.1).0; net = (got.1).1 })
                (k.unset (got.0) s (defined_ok e)) k in
            Ensures-any (add_active_context (got.0) (v'.sp, v'.net)) _
              (λ sp _. Ensures-value _ k'))))

  pub do_accept-IsUnset :
      (listening : Option ℕ) (io : ℕ) (q : Answers) (v : Service)
      → ServiceIsUnset v
      → Ensures AnswerIsUnset (do_accept y listening io q v)
  unfolding do_accept report
  do_accept-IsUnset listening io q v h =
      Ensures-bind (adopt y io q v) _ (adopt-IsUnset io q v h) (λ (context, v1) h1.
        Ensures-any (id_of_context context v1) _ (λ id _.
          Ensures-if q.associates
            (λ _.
              Ensures-bind (post_recv y context q.receives (report (connected id) v1)) _
                (post_recv-IsUnset context q.receives _ (record { unset = h1.unset }))
                (λ (posted, v2) h2.
                  Ensures-if posted
                    (λ _. Ensures-any (defined ((v2.net.io).1.heap io)) _ (λ c _.
                      Ensures-any (defined listening) _ (λ listener _.
                        post_accept-IsUnset listener io q.made q.accepts _
                          (set_io-IsUnset io (reset_buffer y c) v2 h2))))
                    (λ _.
                      Ensures-bind (drop_context y context v2) _
                        (drop_context-IsUnset context v2 h2) (λ v' k. Ensures-value _ k))))
            (λ _.
              Ensures-bind (unbind y id v1) _ (unbind-IsUnset id v1 h1)
                (λ v' k. Ensures-value _ k))))
