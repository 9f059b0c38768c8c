-- ===== src/TcpServer/Unset.antt =====
-- Init and Start of a server (network/iocp_tcpserver.h) set no receiving context's `sock_accept_`.
use lite_cpplib.Base.{
  ℕ, suc, ◌∙◌, ◌*◌, ◌≡◌, sym, subst, refl, Bool, true, false, some, List, [], ◌∷◌, ◌++◌, some_inj,
  if◌then◌else◌, ◌&&◌, ok, undefined, defined, defined_ok, Ensures, Ensures-value, Ensures-bind,
  Ensures-any, Ensures-if, Ensures-option, List-cases, inl, inr,
}
use lite_cpplib.Event.{EventApi, Event}
use lite_cpplib.Thread.{Thread, start}
use lite_cpplib.IocpBase.{Layout, get_io_context}
use lite_cpplib.IocpBase.SocketPool.{Net, get_socket_context, add_active_context}
use lite_cpplib.TcpWorker.{Service, set_socket, socket_id, unbind, post_accept}
use lite_cpplib.TcpWorker.Uninitialised.{
  IsUnset, ServiceIsUnset, set_socket-IsUnset, io-IsUnset, unbind-IsUnset,
  get_socket_context-IsUnset, post_accept-IsUnset,
}
use lite_cpplib.TcpServer.{
  TcpServer, ListenAnswers, InitAnswers, new_service, opens, initialize_listen_socket, new_workers,
  init, worker_threads_per_processor,
}
use lite_cpplib.TcpServer.Opening.{chosen_ip}
use lite_cpplib.TcpServer.Operations.{StartAnswers, listen_once, start_loop, start_server}

-- The state of the server's workers, if there is one, has all receiving contexts unset.
pub record ServerIsUnset (api : EventApi) (server : TcpServer api) : Type 0 where
  pub state : (v : Service) → server.service ≡ some v → ServiceIsUnset v

module _ (api : EventApi) (y : Layout) where
  holds_state :
      (server : TcpServer api) (v : Service)
      → server.service ≡ some v
      → ServiceIsUnset v
      → ServerIsUnset api server
  holds_state server v has h = record {
    state = λ w e. subst ServiceIsUnset (some_inj (sym has ∙ e)) h;
  }

  initialize_listen_socket-IsUnset :
      (q : ListenAnswers) (host_ip : List ℕ) (port : ℕ) (v : Service)
      → ServiceIsUnset v
      → Ensures
          (λ (r : Bool × (ℕ × Service)). ServiceIsUnset (r.1).1)
          (initialize_listen_socket api y q host_ip port v)
  unfolding initialize_listen_socket
  initialize_listen_socket-IsUnset q host_ip port v h =
      let got = get_socket_context y q.fresh (v.sp, v.net) in
      let v0 : Service = record v { sp = (got.1).0; net = (got.1).1 } in
      let k : ServiceIsUnset v0 = get_socket_context-IsUnset y q.fresh v.sp v.net h in
      Ensures-any (defined ((got.1).1.sockets got.0)) _ (λ s e.
        let unset = k.unset (got.0) s (defined_ok e) in
        let v1 : Service =
          set_socket (got.0)
            (record s { is_listen_sock = true; sock = q.made; sock_id = socket_id q.made }) v0 in
        let k1 : ServiceIsUnset v1 = set_socket-IsUnset (got.0) _ v0 unset k in
        Ensures-option q.made (Ensures-value _ (set_socket-IsUnset (got.0) _ v0 unset k)) (λ _.
          Ensures-any (add_active_context (got.0) (v1.sp, v1.net)) _ (λ sp _.
            let v2 : Service = record v1 { sp = sp } in
            let k2 : ServiceIsUnset v2 = record { unset = k1.unset } in
            Ensures-if (opens api y q host_ip port) (λ _. Ensures-value _ k2)
              (λ _.
                Ensures-bind (unbind y (socket_id q.made) v2) _
                  (unbind-IsUnset y (socket_id q.made) v2 k2) (λ v3 k3. Ensures-value _ k3)))))

  pub init-IsUnset :
      (q : InitAnswers) (port : ℕ) (heap : Net) (event : Event api) (server : TcpServer api)
      → IsUnset heap
      → Ensures
          (λ (r : Bool × TcpServer api). ServerIsUnset api (r.1))
          (init api y q port heap event server)
  unfolding init
  init-IsUnset q port heap event server h =
      let v : Service = new_service api y heap in
      let k : ServiceIsUnset v = record { unset = h.unset } in
      Ensures-any (if q.received_given && q.disconnected_given then ok tt else undefined) _ (λ _ _.
        Ensures-if q.creates_iocp
          (λ _.
            Ensures-bind (initialize_listen_socket api y q.listen (chosen_ip q) port v) _
              (initialize_listen_socket-IsUnset q.listen (chosen_ip q) port v k)
              (λ (b, (context, w)) kw.
                Ensures-value _
                  (elim b
                    as (λ b. ServerIsUnset api (
                      let with_context : TcpServer api = record server {
                        listen_port = port;
                        host_ip = chosen_ip q;
                        iocp_handle = q.creates_iocp;
                        listen_context = some context;
                        service = some w;
                      } in
                      if b
                      then record with_context {
                        workers =
                            server.workers
                            ++ new_workers api y (worker_threads_per_processor * q.processors)
                                event;
                      }
                      else with_context)) [
                        | true ↦ holds_state _ w refl kw
                        | false ↦ holds_state _ w refl kw
                      ])))
          (λ _. Ensures-value _ (holds_state _ v refl k)))

  listen_once-IsUnset :
      (context : ℕ) (q : StartAnswers) (v : Service)
      → ServiceIsUnset v
      → Ensures ServiceIsUnset (listen_once api y context q v)
  unfolding listen_once
  listen_once-IsUnset context q v h =
      let got = get_io_context y v.net.io in
      let v0 : Service = record v { net = record (v.net) { io = got.1 } } in
      Ensures-any (defined (v.net.sockets context)) _ (λ s e.
        let v1 : Service =
          set_socket context (record s { list_io_context = s.list_io_context ++ (got.0 ∷ []) })
            v0 in
        let k : ServiceIsUnset v1 =
          set_socket-IsUnset context _ v0 (h.unset context s (defined_ok e))
            (io-IsUnset (got.1) v.net h) in
        Ensures-bind (post_accept y context (got.0) q.accept_made q.accepts v1) _
          (post_accept-IsUnset y context (got.0) q.accept_made q.accepts v1 k)
          (λ r k'. Ensures-value _ k'))

  start_loop-IsUnset :
      (context : ℕ) (q : ℕ → StartAnswers) (ts : List (Thread api)) (v : Service)
      → ServiceIsUnset v
      → Ensures
          (λ (r : List (Thread api) × Service). ServiceIsUnset (r.1))
          (start_loop api y context q ts v)
  unfolding start_loop
  start_loop-IsUnset context q [] v h = Ensures-value _ h
  start_loop-IsUnset context q (t ∷ ts) v h =
      Ensures-any (start api (q 0).thread_made (q 0).resumed t) _ (λ _ _.
        Ensures-bind (listen_once api y context (q 0) v) _ (listen_once-IsUnset context (q 0) v h)
          (λ v' k.
            Ensures-bind (start_loop api y context (λ n. q (suc n)) ts v') _
              (start_loop-IsUnset context (λ n. q (suc n)) ts v' k) (λ r k'. Ensures-value _ k')))

  pub start_server-IsUnset :
      (q : ℕ → StartAnswers) (server : TcpServer api)
      → ServerIsUnset api server
      → Ensures
          (λ (r : Bool × TcpServer api). ServerIsUnset api (r.1))
          (start_server api y q server)
  unfolding start_server
  start_server-IsUnset q server h =
      Ensures-if server.is_start (λ _. Ensures-value _ h)
        (λ _. elim (List-cases server.workers) [
          | inl e ↦ rw e (Ensures-value _ (record { state = h.state }))
          | inr (t, ts, e) ↦ rw e (
              Ensures-any (defined server.service) _ (λ v has.
                Ensures-any (defined server.listen_context) _ (λ context _.
                  Ensures-bind (start_loop api y context q server.workers v) _
                    (start_loop-IsUnset context q server.workers v (h.state v (defined_ok has)))
                    (λ (us, w) kw. Ensures-value _ (holds_state _ w refl kw)))))
        ])
