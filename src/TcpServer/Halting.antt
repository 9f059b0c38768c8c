-- ===== src/TcpServer/Halting.antt =====
-- Stop of a server (network/iocp_tcpserver.h) with an active socket.
use lite_cpplib.Base.{
  ℕ, suc, ◌≡◌, refl, ap, Bool, ok, true, none, some, List, [], ◌∷◌, defined, bind_then, if_then,
  undefined,
}
use lite_cpplib.Event.{EventApi, Event}
use lite_cpplib.Event.Windows.{IsDocumented, HasHandle, event_lem}
use lite_cpplib.Thread.{Thread, signal_thread}
use lite_cpplib.Thread.Stopping.{IsEnding, stop_ends}
use lite_cpplib.IocpBase.{Layout}
use lite_cpplib.IocpBase.SocketPool.{Net, get_active_context}
use lite_cpplib.TcpWorker.{Service}
use lite_cpplib.TcpWorker.Uninitialised.{IsUnset, ServiceIsUnset, clear_active_context_undefined}
use lite_cpplib.TcpWorker.Closing.{Course, Course-IsUnset}
use lite_cpplib.TcpServer.{InitAnswers, init, TcpServer}
use lite_cpplib.TcpServer.Unset.{init-IsUnset, start_server-IsUnset}
use lite_cpplib.TcpServer.Operations.{
  StartAnswers, start_server, StopAnswers, infinite, signal_all, stop_loop, stop_server,
}

module _ (api : EventApi) where
  abbrev pub AllEnding : (ℕ → StopAnswers) → List (Thread api) → Type 0
  AllEnding q [] = Unit {0}
  AllEnding q (t ∷ ts) =
      IsEnding infinite (q 0).t1 (q 0).resumptions (q 0).looks
      × HasHandle api t.event
      × AllEnding (λ n. q (suc n)) ts

  abbrev pub AllGone : List (Thread api) → Type 0
  AllGone [] = Unit {0}
  AllGone (t ∷ ts) = (t.thread_handle ≡ none) × AllGone ts

  module _ (d : IsDocumented api) (y : Layout) where
    stop_loop_lem :
        (q : ℕ → StopAnswers) (ts : List (Thread api))
        → AllEnding q ts
        → (us : List (Thread api)) × (stop_loop api y q (signal_all api y ts) ≡ some us)
          × AllGone us
    unfolding stop_loop signal_all signal_thread
    stop_loop_lem q [] h = ([], refl, tt)
    stop_loop_lem q (t ∷ ts) (e, held, h) =
        let (us, stops, gone) = stop_loop_lem (λ n. q (suc n)) ts h in
        let (_, _, kept, _) = event_lem api d t.event held in
        let (left, t', ends, without, _) =
          stop_ends api d infinite (q 0).t1 (q 0).resumptions (q 0).looks (signal_thread api t) e
            kept in
        (t' ∷ us, rw (stop_loop, ends, stops) refl, (without, gone))

    -- Stop from the stopped workers on
    stop_undefined :
        (q : ℕ → StopAnswers) (server : TcpServer api) (v w : Service) (id context listener : ℕ)
        → server.is_start ≡ true
        → server.service ≡ some w
        → server.listen_context ≡ some listener
        → AllEnding q server.workers
        → ServiceIsUnset v
        → Course y v w
        → get_active_context id w.sp ≡ some context
        → stop_server api y q server ≡ undefined
    unfolding stop_server
    stop_undefined q server v w id context listener started has listens ending h r active =
        let (us, stops, _) = stop_loop_lem q server.workers ending in
        let clears =
          clear_active_context_undefined y id context w.sp w.net (Course-IsUnset y v w r h)
            active in
        if_then _ _ started (
          rw stops
            (bind_then (defined server.service) _ (ap defined has) (rw (listens, clears) refl)))

    -- After Init and Start of a server, whatever the system answers, over a heap in which no
    -- receiving context has its `sock_accept_` set, and after any run of its workers, sends,
    -- closes and writes of the system that leave that member alone: if the server has started
    -- and an id is active, as that of the listening socket is, Stop of the server, where Stop
    -- of every worker comes to an end, is undefined.
    pub init_start_stop :
        (qi : InitAnswers) (port : ℕ) (heap : Net) (event : Event api)
        (fresh server server' : TcpServer api) (opened started : Bool) (qs : ℕ → StartAnswers)
        (q : ℕ → StopAnswers) (v w : Service) (id context listener : ℕ)
        → IsUnset heap
        → init api y qi port heap event fresh ≡ ok (opened, server)
        → start_server api y qs server ≡ ok (started, server')
        → server'.is_start ≡ true
        → server'.listen_context ≡ some listener
        → server'.service ≡ some v
        → Course y v w
        → get_active_context id w.sp ≡ some context
        → AllEnding q server'.workers
        → stop_server api y q (record server' { service = some w }) ≡ undefined
    init_start_stop qi port heap event fresh server server' opened started qs q v w id context
          listener empty inits starts running listens has r active ending =
        let made =
          (init-IsUnset api y qi port heap event fresh empty).holds (opened, server) inits in
        let begun = (start_server-IsUnset api y qs server made).holds (started, server') starts in
        stop_undefined q (record server' { service = some w }) v w id context listener running refl
          listens ending (begun.state v has) r active
