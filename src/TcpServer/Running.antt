-- ===== src/TcpServer/Running.antt =====
-- Init and then Start of a server (network/iocp_tcpserver.h): its workers and their contexts.
use lite_cpplib.Base.{
  ℕ, zero, suc, ◌*◌, ◌≡◌, refl, sym, ap, ap₂, ◌∙◌, subst, inl, inr, true, some, List, ◌∷◌, ◌++◌,
  length, arith, ok, List-cases,
}
use lite_cpplib.Event.{EventApi, Event}
use lite_cpplib.Thread.{Thread, new_thread}
use lite_cpplib.IocpBase.{Layout, World, IoContextPool}
use lite_cpplib.IocpBase.SocketPool.{Net, get_active_context}
use lite_cpplib.TcpWorker.{Service, socket_id}
use lite_cpplib.TcpServer.{
  TcpServer, InitAnswers, new_tcp_server, new_service, opens, new_workers, init,
  worker_threads_per_processor,
}
use lite_cpplib.TcpServer.Operations.{StartAnswers, start_server}
use lite_cpplib.TcpServer.Opening.{IsGranted, IsListening, chosen_ip, init_lem}
use lite_cpplib.TcpServer.Starting.{
  addresses, AllPrepared, AllStartable, AllStarted, start_server_lem,
}

module _ (api : EventApi) (y : Layout) where
  length-new_workers : (n : ℕ) (event : Event api) → length (new_workers api y n event) ≡ n
  unfolding new_workers
  length-new_workers zero event = refl
  length-new_workers (suc n) event = ap suc (length-new_workers n event)

  new_workers-AllStartable :
      (n : ℕ) (event : Event api) (a : ℕ → StartAnswers)
      → ((k : ℕ) → (made : ℕ × ℕ) × ((a k).thread_made ≡ some made))
      → AllStartable api y a (new_workers api y n event)
  unfolding new_workers new_thread
  new_workers-AllStartable zero event a h = tt
  new_workers-AllStartable (suc n) event a h =
      ((refl, (h 0).0, (h 0).1), new_workers-AllStartable n event (λ k. a (suc k)) (λ k. h (suc k)))

  -- Init of a new server whose callbacks, port of completions and listening socket are granted,
  -- and then Start, for which the system makes every thread, both return true, whatever
  -- ResumeThread, WSASocket and AcceptEx answer: there are two workers per processor, each with
  -- a thread's handle, the listening socket's context is active under the socket's id and has
  -- got a new network context for each of them, and these are set to accept, each with the
  -- socket that WSASocket has answered.
  pub init_then_start :
      (q : InitAnswers) (port n sock : ℕ) (heap : Net) (event : Event api) (a : ℕ → StartAnswers)
      → IsGranted q sock
      → opens api y q.listen (chosen_ip q) port ≡ true
      → q.processors ≡ suc n
      → ((k : ℕ) → (made : ℕ × ℕ) × ((a k).thread_made ≡ some made))
      → (server server' : TcpServer api) × (w : Service) × (context : ℕ) × (v : Service)
        × (listening : IsListening v sock context) × (init api y q port heap event
              (new_tcp_server api y 0)
            ≡ ok (true, server))
        × (start_server api y a server ≡ ok (true, server'))
        × (server'.service ≡ some w)
        × (server'.is_start ≡ true)
        × AllStarted api y server'.workers
        × (length server'.workers ≡ worker_threads_per_processor * q.processors)
        × (w.net.sockets context
            ≡ some (record (listening.socket) {
              list_io_context =
                  listening.socket.list_io_context
                  ++ addresses (worker_threads_per_processor * q.processors) heap.io.1.next;
            }))
        × AllPrepared
            (w.net.io).1
            a
            (addresses (worker_threads_per_processor * q.processors) heap.io.1.next)
        × (get_active_context (socket_id (some sock)) w.sp ≡ some context)
  unfolding new_tcp_server new_service
  init_then_start q port n sock heap event a g all many threads =
      let count = worker_threads_per_processor * q.processors in
      let (server, v, context, inits, has, listens, listening, same_io, _, stopped, works) =
        init_lem y api q port heap event (new_tcp_server api y 0) sock g all in
      let as_many = length-new_workers count event in
      elim (List-cases (new_workers api y count event)) [
        | inl e ↦ absurd (omega (arith, as_many, many, ap (λ (l : List (Thread api)). length l) e))
        | inr (t, ts, e) ↦
            let next : (v.net.io).1.next ≡ heap.io.1.next =
              ap (λ (io : IoContextPool × World). io.1.next) same_io in
            let (us, w, starts, run, length_us, alive, accepting, same_sp) =
              start_server_lem api y context sock a t ts server v listening.socket stopped has
                listens (works ∙ e)
                (subst (AllStartable api y a) e (new_workers-AllStartable count event a threads))
                (ap (λ (io : IoContextPool × World). io.0.list_io_context) same_io) listening.alive
                listening.has_socket in
            let size : length (t ∷ ts) ≡ count =
              sym (ap (λ (l : List (Thread api)). length l) e) ∙ as_many in
            (
              server,
              record server { is_start = true; workers = us; service = some w },
              w,
              context,
              v,
              listening,
              inits,
              starts,
              refl,
              refl,
              run,
              length_us ∙ size,
              alive
                  ∙ ap₂
                      (λ k m. some (record (listening.socket) {
                        list_io_context = listening.socket.list_io_context ++ addresses k m;
                      }))
                      size next,
              subst (λ k. AllPrepared (w.net.io).1 a (addresses k heap.io.1.next)) size
                  (subst (λ m. AllPrepared (w.net.io).1 a (addresses (length (t ∷ ts)) m)) next
                    accepting),
              ap (get_active_context (socket_id (some sock))) same_sp ∙ listening.active,
            )
      ]
