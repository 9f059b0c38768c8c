-- ===== src/UdpPeer/Operations.antt =====
-- IOCP_UDPPeer (network/iocp_udppeer.h): both forms of SendTo, Stop and DeInit.
use lite_cpplib.Base.{
  ℕ, Bool, false, Option, none, some, List, [], if◌then◌else◌, Outcome, ok, ◌>>=◌, defined,
}
use lite_cpplib.Event.{EventApi}
use lite_cpplib.Thread.{Thread}
use lite_cpplib.IocpBase.{Layout, get_io_context, add_context}
use lite_cpplib.IocpBase.SocketPool.{clear_active_context, get_active_context}
use lite_cpplib.TcpWorker.{Service, set_io, set_socket}
use lite_cpplib.TcpServer.{SockaddrIn}
use lite_cpplib.TcpServer.Operations.{copy_in, StopAnswers, signal_all, stop_loop}
use lite_cpplib.TcpClient.{front}
use lite_cpplib.UdpWorker.{post_send_to}
use lite_cpplib.UdpPeer.{UdpPeer, UdpAnswers}

module _ (api : EventApi) (y : Layout) where
  -- The part of SendTo past its tests, to an address of the given bytes
  unfoldable pub send_datagram : ℕ → List ℕ → ℕ → List ℕ → Bool → Service → Outcome (Bool × Service)
  unfolding get_io_context copy_in set_io set_socket add_context post_send_to
  send_datagram context content data_len remote_addr posted v = do
    let got = get_io_context y v.net.io
    let v1 = record v { net = record (v.net) { io = got.1 } }
    c ← defined ((got.1).1.heap got.0)
    buf ← copy_in content data_len c.buf
    s ← defined (v.net.sockets context)
    let v2 =
        set_io (got.0) (record c { buf = buf; wsa_len = data_len; remote_addr = remote_addr }) v1
    post_send_to y context (got.0) posted (set_socket context (add_context y (got.0) s) v2)

  -- SendTo(sock_id, data, data_len, sock_addr), the address being given by its bytes
  unfoldable pub send_to_address :
      ℕ → List ℕ → ℕ → List ℕ → Bool → UdpPeer api → Outcome (Bool × UdpPeer api)
  unfolding get_active_context send_datagram
  send_to_address sock_id content data_len sock_addr posted peer = do
    let sends = λ (v : Service) (context : ℕ). do
      _ ← defined (front api y peer.workers)
      (sent, v') ← send_datagram context content data_len sock_addr posted v
      ok (sent, record peer { service = some v' })
    let looks = do
      v ← defined peer.service
      elim (get_active_context sock_id v.sp) [
        | none ↦ ok (false, peer)
        | some context ↦ sends v context
      ]
    if peer.is_start then looks else ok (false, peer)

  -- SendTo(sock_id, data, data_len, dst_ip, dst_port)
  unfoldable pub send_to_ip :
      UdpAnswers → ℕ → List ℕ → ℕ → List ℕ → ℕ → Bool → UdpPeer api → Outcome (Bool × UdpPeer api)
  unfolding send_to_address
  send_to_ip q sock_id content data_len dst_ip dst_port posted peer =
      let addr : SockaddrIn = record {
        sin_addr = q.inet_addr dst_ip;
        sin_port = q.htons dst_port;
      } in
      send_to_address sock_id content data_len (q.bytes_of addr) posted peer

  -- Stop(); none as long as a worker is waited for
  unfoldable pub stop_peer : (ℕ → StopAnswers) → UdpPeer api → Outcome (Option (UdpPeer api))
  unfolding signal_all stop_loop clear_active_context
  stop_peer q peer = do
    let clears = λ (workers : List (Thread api)). do
      v ← defined peer.service
      (sp, net) ← clear_active_context y (v.sp, v.net)
      ok (
          some
            (record peer { workers = workers; service = some (record v { sp = sp; net = net }) }))
    let stops : Outcome (Option (UdpPeer api)) =
        elim (stop_loop api y q (signal_all api y peer.workers)) [
          | none ↦ ok none
          | some workers ↦ clears workers
        ]
    if peer.is_start then stops else ok (some peer)

  -- DeInit() of a peer whose workers have no thread
  unfoldable pub discard_peer : UdpPeer api → UdpPeer api
  discard_peer peer = record peer { workers = []; iocp_handle = false; service = none }
