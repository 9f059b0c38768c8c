-- ===== src/IocpBase/SocketPool.antt =====
-- IOCP_SocketContextPool (network/iocp_base.h): the idle sockets' contexts, and the active ones by the
-- id of their socket.
pub mod Active
pub mod Consistent
use lite_cpplib.Base.{
  ℕ, suc, ◌+◌, Bool, true, false, Option, none, some, List, [], ◌∷◌, ◌++◌, length, ltb, ◌==◌,
  if◌then◌else◌, Outcome, ok, ◌>>=◌, defined,
}
use lite_cpplib.IocpBase.{
  Layout, World, IoContextPool, SocketContext, new_socket_context, reset_socket,
}

-- The contexts of sockets by their address, the next address of `new`, and what is behind
-- `pool_io_context_`. References are not counted: a context that nobody refers to stays.
pub record Net : Type 0 where
  pub sockets : ℕ → Option SocketContext
  pub next_socket : ℕ
  pub io : IoContextPool × World

unfoldable pub store_socket : ℕ → SocketContext → Net → Net
store_socket address s net = record net {
  sockets = λ a. if a == address then some s else net.sockets a;
}

-- A map from the ids of sockets, in their order.
unfoldable pub find {ℓ} : {A : Type ℓ} → ℕ → List (ℕ × A) → Option A
find key [] = none
find key ((k, v) ∷ xs) = let rest = find key xs in if k == key then some v else rest

unfoldable pub insert {ℓ} : {A : Type ℓ} → ℕ → A → List (ℕ × A) → List (ℕ × A)
insert key v [] = (key, v) ∷ []
insert key v ((k, u) ∷ xs) =
    let rest = insert key v xs in
    if k == key then (key, v) ∷ xs else if ltb key k then (key, v) ∷ (k, u) ∷ xs else (k, u) ∷ rest

unfoldable pub erase {ℓ} : {A : Type ℓ} → ℕ → List (ℕ × A) → List (ℕ × A)
erase key [] = []
erase key ((k, v) ∷ xs) = let rest = erase key xs in if k == key then rest else (k, v) ∷ rest

-- IOCP_SocketContextPool
pub record SocketContextPool : Type 0 where
  pub list_idle : List ℕ
  pub pool_size : ℕ
  pub map_active : List (ℕ × ℕ)

-- GetSocketContext(). `local_addr` is what the uninitialised member of a new context holds.
unfoldable pub get_socket_context :
    Layout → List ℕ → SocketContextPool × Net → ℕ × (SocketContextPool × Net)
unfolding store_socket
get_socket_context y local_addr (sp, net) = elim sp.list_idle [
  | [] ↦ (
    net.next_socket,
    (
      sp,
      record (store_socket net.next_socket (new_socket_context y local_addr) net) {
        next_socket = suc net.next_socket;
      },
    ),
  )
  | c ∷ cs ↦ (c, (record sp { list_idle = cs }, net))
]

-- PutSocketContext(context_ptr)
unfoldable pub put_socket_context : ℕ → SocketContextPool → SocketContextPool
put_socket_context context sp =
    if ltb (length sp.list_idle) sp.pool_size
    then record sp { list_idle = sp.list_idle ++ (context ∷ []) }
    else sp

-- AddActiveContext(context_ptr)
unfoldable pub add_active_context : ℕ → SocketContextPool × Net → Outcome SocketContextPool
unfolding insert
add_active_context context (sp, net) = do
  s ← defined (net.sockets context)
  ok (record sp { map_active = insert s.sock_id context sp.map_active })

-- `context_ptr->Reset()`
unfoldable pub reset_context : Layout → ℕ → Net → Outcome Net
unfolding store_socket
reset_context y context net = do
  s ← defined (net.sockets context)
  (t, io) ← reset_socket y s net.io
  ok (record (store_socket context t net) { io = io })

-- DelActiveContext(sock_id)
unfoldable pub del_active_context :
    Layout → ℕ → SocketContextPool × Net → Outcome (SocketContextPool × Net)
unfolding find erase reset_context put_socket_context
del_active_context y sock_id (sp, net) = elim (find sock_id sp.map_active) [
  | none ↦ ok (sp, net)
  | some context ↦ do
    net' ← reset_context y context net
    ok (put_socket_context context (record sp { map_active = erase sock_id sp.map_active }), net')
]

-- The loop of ClearActiveContext
unfoldable pub clear_loop :
    Layout → List (ℕ × ℕ) → SocketContextPool × Net → Outcome (SocketContextPool × Net)
unfolding reset_context put_socket_context
clear_loop y [] (sp, net) = ok (sp, net)
clear_loop y ((k, context) ∷ xs) (sp, net) = do
  net' ← reset_context y context net
  clear_loop y xs (put_socket_context context sp, net')

-- ClearActiveContext()
unfoldable pub clear_active_context :
    Layout → SocketContextPool × Net → Outcome (SocketContextPool × Net)
unfolding clear_loop
clear_active_context y (sp, net) = do
  (sp', net') ← clear_loop y sp.map_active (sp, net)
  ok (record sp' { map_active = [] }, net')

-- GetActiveContext(sock_id)
unfoldable pub get_active_context : ℕ → SocketContextPool → Option ℕ
unfolding find
get_active_context sock_id sp = find sock_id sp.map_active
