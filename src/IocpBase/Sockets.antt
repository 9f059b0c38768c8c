-- ===== src/IocpBase/Sockets.antt =====
-- The context of a socket (network/iocp_base.h): what RemoveContext gives to the pool.
use lite_cpplib.Base.{
  ℕ, ◌<◌, ◌≡◌, refl, ap, some, List, [], ◌∷◌, ◌++◌, length, arith, length-append, ok,
}
use lite_cpplib.IocpBase.{
  Layout, IoContext, Socket, World, IoContextPool, SocketContext, cleared, remove_context,
  erase_first,
}
use lite_cpplib.IocpBase.Contexts.{put_with_room}

module _ (y : Layout) where
  -- RemoveContext puts a live context with an initialised socket into the pool even if the
  -- socket's list does not have it: called twice with an empty pool of at least two places, it
  -- leaves the context in the pool twice.
  pub remove_unlisted_twice :
      (c : ℕ) (old : IoContext) (r : Socket) (s : SocketContext) (p : IoContextPool) (w : World)
      → p.list_io_context ≡ []
      → 1 < p.pool_size
      → w.heap c ≡ some old
      → old.sock_accept ≡ some r
      → (s1 : SocketContext) × (q1 : IoContextPool) × (w1 : World) × (remove_context y c s (p, w)
          ≡ ok (s1, (q1, w1)))
        × (s2 : SocketContext) × (q2 : IoContextPool) × (w2 : World) × (remove_context y c s1
              (q1, w1)
            ≡ ok (s2, (q2, w2)))
        × (q2.list_io_context ≡ c ∷ c ∷ [])
  unfolding remove_context cleared
  remove_unlisted_twice c old r s p w none_there room alive set =
      let (w1, eq1, alive1) =
        put_with_room y c old r p w alive set
          (omega (arith, ap (λ (l : List ℕ). length l) none_there)) in
      let q1 : IoContextPool = record p { list_io_context = p.list_io_context ++ (c ∷ []) } in
      let short : length (p.list_io_context ++ (c ∷ [])) < p.pool_size = omega (
        arith,
        length-append p.list_io_context (c ∷ []),
        ap (λ (l : List ℕ). length l) none_there,
      ) in
      let (w2, eq2, alive2) = put_with_room y c (cleared y old) r q1 w1 alive1 set short in
      (
        record s { list_io_context = erase_first c s.list_io_context },
        q1,
        w1,
        rw eq1 refl,
        record s { list_io_context = erase_first c (erase_first c s.list_io_context) },
        record q1 { list_io_context = q1.list_io_context ++ (c ∷ []) },
        w2,
        rw eq2 refl,
        ap (λ (l : List ℕ). (l ++ (c ∷ [])) ++ (c ∷ [])) none_there,
      )
