-- ===== src/IocpBase/SocketPool/Consistent/Adding.antt =====
-- GetSocketContext and AddActiveContext (network/iocp_base.h) keep the active and the idle contexts apart.
use lite_cpplib.Base.{
  ℕ, suc, ◌≤◌, ◌<◌, ◌≡◌, ◌≢◌, refl, sym, ap, ◌∙◌, subst, inl, inr, false, some, List, [], ◌∷◌,
  length, arith, ◌==◌, ==_refl, Bool-cases, List-cases, some_inj,
}
use lite_cpplib.IocpBase.{Layout, SocketContext, new_socket_context}
use lite_cpplib.IocpBase.Contexts.{Absent, AllDistinct}
use lite_cpplib.IocpBase.SocketPool.{
  Net, store_socket, find, insert, SocketContextPool, get_socket_context,
}
use lite_cpplib.IocpBase.SocketPool.Active.{find-insert, find-insert_other}
use lite_cpplib.IocpBase.SocketPool.Consistent.{AllLive, IsConsistent, IsFree}

AllLive-Absent : (net : Net) (xs : List ℕ) → AllLive net xs → Absent net.next_socket xs
AllLive-Absent net [] h = tt
AllLive-Absent net (x ∷ xs) ((_, _, below), h) = (ground arith, AllLive-Absent net xs h)

grow-AllLive :
    (net : Net) (t : SocketContext) (xs : List ℕ)
    → AllLive net xs
    → AllLive (record (store_socket net.next_socket t net) { next_socket = suc net.next_socket }) xs
unfolding store_socket
grow-AllLive net t [] h = tt
grow-AllLive net t (x ∷ xs) ((s, alive, below), h) =
    let other : (x == net.next_socket) ≡ false = ground arith in
    ((s, rw other alive, omega (arith, below)), grow-AllLive net t xs h)

-- GetSocketContext hands over a free context.
pub get_socket_context-IsFree :
    (y : Layout) (fresh : List ℕ) (sp : SocketContextPool) (net : Net)
    → IsConsistent sp net
    → (c : ℕ) × (sp' : SocketContextPool) × (net' : Net) × (get_socket_context y fresh (sp, net)
        ≡ (c, (sp', net')))
      × IsFree sp' net' c
      × (sp'.map_active ≡ sp.map_active)
      × ((a : ℕ) → (a == c) ≡ false → net'.sockets a ≡ net.sockets a)
      × (net'.io ≡ net.io)
unfolding get_socket_context store_socket
get_socket_context-IsFree y fresh sp net h = elim (List-cases sp.list_idle) [
  | inl e ↦
      let made : Net = record (store_socket net.next_socket (new_socket_context y fresh) net) {
        next_socket = suc net.next_socket;
      } in
      (
        net.next_socket,
        sp,
        made,
        simp (get_socket_context, e) refl,
        record {
          consistent = record {
            active = λ k d e'.
                let ((u, there, id, below), away) = h.active k d e' in
                let other : (d == net.next_socket) ≡ false = ground arith in
                ((u, rw other there, id, omega (arith, below)), away);
            live = grow-AllLive net (new_socket_context y fresh) sp.list_idle h.live;
            distinct = h.distinct;
            bounded = h.bounded;
          };
          alive = (new_socket_context y fresh, rw (==_refl net.next_socket) refl, omega arith);
          inactive = λ k d e'. let ((_, _, _, below), _) = h.active k d e' in ground arith;
          not_idle = AllLive-Absent net sp.list_idle h.live;
        },
        refl,
        λ a ne. rw ne refl,
        refl,
      )
  | inr (c, cs, e) ↦
      let live : AllLive net (c ∷ cs) = rw e at h.live in
      let distinct : AllDistinct (c ∷ cs) = rw e at h.distinct in
      let bounded : length (c ∷ cs) ≤ sp.pool_size = rw e at h.bounded in
      let away : (k d : ℕ) → find k sp.map_active ≡ some d → Absent d (c ∷ cs) =
        λ k d e'. rw e at (h.active k d e').1 in
      (
        c,
        record sp { list_idle = cs },
        net,
        simp (get_socket_context, e) refl,
        record {
          consistent = record {
            active = λ k d e'. ((h.active k d e').0, (away k d e').1);
            live = live.1;
            distinct = distinct.1;
            bounded = omega (arith, bounded);
          };
          alive = live.0;
          inactive = λ k d e'. (away k d e').0;
          not_idle = distinct.0;
        },
        refl,
        λ a _. refl,
        refl,
      )
]

-- AddActiveContext of a free context, also under an id that another context has
pub add_active_context-IsConsistent :
    (c : ℕ) (s : SocketContext) (sp : SocketContextPool) (net : Net)
    → IsFree sp net c
    → net.sockets c ≡ some s
    → IsConsistent (record sp { map_active = insert s.sock_id c sp.map_active }) net
add_active_context-IsConsistent c s sp net h alive = record {
  active = λ k d e. elim (Bool-cases (k == s.sock_id)) [
    | inl same ↦
        let id : k ≡ s.sock_id = ground arith in
        let here : c ≡ d = some_inj (
          sym (find-insert s.sock_id c sp.map_active)
          ∙ ap (λ n. find n (insert s.sock_id c sp.map_active)) (sym id)
          ∙ e) in
        subst
          (λ n.
            ((u : SocketContext) × (net.sockets n ≡ some u)
              × (u.sock_id ≡ k)
              × (n < net.next_socket))
            × Absent n sp.list_idle)
          here ((s, alive, sym id, h.alive.2), h.not_idle)
    | inr other ↦
        let ne : k ≢ s.sock_id = λ x. ground arith in
        h.consistent.active k d (sym (find-insert_other s.sock_id k c sp.map_active ne) ∙ e)
  ];
  live = h.consistent.live;
  distinct = h.consistent.distinct;
  bounded = h.consistent.bounded;
}
