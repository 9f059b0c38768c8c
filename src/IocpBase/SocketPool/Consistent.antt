-- ===== src/IocpBase/SocketPool/Consistent.antt =====
-- What IOCP_SocketContextPool (network/iocp_base.h) keeps between its active and its idle contexts.
pub mod Adding
use lite_cpplib.Base.{
  ℕ, suc, ◌≤◌, ◌<◌, ◌≡◌, ◌≢◌, refl, sym, ap, ◌∙◌, subst, inl, inr, ◌⊎◌, true, false, Option, none,
  some, List, [], ◌∷◌, ◌++◌, length, arith, ltb, ◌==◌, ◌>>=◌, ==_refl, Bool-cases, Option-cases,
  List-cases, length-append, some_inj, Outcome, ok, undefined_not_ok, ok_inj, bind_ok,
}
use lite_cpplib.IocpBase.{
  Layout, World, IoContextPool, SocketContext, new_socket_context, reset_socket,
}
use lite_cpplib.IocpBase.Contexts.{Absent, AllDistinct, Absent-append, AllDistinct-append}
use lite_cpplib.IocpBase.SocketPool.{
  Net, store_socket, find, insert, erase, SocketContextPool, get_socket_context, put_socket_context,
  add_active_context, reset_context, del_active_context,
}
use lite_cpplib.IocpBase.SocketPool.Active.{
  find-insert, find-insert_other, find-erase, find-erase_other,
}

-- The address is one that `new` has returned, and its context is alive.
abbrev pub IsLive : Net → ℕ → Type 0
IsLive net c = (s : SocketContext) × (net.sockets c ≡ some s) × (c < net.next_socket)

abbrev pub AllLive : Net → List ℕ → Type 0
AllLive net [] = Unit {0}
AllLive net (c ∷ cs) = IsLive net c × AllLive net cs

-- An active context has the id that it is found by, and is not idle.
abbrev pub IsActive : SocketContextPool → Net → ℕ → ℕ → Type 0
IsActive sp net k c =
    ((s : SocketContext) × (net.sockets c ≡ some s) × (s.sock_id ≡ k) × (c < net.next_socket))
    × Absent c sp.list_idle

-- The active contexts are as above, and the idle ones are alive, different, and not too many.
pub record IsConsistent (sp : SocketContextPool) (net : Net) : Type 0 where
  pub active : (k c : ℕ) → find k sp.map_active ≡ some c → IsActive sp net k c
  pub live : AllLive net sp.list_idle
  pub distinct : AllDistinct sp.list_idle
  pub bounded : length sp.list_idle ≤ sp.pool_size

-- Two ids that are active have different contexts.
pub IsConsistent-apart :
    (sp : SocketContextPool) (net : Net) (k l c : ℕ)
    → IsConsistent sp net
    → find k sp.map_active ≡ some c
    → find l sp.map_active ≡ some c
    → k ≡ l
IsConsistent-apart sp net k l c h e e' =
    let ((s, alive, id, _), _) = h.active k c e in
    let ((s', alive', id', _), _) = h.active l c e' in
    let same : s ≡ s' = some_inj (sym alive ∙ alive') in
    sym id ∙ ap (λ (x : SocketContext). x.sock_id) same ∙ id'

store-AllLive :
    (net : Net) (a : ℕ) (t : SocketContext) (io : IoContextPool × World) (xs : List ℕ)
    → AllLive net xs
    → AllLive (record (store_socket a t net) { io = io }) xs
unfolding store_socket
store-AllLive net a t io [] h = tt
store-AllLive net a t io (x ∷ xs) ((s, alive, below), h) = (
  elim (Bool-cases (x == a)) [ inl e ↦ (t, rw e refl, below) | inr e ↦ (s, rw e alive, below) ],
  store-AllLive net a t io xs h,
)

append-AllLive :
    (net : Net) (xs : List ℕ) (a : ℕ) → AllLive net xs → IsLive net a → AllLive net (xs ++ (a ∷ []))
append-AllLive net [] a h l = (l, tt)
append-AllLive net (x ∷ xs) a (k, h) l = (k, append-AllLive net xs a h l)

-- A context changes, keeping its id.
pub store_same-IsConsistent :
    (sp : SocketContextPool) (net : Net) (c : ℕ) (s t : SocketContext) (io : IoContextPool × World)
    → IsConsistent sp net
    → net.sockets c ≡ some s
    → t.sock_id ≡ s.sock_id
    → IsConsistent sp (record (store_socket c t net) { io = io })
unfolding store_socket
store_same-IsConsistent sp net c s t io h alive same = record {
  active = λ k d e.
      let ((u, there, id, below), away) = h.active k d e in
      (
        elim (Bool-cases (d == c)) [
          | inl e' ↦
              let at_c : net.sockets c ≡ some u =
                subst (λ x. net.sockets x ≡ some u) (ground arith) there in
              (
                t,
                rw e' refl,
                same ∙ ap (λ (x : SocketContext). x.sock_id) (some_inj (sym alive ∙ at_c)) ∙ id,
                below,
              )
          | inr e' ↦ (u, rw e' there, id, below)
        ],
        away,
      );
  live = store-AllLive net c t io sp.list_idle h.live;
  distinct = h.distinct;
  bounded = h.bounded;
}

-- A context in nobody's list.
pub record IsFree (sp : SocketContextPool) (net : Net) (c : ℕ) : Type 0 where
  pub consistent : IsConsistent sp net
  pub alive : IsLive net c
  pub inactive : (k d : ℕ) → find k sp.map_active ≡ some d → (c == d) ≡ false
  pub not_idle : Absent c sp.list_idle

-- A free context may change as it likes.
pub store-IsFree :
    (sp : SocketContextPool) (net : Net) (c : ℕ) (t : SocketContext) (io : IoContextPool × World)
    → IsFree sp net c
    → IsFree sp (record (store_socket c t net) { io = io }) c
unfolding store_socket
store-IsFree sp net c t io h = record {
  consistent = record {
    active = λ k d e.
        let ((u, there, id, below), away) = h.consistent.active k d e in
        let other : (d == c) ≡ false = ground (arith, h.inactive k d e) in
        ((u, rw other there, id, below), away);
    live = store-AllLive net c t io sp.list_idle h.consistent.live;
    distinct = h.consistent.distinct;
    bounded = h.consistent.bounded;
  };
  alive = (t, rw (==_refl c) refl, h.alive.2);
  inactive = h.inactive;
  not_idle = h.not_idle;
}

reset_context_ok :
    (y : Layout) (c : ℕ) (net net' : Net)
    → reset_context y c net ≡ ok net'
    → (t : SocketContext) × (io : IoContextPool × World) × (net'
        ≡ record (store_socket c t net) { io = io })
unfolding reset_context
reset_context_ok y c net net' h = elim (Option-cases (net.sockets c)) [
  | inl e ↦ absurd (undefined_not_ok (rw (e, reset_context) at h))
  | inr (s, e) ↦
      let ((t, io), _, h') = bind_ok (reset_socket y s net.io) _ (rw (e, reset_context) at h) in
      (t, io, sym (ok_inj h'))
]

-- PutSocketContext of a free context
pub put_socket_context-IsConsistent :
    (sp : SocketContextPool) (net : Net) (c : ℕ)
    → IsFree sp net c
    → IsConsistent (put_socket_context c sp) net
unfolding put_socket_context
put_socket_context-IsConsistent sp net c h =
    elim (Bool-cases (ltb (length sp.list_idle) sp.pool_size)) [
      | inl room ↦ rw room (record {
        active = λ k d e.
            let (here, away) = h.consistent.active k d e in
            (here, Absent-append d sp.list_idle c away (h.inactive k d e));
        live = append-AllLive net sp.list_idle c h.consistent.live h.alive;
        distinct = AllDistinct-append sp.list_idle c h.consistent.distinct h.not_idle;
        bounded = ground (arith, length-append sp.list_idle (c ∷ []));
      })
      | inr full ↦ rw full h.consistent
    ]

erase-IsFree :
    (sp : SocketContextPool) (net : Net) (id c : ℕ)
    → IsConsistent sp net
    → find id sp.map_active ≡ some c
    → IsFree (record sp { map_active = erase id sp.map_active }) net c
erase-IsFree sp net id c h e =
    let still : (k d : ℕ)
        → find k (erase id sp.map_active) ≡ some d
        → (find k sp.map_active ≡ some d) × (k ≢ id) =
      λ k d e'. elim (Bool-cases (k == id)) [
        | inl same ↦ absurd (ground (arith, find-erase id sp.map_active))
        | inr other ↦
            let ne : k ≢ id = λ x. ground arith in
            (sym (find-erase_other id k sp.map_active ne) ∙ e', ne)
      ] in
    let ((s, alive, _, below), away) = h.active id c e in
    record {
      consistent = record {
        active = λ k d e'. h.active k d (still k d e').0;
        live = h.live;
        distinct = h.distinct;
        bounded = h.bounded;
      };
      alive = (s, alive, below);
      inactive = λ k d e'. elim (Bool-cases (c == d)) [
        | inl same ↦
            let there : find k sp.map_active ≡ some c = (still k d e').0 ∙ ap some (ground arith) in
            absurd ((still k d e').1 (IsConsistent-apart sp net k id c h there e))
        | inr other ↦ other
      ];
      not_idle = away;
    }

-- DelActiveContext, where it returns
pub del_active_context-IsConsistent :
    (y : Layout) (id : ℕ) (sp : SocketContextPool) (net : Net) (sp' : SocketContextPool)
    (net' : Net)
    → IsConsistent sp net
    → del_active_context y id (sp, net) ≡ ok (sp', net')
    → IsConsistent sp' net'
unfolding del_active_context
del_active_context-IsConsistent y id sp net sp' net' h eq =
    elim (Option-cases (find id sp.map_active)) [
      | inl e ↦
          let kept : (sp, net) ≡ (sp', net') = ok_inj (rw (e, del_active_context) at eq) in
          subst (λ (x : SocketContextPool × Net). IsConsistent (x.0) (x.1)) kept h
      | inr (c, e) ↦
          let less : SocketContextPool = record sp { map_active = erase id sp.map_active } in
          let done : (reset_context y c net >>= λ n. ok (put_socket_context c less, n))
              ≡ ok (sp', net') =
            rw (e, del_active_context) at eq in
          let (net1, reset, e1) = bind_ok (reset_context y c net) _ done in
          let (t, io, same) = reset_context_ok y c net net1 reset in
          let free = store-IsFree less net c t io (erase-IsFree sp net id c h e) in
          let free1 : IsFree less net1 c = subst (λ n. IsFree less n c) (sym same) free in
          subst (λ (x : SocketContextPool × Net). IsConsistent (x.0) (x.1)) (ok_inj e1)
            (put_socket_context-IsConsistent less net1 c free1)
    ]

io-AllLive :
    (net : Net) (io : IoContextPool × World) (xs : List ℕ)
    → AllLive net xs
    → AllLive (record net { io = io }) xs
io-AllLive net io [] h = tt
io-AllLive net io (x ∷ xs) (l, h) = (l, io-AllLive net io xs h)

pub io-IsConsistent :
    (sp : SocketContextPool) (net : Net) (io : IoContextPool × World)
    → IsConsistent sp net
    → IsConsistent sp (record net { io = io })
io-IsConsistent sp net io h = record {
  active = h.active;
  live = io-AllLive net io sp.list_idle h.live;
  distinct = h.distinct;
  bounded = h.bounded;
}
