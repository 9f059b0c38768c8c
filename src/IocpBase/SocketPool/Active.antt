-- ===== src/IocpBase/SocketPool/Active.antt =====
-- The active sockets (network/iocp_base.h, IOCP_SocketContextPool) as a map.
use lite_cpplib.Base.{ℕ, ◌≡◌, ◌≢◌, refl, none, some, List, [], ◌∷◌, arith, ==_refl, ok}
use lite_cpplib.IocpBase.{SocketContext}
use lite_cpplib.IocpBase.SocketPool.{
  Net, find, insert, erase, SocketContextPool, add_active_context, get_active_context,
}

pub find-insert {ℓ} :
    {A : Type ℓ} (key : ℕ) (v : A) (xs : List (ℕ × A)) → find key (insert key v xs) ≡ some v
unfolding find insert
find-insert key v [] = rw (==_refl key) refl
find-insert key v ((k, u) ∷ xs) = ground (arith, find-insert key v xs, ==_refl key)

pub find-insert_other {ℓ} :
    {A : Type ℓ} (key other : ℕ) (v : A) (xs : List (ℕ × A))
    → other ≢ key
    → find other (insert key v xs) ≡ find other xs
unfolding find insert
find-insert_other key other v [] ne = ground arith
find-insert_other key other v ((k, u) ∷ xs) ne = ground (arith, find-insert_other key other v xs)

pub find-erase {ℓ} : {A : Type ℓ} (key : ℕ) (xs : List (ℕ × A)) → find key (erase key xs) ≡ none
unfolding find erase
find-erase key [] = refl
find-erase key ((k, u) ∷ xs) = ground (arith, find-erase key xs)

pub find-erase_other {ℓ} :
    {A : Type ℓ} (key other : ℕ) (xs : List (ℕ × A))
    → other ≢ key
    → find other (erase key xs) ≡ find other xs
unfolding find erase
find-erase_other key other [] ne = refl
find-erase_other key other ((k, u) ∷ xs) ne = ground (arith, find-erase_other key other xs)

-- AddActiveContext of a live context makes it the one that GetActiveContext returns for its id,
-- and changes nothing for another id.
pub add_active_context_lem :
    (c : ℕ) (s : SocketContext) (sp : SocketContextPool) (net : Net) (other : ℕ)
    → net.sockets c ≡ some s
    → other ≢ s.sock_id
    → (sp' : SocketContextPool) × (add_active_context c (sp, net) ≡ ok sp')
      × (get_active_context s.sock_id sp' ≡ some c)
      × (get_active_context other sp' ≡ get_active_context other sp)
unfolding add_active_context get_active_context
add_active_context_lem c s sp net other alive ne = (
  record sp { map_active = insert s.sock_id c sp.map_active },
  rw alive refl,
  find-insert s.sock_id c sp.map_active,
  find-insert_other s.sock_id other c sp.map_active ne,
)
