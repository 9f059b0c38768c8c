-- ===== src/IocpBase/Contexts.antt =====
-- The pool of network contexts (network/iocp_base.h): its bound, who holds a context, and what Reset
-- makes of one.
use lite_cpplib.Base.{
  ℕ, suc, ◌≤◌, ◌<◌, ◌≡◌, refl, ap, inl, inr, ◌⊎◌, false, Option, none, some, List, [], ◌∷◌, ◌++◌,
  length, arith, ◌==◌, leb, ==_refl, Bool-cases, List-cases, length-append, ok, undefined,
}
use lite_cpplib.IocpBase.{
  Layout, IoContext, Socket, World, IoContextPool, new_io_context, cleared, reset_io, store,
  get_io_context, put_io_context, keep_or_delete,
}

-- A context of the pool is alive, its socket is initialised, and it is cleared.
pub record IsPooled (y : Layout) (w : World) (address : ℕ) : Type 0 where
  pub old : IoContext
  pub alive : w.heap address ≡ some (cleared y old)
  pub initialised : (s : Socket) × (old.sock_accept ≡ some s)

abbrev pub AllPooled : Layout → World → List ℕ → Type 0
AllPooled y w [] = Unit {0}
AllPooled y w (c ∷ cs) = IsPooled y w c × AllPooled y w cs

-- The address is not in the list.
abbrev pub Absent : ℕ → List ℕ → Type 0
Absent a [] = Unit {0}
Absent a (c ∷ cs) = ((c == a) ≡ false) × Absent a cs

abbrev pub AllDistinct : List ℕ → Type 0
AllDistinct [] = Unit {0}
AllDistinct (c ∷ cs) = Absent c cs × AllDistinct cs

pub record IsPool (y : Layout) (p : IoContextPool) (w : World) : Type 0 where
  pub pooled : AllPooled y w p.list_io_context
  pub distinct : AllDistinct p.list_io_context
  pub bounded : length p.list_io_context ≤ p.pool_size

pub Absent-append :
    (a : ℕ) (xs : List ℕ) (b : ℕ) → Absent a xs → (b == a) ≡ false → Absent a (xs ++ (b ∷ []))
Absent-append a [] b h e = (e, tt)
Absent-append a (x ∷ xs) b (ne, h) e = (ne, Absent-append a xs b h e)

pub AllDistinct-append :
    (xs : List ℕ) (b : ℕ) → AllDistinct xs → Absent b xs → AllDistinct (xs ++ (b ∷ []))
AllDistinct-append [] b d h = (tt, tt)
AllDistinct-append (x ∷ xs) b (a, d) (ne, h) =
    (Absent-append x xs b a (ground arith), AllDistinct-append xs b d h)

-- Writing at another address keeps a pool's contexts.
pub store-AllPooled :
    (y : Layout) (w : World) (a : ℕ) (o : Option IoContext) (closed : List Socket) (xs : List ℕ)
    → Absent a xs
    → AllPooled y w xs
    → AllPooled y (record (store a o w) { closed = closed }) xs
unfolding store
store-AllPooled y w a o closed [] h k = tt
store-AllPooled y w a o closed (x ∷ xs) (ne, h) (k, ks) = (
  record { old = k.old; alive = rw ne k.alive; initialised = k.initialised },
  store-AllPooled y w a o closed xs h ks,
)

append-AllPooled :
    (y : Layout) (w : World) (xs : List ℕ) (a : ℕ)
    → AllPooled y w xs
    → IsPooled y w a
    → AllPooled y w (xs ++ (a ∷ []))
append-AllPooled y w [] a k h = (h, tt)
append-AllPooled y w (x ∷ xs) a (k, ks) h = (k, append-AllPooled y w xs a ks h)

module _ (y : Layout) where
  pub reset_io_lem :
      (c : IoContext) (s : Socket)
      → c.sock_accept ≡ some s
      → (closed : List Socket) × (reset_io y c ≡ ok (cleared y c, closed))
  unfolding reset_io
  reset_io_lem c none e = (none ∷ [], simp (reset_io, e) refl)
  reset_io_lem c (some s) e = ([], simp (reset_io, e) refl)

  -- Reset of a context with a valid accepted socket closes nothing and keeps the socket.
  pub reset_closes_nothing :
      (c : IoContext) (s : ℕ)
      → c.sock_accept ≡ some (some s)
      → (reset_io y c ≡ ok (cleared y c, [])) × ((cleared y c).sock_accept ≡ some (some s))
  unfolding reset_io cleared
  reset_closes_nothing c s e = (simp (reset_io, e) refl, e)

  -- A context that GetIoContext makes, the pool being empty, cannot be put back as it is: Reset
  -- reads its socket, which is uninitialised.
  pub put_new_context_undefined :
      (p : IoContextPool) (w : World)
      → p.list_io_context ≡ []
      → (q : IoContextPool) × (v : World) × (get_io_context y (p, w) ≡ (w.next, (q, v)))
        × (put_io_context y w.next (q, v) ≡ undefined)
  unfolding get_io_context put_io_context store reset_io new_io_context
  put_new_context_undefined p w e = (
    p,
    record (store w.next (some (new_io_context y)) w) { next = suc w.next },
    simp (get_io_context, e) refl,
    rw (==_refl w.next) refl,
  )

  -- PutIoContext of a live context with an initialised socket that the pool does not have keeps
  -- the pool sound: its contexts are live, cleared and different, and not more than its size.
  -- With room the context goes to the pool's end, cleared; a full pool stays as it is and the
  -- context is deleted; other contexts do not change.
  pub put_io_context_lem :
      (c : ℕ) (old : IoContext) (s : Socket) (p : IoContextPool) (w : World)
      → IsPool y p w
      → Absent c p.list_io_context
      → w.heap c ≡ some old
      → old.sock_accept ≡ some s
      → (q : IoContextPool) × (v : World) × (put_io_context y c (p, w) ≡ ok (q, v))
        × IsPool y q v
        × (q.pool_size ≡ p.pool_size)
        × ((a : ℕ) → (a == c) ≡ false → v.heap a ≡ w.heap a)
        × (((q.list_io_context ≡ p.list_io_context ++ (c ∷ [])) × (v.heap c ≡ some (cleared y old)))
            ⊎ ((length p.list_io_context ≡ p.pool_size) × (q ≡ p) × (v.heap c ≡ none)))
  unfolding put_io_context keep_or_delete store
  put_io_context_lem c old s p w h absent alive set =
      let (closed, eq) = reset_io_lem old s set in
      elim (Bool-cases (leb p.pool_size (length p.list_io_context))) [
        | inl full ↦ (
          p,
          store c none (record (store c (some (cleared y old)) w) { closed = w.closed ++ closed }),
          rw (alive, eq, full) refl,
          record {
            pooled =
                store-AllPooled y
                  (record (store c (some (cleared y old)) w) { closed = w.closed ++ closed }) c none
                  (w.closed ++ closed) p.list_io_context absent
                  (store-AllPooled y w c (some (cleared y old)) (w.closed ++ closed)
                    p.list_io_context absent h.pooled);
            distinct = h.distinct;
            bounded = h.bounded;
          },
          refl,
          λ a ne. rw ne refl,
          inr (ground (arith, h), refl, rw (==_refl c) refl),
        )
        | inr room ↦ (
          record p { list_io_context = p.list_io_context ++ (c ∷ []) },
          record (store c (some (cleared y old)) w) { closed = w.closed ++ closed },
          rw (alive, eq, room) refl,
          record {
            pooled =
                append-AllPooled y
                  (record (store c (some (cleared y old)) w) { closed = w.closed ++ closed })
                  p.list_io_context c
                  (store-AllPooled y w c (some (cleared y old)) (w.closed ++ closed)
                    p.list_io_context absent h.pooled)
                  (record { old = old; alive = rw (==_refl c) refl; initialised = (s, set) });
            distinct = AllDistinct-append p.list_io_context c h.distinct absent;
            bounded = ground (arith, length-append p.list_io_context (c ∷ []));
          },
          refl,
          λ a ne. rw ne refl,
          inl (refl, rw (==_refl c) refl),
        )
      ]

  -- GetIoContext from a sound pool that is not empty hands over its oldest context, live and
  -- cleared, which the pool then does not have, and keeps the pool sound.
  pub get_io_context_lem :
      (p : IoContextPool) (w : World)
      → IsPool y p w
      → 0 < length p.list_io_context
      → (c : ℕ) × (q : IoContextPool) × (get_io_context y (p, w) ≡ (c, (q, w)))
        × IsPooled y w c
        × Absent c q.list_io_context
        × IsPool y q w
        × (p.list_io_context ≡ c ∷ q.list_io_context)
  unfolding get_io_context
  get_io_context_lem p w h some_there = elim (List-cases p.list_io_context) [
    | inl e ↦ absurd (omega (arith, ap (λ (l : List ℕ). length l) e))
    | inr (c, cs, e) ↦
        let pooled : AllPooled y w (c ∷ cs) = rw e at h.pooled in
        let distinct : AllDistinct (c ∷ cs) = rw e at h.distinct in
        let bounded : length (c ∷ cs) ≤ p.pool_size = rw e at h.bounded in
        (
          c,
          record p { list_io_context = cs },
          simp (get_io_context, e) refl,
          pooled.0,
          distinct.0,
          record { pooled = pooled.1; distinct = distinct.1; bounded = omega (arith, bounded) },
          e,
        )
  ]

  -- A pool with room takes any live context, also one that it has.
  pub put_with_room :
      (c : ℕ) (old : IoContext) (s : Socket) (p : IoContextPool) (w : World)
      → w.heap c ≡ some old
      → old.sock_accept ≡ some s
      → length p.list_io_context < p.pool_size
      → (v : World) × (put_io_context y c (p, w)
          ≡ ok (record p { list_io_context = p.list_io_context ++ (c ∷ []) }, v))
        × (v.heap c ≡ some (cleared y old))
  unfolding put_io_context keep_or_delete store
  put_with_room c old s p w alive set room =
      let (closed, eq) = reset_io_lem old s set in
      let has_room : leb p.pool_size (length p.list_io_context) ≡ false = ground arith in
      (
        record (store c (some (cleared y old)) w) { closed = w.closed ++ closed },
        rw (alive, eq, has_room) refl,
        rw (==_refl c) refl,
      )
