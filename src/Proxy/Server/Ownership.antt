-- ===== src/Proxy/Server/Ownership.antt =====
-- Who closes, frees and destroys what `proxy_run` makes, and in which order.
use operation_systems.Base.{
  ℕ, ◌≡◌, refl, subst, inl, inr, Bool, true, false, not, ◌&&◌, List, [], ◌∷◌, Option, none, some,
  arith, ◌==◌, if◌then◌else◌, if_true, if_false, Bool-cases,
}
use operation_systems.Proxy.Server.{
  Effect, makes_cache, makes_pool, opens_listener, closes_listener, stops_pool, destroys_cache,
  accepts, closes_client, allocates, frees, submits, returns, returns_after, Run, does, AcceptEvent,
  connected, interrupted, failed, accept_loop, Env, proxy_run, create_listen_socket, SocketEffect,
  opens, closes, ListenEnv, ConnectEnv, connect_to_origin,
}

-- What the function owns: `client` is a descriptor that is open, `context` a block of its own.
pub record Server : Type 0 where
  pub cache : Bool
  pub pool : Bool
  pub listener : Bool
  pub client : Option ℕ
  pub context : Option ℕ

abbrev pub is : Option ℕ → ℕ → Bool
is none fd = false
is (some own) fd = own == fd

abbrev pub nothing : Option ℕ → Bool
nothing none = true
nothing (some own) = false

abbrev only_if : Bool → Server → Option Server
only_if test s = if test then some s else none

-- The cache outlives the pool, whose handlers use it, and the pool outlives the listener; a client and
-- its context go to the pool together, and what the pool did not take is closed and freed.
unfoldable pub allowed : Server → Effect → Option Server
allowed s makes_cache = only_if (not s.cache) (record s { cache = true })
allowed s makes_pool = only_if (s.cache && not s.pool) (record s { pool = true })
allowed s opens_listener = only_if (s.pool && not s.listener) (record s { listener = true })
allowed s closes_listener =
    only_if (s.listener && (nothing s.client && nothing s.context)) (record s { listener = false })
allowed s stops_pool = only_if (s.pool && not s.listener) (record s { pool = false })
allowed s destroys_cache = only_if (s.cache && not s.pool) (record s { cache = false })
allowed s (accepts fd) =
    only_if (s.listener && (nothing s.client && nothing s.context)) (record s { client = some fd })
allowed s (allocates fd) =
    only_if (is s.client fd && nothing s.context) (record s { context = some fd })
allowed s (submits fd) =
    only_if (s.pool && (is s.client fd && is s.context fd))
      (record s { client = none; context = none })
allowed s (closes_client fd) = only_if (is s.client fd) (record s { client = none })
allowed s (frees fd) = only_if (is s.context fd) (record s { context = none })

unfoldable pub replay : List Effect → Server → Option Server
unfolding allowed
replay [] s = some s
replay (effect ∷ effects) s = elim (allowed s effect) [
  | none ↦ none
  | some next ↦ replay effects next
]

abbrev pub owns_nothing : Server
owns_nothing = record {
  cache = false;
  pool = false;
  listener = false;
  client = none;
  context = none;
}

-- Between two calls of `accept`.
abbrev listening : Server
listening = record { cache = true; pool = true; listener = true; client = none; context = none }

abbrev Keeps : Server → Run → Type 0
Keeps s r =
    (end : Server) × (replay r.effects s ≡ some end)
    × ((code : ℕ) → r.status ≡ returns code → end ≡ owns_nothing)

itself : (fd : ℕ) → (fd == fd) ≡ true
itself fd = ground arith

accept_loop-Keeps : (events : List AcceptEvent) → Keeps listening (accept_loop events)
unfolding accept_loop replay
accept_loop-Keeps [] = (listening, refl, λ code h. cc)
accept_loop-Keeps (interrupted ∷ events) = accept_loop-Keeps events
accept_loop-Keeps (failed ∷ events) = (owns_nothing, refl, λ code h. refl)
accept_loop-Keeps (connected fd false submitted ∷ events) =
    let (end, q, fin) = accept_loop-Keeps events in (end, ground (arith, q), fin)
accept_loop-Keeps (connected fd true false ∷ events) =
    let (end, q, fin) = accept_loop-Keeps events in (end, ground (arith, q), fin)
accept_loop-Keeps (connected fd true true ∷ events) =
    let (end, q, fin) = accept_loop-Keeps events in (end, ground (arith, q), fin)

-- With the cache made, and with the pool made.
abbrev cached : Server
cached = record owns_nothing { cache = true }

abbrev pooled : Server
pooled = record owns_nothing { cache = true; pool = true }

listen-Keeps :
    (env : Env)
    → Keeps pooled (
        if (create_listen_socket env.listen).ok
        then does (opens_listener ∷ []) (accept_loop env.accepted)
        else returns_after (stops_pool ∷ destroys_cache ∷ []) 1)
unfolding replay
listen-Keeps env = elim (Bool-cases (create_listen_socket env.listen).ok) [
  | inl up ↦ subst (Keeps pooled) (if_true _ _ up) (accept_loop-Keeps env.accepted)
  | inr down ↦ subst (Keeps pooled) (if_false _ _ down) (owns_nothing, refl, λ code h. refl)
]

-- Whatever the kernel and the allocator answer: the listener is opened when the pool runs, and the
-- pool is made when the cache is; each client that is accepted goes to the pool with its context, or
-- is closed and its context freed; and if the function returns, with whatever code, it has closed the
-- listener, then stopped the pool, and only then destroyed the cache, as far as it had made them.
pub server_ownership :
    (env : Env)
    → (end : Server) × (replay (proxy_run env).effects owns_nothing ≡ some end)
      × ((code : ℕ) → (proxy_run env).status ≡ returns code → end ≡ owns_nothing)
unfolding proxy_run replay
server_ownership env = elim (Bool-cases env.cache_ok) [
  | inl cache ↦ subst (Keeps owns_nothing) (if_true _ _ cache) (elim (Bool-cases env.pool_ok) [
    | inl pool ↦ subst (Keeps cached) (if_true _ _ pool) (listen-Keeps env)
    | inr no_pool ↦ subst (Keeps cached) (if_false _ _ no_pool) (owns_nothing, refl, λ code h. refl)
  ])
  | inr no_cache ↦
      subst (Keeps owns_nothing) (if_false _ _ no_cache) (owns_nothing, refl, λ code h. refl)
]

-- Whether a descriptor is open behind the effects; `none` for one that is used while it is closed.
abbrev open_behind : List SocketEffect → Bool → Option Bool
open_behind [] is_open = some is_open
open_behind (opens ∷ effects) is_open = if is_open then none else open_behind effects true
open_behind (closes ∷ effects) is_open = if is_open then open_behind effects false else none
open_behind (_ ∷ effects) is_open = if is_open then open_behind effects true else none

-- On every path of the two functions that make sockets, the descriptor is used while it is open, and
-- it is open behind the call if and only if the call returns it.
pub sockets_not_leaked :
    (l : ListenEnv) (c : ConnectEnv)
    → (open_behind (create_listen_socket l).effects false ≡ some (create_listen_socket l).ok)
      × (open_behind (connect_to_origin c).effects false ≡ some (connect_to_origin c).ok)
unfolding create_listen_socket connect_to_origin
sockets_not_leaked l c = (ground arith, ground arith)
