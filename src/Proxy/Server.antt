-- ===== src/Proxy/Server.antt =====
-- `proxy_run`: the set-up, the loop over `accept`, and the end, with the two functions that make
-- sockets.
--
-- A run is the list of what it does, given the answers of the kernel and of the allocator. The
-- listening socket is named by its part; a client by its descriptor, which also names its context.
pub mod Ownership
use operation_systems.Base.{
  ℕ, Bool, true, false, List, [], ◌∷◌, ◌++◌, Option, none, some, if◌then◌else◌,
}

-- What `create_listen_socket` and `connect_to_origin` do to the descriptor that they make.
pub data SocketEffect : Type 0 where
  opens sets_reuse binds listens connects closes : SocketEffect

-- The effects, and whether the descriptor is returned, or -1.
pub record Made : Type 0 where
  pub effects : List SocketEffect
  pub ok : Bool

abbrev gives : Made
gives = record { effects = []; ok = true }

-- The descriptor is closed again.
abbrev drops : Made
drops = record { effects = closes ∷ []; ok = false }

abbrev first_does : SocketEffect → Made → Made
first_does effect rest = record rest { effects = effect ∷ rest.effects }

abbrev refused : Made
refused = record { effects = []; ok = false }

-- Whether `socket`, `setsockopt`, `bind` and `listen` succeed.
pub record ListenEnv : Type 0 where
  pub socket_ok : Bool
  pub setsockopt_ok : Bool
  pub bind_ok : Bool
  pub listen_ok : Bool

unfoldable pub create_listen_socket : ListenEnv → Made
create_listen_socket env =
    if env.socket_ok
    then first_does opens (
        if env.setsockopt_ok
        then first_does sets_reuse (
            if env.bind_ok
            then first_does binds (if env.listen_ok then first_does listens gives else drops)
            else drops)
        else drops)
    else refused

-- Whether the name has an address, and `socket` and `connect` succeed.
pub record ConnectEnv : Type 0 where
  pub has_address : Bool
  pub socket_ok : Bool
  pub connect_ok : Bool

unfoldable pub connect_to_origin : ConnectEnv → Made
connect_to_origin env =
    if env.has_address
    then (if env.socket_ok
        then first_does opens (if env.connect_ok then first_does connects gives else drops)
        else refused)
    else refused

pub data Effect : Type 0 where
  makes_cache makes_pool opens_listener closes_listener stops_pool destroys_cache : Effect
  accepts closes_client allocates frees submits : ℕ → Effect

-- The function returns a code, or `accept` blocks.
pub data Status : Type 0 where
  returns : ℕ → Status
  blocked : Status

pub record Run : Type 0 where
  pub effects : List Effect
  pub status : Status

abbrev pub does : List Effect → Run → Run
does first r = record r { effects = first ++ r.effects }

abbrev pub returns_after : List Effect → ℕ → Run
returns_after effects code = record { effects = effects; status = returns code }

-- A call of `accept`: the descriptor, with whether `malloc` has a context and the pool takes the task.
pub data AcceptEvent : Type 0 where
  connected : ℕ → Bool → Bool → AcceptEvent
  interrupted failed : AcceptEvent

unfoldable pub accept_loop : List AcceptEvent → Run
accept_loop [] = record { effects = []; status = blocked }
accept_loop (interrupted ∷ events) = accept_loop events
accept_loop (failed ∷ events) = returns_after (closes_listener ∷ stops_pool ∷ destroys_cache ∷ []) 0
accept_loop (connected fd false submitted ∷ events) =
    does (accepts fd ∷ closes_client fd ∷ []) (accept_loop events)
accept_loop (connected fd true false ∷ events) =
    does (accepts fd ∷ allocates fd ∷ closes_client fd ∷ frees fd ∷ []) (accept_loop events)
accept_loop (connected fd true true ∷ events) =
    does (accepts fd ∷ allocates fd ∷ submits fd ∷ []) (accept_loop events)

pub record Env : Type 0 where
  pub cache_ok : Bool
  pub pool_ok : Bool
  pub listen : ListenEnv
  pub accepted : List AcceptEvent

unfoldable pub proxy_run : Env → Run
unfolding create_listen_socket accept_loop
proxy_run env =
    if env.cache_ok
    then does (makes_cache ∷ []) (
        if env.pool_ok
        then does (makes_pool ∷ []) (
            if (create_listen_socket env.listen).ok
            then does (opens_listener ∷ []) (accept_loop env.accepted)
            else returns_after (stops_pool ∷ destroys_cache ∷ []) 1)
        else returns_after (destroys_cache ∷ []) 1)
    else returns_after [] 1
