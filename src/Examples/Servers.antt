-- ===== src/Examples/Servers.antt =====
-- A server with three clients: one served, one refused by the pool, one without a context.
use operation_systems.Base.{ℕ, ◌≡◌, refl, true, false, [], ◌∷◌, some}
use operation_systems.Proxy.Server.{
  makes_cache, makes_pool, opens_listener, closes_listener, stops_pool, destroys_cache, accepts,
  closes_client, allocates, frees, submits, returns, connected, interrupted, failed, Env, ListenEnv,
  proxy_run,
}
use operation_systems.Proxy.Server.Ownership.{Server, owns_nothing, replay, server_ownership}

abbrev can_listen : ListenEnv
can_listen = record { socket_ok = true; setsockopt_ok = true; bind_ok = true; listen_ok = true }

abbrev three_clients : Env
three_clients = record {
  cache_ok = true;
  pool_ok = true;
  listen = can_listen;
  accepted =
      connected 5 true true
      ∷ connected 6 true false
      ∷ interrupted
      ∷ connected 7 false false
      ∷ failed
      ∷ [];
}

three_clients_run :
    (proxy_run three_clients).effects
    ≡ makes_cache
      ∷ makes_pool
      ∷ opens_listener
      ∷ accepts 5
      ∷ allocates 5
      ∷ submits 5
      ∷ accepts 6
      ∷ allocates 6
      ∷ closes_client 6
      ∷ frees 6
      ∷ accepts 7
      ∷ closes_client 7
      ∷ closes_listener
      ∷ stops_pool
      ∷ destroys_cache
      ∷ []
unfolding proxy_run
three_clients_run = refl

port_in_use :
    (proxy_run (record three_clients { listen = record can_listen { bind_ok = false } })).status
    ≡ returns 1
unfolding proxy_run
port_in_use = refl

server_ownership_example :
    (end : Server) × (replay (proxy_run three_clients).effects owns_nothing ≡ some end)
    × ((code : ℕ) → (proxy_run three_clients).status ≡ returns code → end ≡ owns_nothing)
server_ownership_example = server_ownership three_clients
