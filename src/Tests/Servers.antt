-- ===== src/Tests/Servers.antt =====
-- The theorems on src/example/acceptor_server.cc and src/example/service_handler.cc, at concrete inputs.
use libolptnet.Base.{◌+◌, ◌≤◌, ◌<◌, pos, ok, Returns, length, ◌≡◌, refl, ◌⊎◌, false, [], ◌∷◌, arith}
use libolptnet.Buffer.Read.{got}
use libolptnet.Connection.{LoopOps, do_handle_read}
use libolptnet.ServiceHandler.{on_read}
use libolptnet.ServiceHandler.Echo.{Echoed, echo}
use libolptnet.ThreadPool
use libolptnet.Acceptor
use libolptnet.AcceptorServer
use libolptnet.AcceptorServer.{
  max_client_count, OpenCall, AcceptorServer, accepted, closed, serve, accept_call,
  start_thread_pool, stop_thread_pool, handle, on_accept, remove_handler,
}
use libolptnet.AcceptorServer.Clients.{IsValid, serve-IsValid}
use libolptnet.AcceptorServer.Accepting.{TakesOver, accept_or_close}
use libolptnet.Tests.Connections.{one_handle, one_handle_laws, idle}

echo_example :
    Returns
      (Echoed one_handle one_handle_laws idle (1 ∷ 2 ∷ []))
      (do_handle_read one_handle (on_read one_handle) (got (1 ∷ 2 ∷ []) ∷ []) (idle, false))
echo_example =
    echo one_handle one_handle_laws [] (1 ∷ 2 ∷ []) [] idle false tt (omega arith) refl refl refl
      (omega arith) (record { known = tt; armed = refl })

-- Two loops, and no client yet.
abbrev fresh : AcceptorServer
fresh = record {
  clients = [];
  thpool = record { thread_num = 2; base_loop = 7; ev_loops = 21 ∷ 22 ∷ [] };
  index = 0;
  next = 30;
  queued = [];
}

fresh_runs : start_thread_pool (λ i. i + 21) (pos 2) (AcceptorServer.create 7 0 30) ≡ fresh
unfolding start_thread_pool AcceptorServer.create ThreadPool.open_pool ThreadPool.open_loops
    ThreadPool.set_thread_num
fresh_runs = refl

stop_runs : (stop_thread_pool fresh).thpool.ev_loops ≡ []
unfolding stop_thread_pool ThreadPool.close_pool
stop_runs = refl

fresh-IsValid : IsValid fresh
fresh-IsValid = record { bounded = omega arith; old = λ c e. cc; distinct = tt }

serve-IsValid_example :
    Returns IsValid (serve (accepted (pos 5) ∷ accepted (pos 6) ∷ closed 30 ∷ []) fresh)
serve-IsValid_example =
    serve-IsValid (accepted (pos 5) ∷ accepted (pos 6) ∷ closed 30 ∷ []) fresh fresh-IsValid
      (omega arith)

-- What `AsyncAcceptor` asks of its loop.
abbrev any_loop : LoopOps AcceptorServer
any_loop = record {
  register_event = λ l h r w. ok (pos 0, l);
  modify_event = λ l h r w. ok (pos 0, l);
  delete_event = λ l h. ok (pos 0, l);
}

abbrev listening : Acceptor.Acceptor AcceptorServer
listening = record { listen_fd = pos 4; loop = fresh; world = pos 4 ∷ [] }

accept_or_close_example :
    Returns
      (λ b.
        ((max_client_count ≤ length fresh.clients) × (b ≡ listening))
        ⊎ ((length fresh.clients < max_client_count) × TakesOver listening 6 b))
      (Acceptor.do_handle_read any_loop accept_call (pos 6) listening)
accept_or_close_example = accept_or_close any_loop listening 5 (omega arith)
