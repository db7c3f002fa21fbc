-- ===== src/AcceptorServer.antt =====
-- src/example/acceptor_server.h and src/example/acceptor_server.cc: the server that keeps its connections and
-- shares them out over a pool of loops. A `service_handler` is a pointer, numbered in the order of `new`.
pub mod Clients
pub mod Accepting
use libolptnet.Base.{
  ℕ, suc, ◌+◌, ℤ, Outcome, ok, ◌>>=◌, ◌>>◌, length, leb, ◌==◌, if◌then◌else◌, Bool, true, false,
  List, [], ◌∷◌, ◌++◌,
}
use libolptnet.ThreadPool.{ThpoolServiceLoop, init, set_thread_num, open_pool, close_pool, get_loop}
use libolptnet.Acceptor.{Acceptor}

-- MAX_CLIENT_COUNT.
abbrev pub max_client_count : ℕ
max_client_count = 1024

-- `RunableFunctor f`: `service_handler::open` of the handler, with the address of the descriptor.
pub record OpenCall : Type 0 where
  pub handler : ℕ
  pub address : ℤ

-- `index` is the static variable of `get_loop`; `queued` are the functors that were handed to loops, with the
-- loop's pointer; `next` is what `new` returns next.
pub record AcceptorServer : Type 0 where
  pub clients : List ℕ
  pub thpool : ThpoolServiceLoop
  pub index : ℕ
  pub next : ℕ
  pub queued : List (ℕ × OpenCall)

-- The constructor, with the loop's pointer.
unfoldable pub create : ℕ → ℕ → ℕ → AcceptorServer
create loop index next = record {
  clients = [];
  thpool = init loop;
  index = index;
  next = next;
  queued = [];
}

unfoldable pub start_thread_pool : (ℕ → ℕ) → ℤ → AcceptorServer → AcceptorServer
start_thread_pool start_loop thread_num s = record s {
  thpool = open_pool start_loop (set_thread_num s.thpool thread_num);
}

unfoldable pub stop_thread_pool : AcceptorServer → AcceptorServer
stop_thread_pool s = record s { thpool = close_pool s.thpool }

-- What follows `get_loop` in `on_accept`: `add_run` and `push_back`.
abbrev pub handed : AcceptorServer → ℤ → ℕ × ℕ → Bool × AcceptorServer
handed s addr (loop, index) = (
  true,
  record s {
    clients = s.clients ++ s.next ∷ [];
    index = index;
    next = suc s.next;
    queued = s.queued ++ (loop, record { handler = s.next; address = addr }) ∷ [];
  },
)

pub on_accept : ℤ → AcceptorServer → Outcome (Bool × AcceptorServer)
on_accept addr s =
    if leb max_client_count (length s.clients)
    then ok (false, s)
    else (get_loop s.thpool s.index >>= λ r. ok (handed s addr r))

-- The loop of `remove_handler`.
pub erase : ℕ → List ℕ → List ℕ
erase handler [] = []
erase handler (c ∷ cs) = if c == handler then cs else c ∷ erase handler cs

pub remove_handler : ℕ → AcceptorServer → AcceptorServer
unfolding erase
remove_handler handler s = record s { clients = erase handler s.clients }

-- What reaches the server: a connection that was accepted, and the end of one.
pub data ServerEvent : Type 0 where
  accepted : ℤ → ServerEvent
  closed : ℕ → ServerEvent

pub handle : ServerEvent → AcceptorServer → Outcome AcceptorServer
unfolding on_accept remove_handler
handle (accepted addr) s = on_accept addr s >>= λ r. ok r.1
handle (closed handler) s = ok (remove_handler handler s)

pub serve : List ServerEvent → AcceptorServer → Outcome AcceptorServer
serve [] s = ok s
serve (e ∷ es) s = handle e s >>= serve es

-- The virtual call in `AsyncAcceptor::do_handle_read`: the acceptor carries the server.
pub accept_call : ℤ → Acceptor AcceptorServer → Outcome (Bool × Acceptor AcceptorServer)
unfolding on_accept
accept_call fd a = on_accept fd a.loop >>= λ r. ok (r.0, record a { loop = r.1 })
