-- ===== src/Tests/Sockets.antt =====
-- The theorems on src/net/net_base.cc, async_acceptor.cc, timer_handler.cc and tcp_socket_addr.cc,
-- at concrete inputs.
use libolptnet.Base.{
  ℕ, ◌+◌, ◌-◌, pos, negsuc, ◌==ℤ◌, ok, ◌>>=◌, ◌≡◌, refl, ◌≢◌, inl, Bool, true, false, none, some,
  [], ◌∷◌,
}
use libolptnet.Connection.{LoopOps}
use libolptnet.NetBase
use libolptnet.NetBase.{
  World, ListenAnswers, net_tcp_listen, ConnectAnswers, net_tcp_connect, einprogress,
}
use libolptnet.NetBase.NoLeak.{OpensOne, net_tcp_listen-OpensOne}
use libolptnet.Acceptor
use libolptnet.Timer
use libolptnet.Timer.Stopping.{TimerFdLaws, stop_leaves_armed}
use libolptnet.Address

-- `::listen` fails.
abbrev no_listen : ListenAnswers
no_listen = record { socket = pos 4; bind = pos 0; listen = negsuc 0 }

net_tcp_listen-OpensOne_example : OpensOne (pos 3 ∷ []) (net_tcp_listen no_listen (pos 3 ∷ []))
net_tcp_listen-OpensOne_example = net_tcp_listen-OpensOne no_listen (pos 3 ∷ []) (inl (4, refl))

-- A loop that counts its handles.
abbrev counting : LoopOps ℕ
counting = record {
  register_event = λ l h r w. ok (pos 0, l + 1);
  modify_event = λ l h r w. ok (pos 0, l);
  delete_event = λ l h. ok (pos 0, l - 1);
}

abbrev listening : Acceptor.Acceptor ℕ
listening = record { listen_fd = pos 4; loop = 1; world = pos 4 ∷ pos 3 ∷ [] }

abbrev closed : Acceptor.Acceptor ℕ
closed = record { listen_fd = negsuc 0; loop = 0; world = pos 3 ∷ [] }

create_runs : Acceptor.create counting 0 (pos 3 ∷ []) ≡ closed
create_runs = refl

listens : (net_tcp_listen no_listen (pos 3 ∷ [])).0 ≢ pos 0
unfolding net_tcp_listen NetBase.net_tcp_bind NetBase.on_error ◌==ℤ◌
listens e = cc

-- Seconds as numbers; a timer that is armed or not.
abbrev seconds : Timer.Doubles ℕ
seconds = record { whole = λ n. pos n; nanoseconds = λ n. pos 0 }

abbrev timer : Timer.TimerFd Bool
timer = record {
  settime = λ t spec. elim spec [ none ↦ (negsuc 0, t) | some _ ↦ (pos 0, true) ];
  read = λ t. (pos 8, 1, t);
}

timer_laws : TimerFdLaws timer
timer_laws = record { refuses_null = λ t. refl }

abbrev ticking : Timer.TimerHandler ℕ Bool
ticking = record {
  timer_fd = pos 7;
  interval = 5;
  repeats = true;
  was_started = true;
  timer = true;
}

start_runs :
    (Timer.create seconds timer counting (pos 7) false 5 true >>= λ h.
    Timer.start seconds timer counting (h, 0))
    ≡ ok (pos 0, ticking, 1)
unfolding Timer.create Timer.start ◌==ℤ◌
start_runs = refl

stop_leaves_armed_example :
    Timer.stop seconds timer counting (ticking, 1) ≡ ok (record ticking { repeats = false }, 0)
stop_leaves_armed_example =
    stop_leaves_armed seconds timer counting ticking 1 0 timer_laws refl refl refl

blank_runs :
    Address.assign false Address.blank
      (Address.from_sockaddr (pos 4) (record { sin_family = 2; sin_port = 1; sin_addr = 9 }))
    ≡ record { socket_fd = pos 4; addr = record { sin_family = 2; sin_port = 1; sin_addr = 9 } }
unfolding Address.assign Address.blank Address.from_sockaddr
blank_runs = refl
