-- ===== src/NetBase.antt =====
-- src/net/net_base.cc: how sockets are opened. The answers of the system calls are arguments; the
-- world is the list of descriptors that the process has open.
pub mod NoLeak
pub mod Options
pub mod Resolve
use libolptnet.Base.{
  ℤ, pos, negsuc, ◌==ℤ◌, is_nonneg, ◌==◌, if◌then◌else◌, Bool, ◌&&◌, ◌||◌, not, List, [], ◌∷◌,
}

abbrev pub World : Type 0
World = List ℤ

-- `::close`.
abbrev pub close_fd : ℤ → World → World
close_fd fd [] = []
close_fd fd (g ∷ w) = if fd ==ℤ g then w else g ∷ close_fd fd w

-- `::socket` opens a descriptor, or answers -1.
abbrev pub open_fd : ℤ → World → World
open_fd (pos n) w = pos n ∷ w
open_fd (negsuc n) w = w

abbrev pub failed : ℤ → Bool
failed result = result ==ℤ negsuc 0

-- The code behind `error:` in `net_tcp_bind` and in `_tcp_connect_sockaddr`.
unfoldable pub on_error : ℤ → World → ℤ × World
on_error sock w = (negsuc 0, if failed sock then w else close_fd sock w)

-- The answers of `::socket`, `::bind` and `::listen`.
pub record ListenAnswers : Type 0 where
  pub socket : ℤ
  pub bind : ℤ
  pub listen : ℤ

unfoldable pub net_tcp_bind : ListenAnswers → World → ℤ × World
unfolding on_error
net_tcp_bind a w =
    let w' = open_fd a.socket w in
    if failed a.socket
    then on_error a.socket w'
    else if failed a.bind
    then on_error a.socket w'
    else (a.socket, w')

unfoldable pub net_tcp_listen : ListenAnswers → World → ℤ × World
unfolding net_tcp_bind
net_tcp_listen a w =
    let (sock, w') = net_tcp_bind a w in
    if is_nonneg sock
    then (if failed a.listen then (negsuc 0, close_fd sock w') else (sock, w'))
    else (sock, w')

-- The answers of `::socket`, of the two calls of `::fcntl`, and of `::connect` with its `errno`.
pub record ConnectAnswers : Type 0 where
  pub socket : ℤ
  pub get_flags : ℤ
  pub set_flags : ℤ
  pub connect : ℤ
  pub errno : ℤ

-- EINPROGRESS.
abbrev pub einprogress : ℤ
einprogress = pos 115

-- `_tcp_connect_sockaddr`.
pub tcp_connect_sockaddr : ConnectAnswers → Bool → World → ℤ × World
unfolding on_error
tcp_connect_sockaddr a nonblock w =
    let w' = open_fd a.socket w in
    if failed a.socket
    then on_error a.socket w'
    else if nonblock && (failed a.get_flags || failed a.set_flags)
    then on_error a.socket w'
    else if failed a.connect && (not nonblock || not (a.errno ==ℤ einprogress))
    then on_error a.socket w'
    else (a.socket, w')

-- The value of `net_ip_sockaddr` decides whether `net_tcp_connect` and `net_tcp_connect_nonblock` go on.
pub net_tcp_connect : ℤ → ConnectAnswers → Bool → World → ℤ × World
unfolding tcp_connect_sockaddr
net_tcp_connect resolved a nonblock w =
    if is_nonneg resolved then tcp_connect_sockaddr a nonblock w else (negsuc 0, w)
