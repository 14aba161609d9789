-- ===== src/Connector.antt =====
-- muduo/net/Connector.h and Connector.cc: the making of a connection, with retries. The loop is the
-- queue of the connector's functors and its timers; what the kernel answers is an argument. `none` is
-- a failed assertion, or a channel that is used where there is none.
pub mod Invariant
pub mod Steps
pub mod Safety
pub mod Reach
pub mod TooEarly
mod Tests
use muduo.Base.{
  Bool, true, false, ℕ, ◌*◌, ◌-◌, min, Option, none, some, List, [], ◌∷◌, ◌++◌, ◌==◌, if◌then◌else◌,
  ◌>>=◌, ◌>>◌, assert,
}

pub data States : Type 0 where
  disconnected : States
  connecting : States
  connected : States

-- The functors that are queued.
pub data Task : Type 0 where
  start_in_loop_task : Task
  stop_in_loop_task : Task
  reset_channel_task : Task

-- What has been done with a socket.
pub data Fate : Type 0 where
  closed : ℕ → Fate
  given : ℕ → Fate

-- The connector, what is queued and set in its loop, and the sockets that it has opened and let go.
-- `given` is a call of `newConnectionCallback_`.
pub record Connector : Type 0 where
  pub connect_ : Bool
  pub state : States
  pub channel : Option ℕ
  pub retry_delay_ms : ℕ
  pub queue : List Task
  pub timers : List ℕ
  pub opened : List ℕ
  pub fates : List Fate

abbrev pub k_max_retry_delay_ms : ℕ
k_max_retry_delay_ms = 30 * 1000

abbrev pub k_init_retry_delay_ms : ℕ
k_init_retry_delay_ms = 500

abbrev pub new_connector : Connector
new_connector = record {
  connect_ = false;
  state = disconnected;
  channel = none;
  retry_delay_ms = k_init_retry_delay_ms;
  queue = [];
  timers = [];
  opened = [];
  fates = [];
}

-- The values of `errno` after `connect` that the code tells apart; `other` is any further one.
pub data Errno : Type 0 where
  no_error : Errno
  einprogress : Errno
  eintr : Errno
  eisconn : Errno
  eagain : Errno
  eaddrinuse : Errno
  eaddrnotavail : Errno
  econnrefused : Errno
  enetunreach : Errno
  eacces : Errno
  eperm : Errno
  eafnosupport : Errno
  ealready : Errno
  ebadf : Errno
  efault : Errno
  enotsock : Errno
  other : Errno

abbrev pub is_disconnected : States → Bool
is_disconnected disconnected = true
is_disconnected connecting = false
is_disconnected connected = false

abbrev pub is_connecting : States → Bool
is_connecting disconnected = false
is_connecting connecting = true
is_connecting connected = false

abbrev pub is_none : Option ℕ → Bool
is_none none = true
is_none (some fd) = false

-- `sockets::close`
abbrev pub close : ℕ → Connector → Connector
close sockfd c = record c { fates = c.fates ++ closed sockfd ∷ [] }

abbrev pub queue_in_loop : Task → Connector → Connector
queue_in_loop task c = record c { queue = c.queue ++ task ∷ [] }

abbrev pub schedule : Connector → Connector
schedule c = record c {
  timers = c.timers ++ c.retry_delay_ms ∷ [];
  retry_delay_ms = min (c.retry_delay_ms * 2) k_max_retry_delay_ms;
}

unfoldable pub retry : ℕ → Connector → Connector
retry sockfd c =
    let c₁ = record (close sockfd c) { state = disconnected } in
    if c.connect_ then schedule c₁ else c₁

-- `connecting`; a channel that is there is the assertion.
unfoldable pub begin_connecting : ℕ → Connector → Option Connector
begin_connecting sockfd c = do
  assert (is_none c.channel)
  some (record c { state = connecting; channel = some sockfd })

-- The `switch` of `connect`.
unfoldable pub after_connect : Errno → ℕ → Connector → Option Connector
unfolding begin_connecting retry
after_connect no_error sockfd c = begin_connecting sockfd c
after_connect einprogress sockfd c = begin_connecting sockfd c
after_connect eintr sockfd c = begin_connecting sockfd c
after_connect eisconn sockfd c = begin_connecting sockfd c
after_connect eagain sockfd c = some (retry sockfd c)
after_connect eaddrinuse sockfd c = some (retry sockfd c)
after_connect eaddrnotavail sockfd c = some (retry sockfd c)
after_connect econnrefused sockfd c = some (retry sockfd c)
after_connect enetunreach sockfd c = some (retry sockfd c)
after_connect eacces sockfd c = some (close sockfd c)
after_connect eperm sockfd c = some (close sockfd c)
after_connect eafnosupport sockfd c = some (close sockfd c)
after_connect ealready sockfd c = some (close sockfd c)
after_connect ebadf sockfd c = some (close sockfd c)
after_connect efault sockfd c = some (close sockfd c)
after_connect enotsock sockfd c = some (close sockfd c)
after_connect other sockfd c = some (close sockfd c)

-- The socket that the kernel makes, and its answer to `connect`.
pub record Answer : Type 0 where
  pub sockfd : ℕ
  pub errno : Errno

unfoldable pub connect : Answer → Connector → Option Connector
unfolding after_connect
connect k c = after_connect k.errno k.sockfd (record c { opened = c.opened ++ k.sockfd ∷ [] })

unfoldable pub start_in_loop : Answer → Connector → Option Connector
unfolding connect
start_in_loop k c = do assert (is_disconnected c.state); if c.connect_ then connect k c else some c

-- `start` on the loop's thread, and on another one.
abbrev pub start_here : Answer → Connector → Option Connector
start_here k c = start_in_loop k (record c { connect_ = true })

abbrev pub start_away : Connector → Connector
start_away c = queue_in_loop start_in_loop_task (record c { connect_ = true })

abbrev pub stop : Connector → Connector
stop c = queue_in_loop stop_in_loop_task (record c { connect_ = false })

-- The descriptor, and the connector behind `removeAndResetChannel`.
abbrev pub remove_and_reset_channel : Connector → Option (ℕ × Connector)
remove_and_reset_channel c = do
  sockfd ← c.channel
  some (sockfd, queue_in_loop reset_channel_task c)

abbrev pub reset_channel : Connector → Connector
reset_channel c = record c { channel = none }

unfoldable pub stop_in_loop : Connector → Option Connector
unfolding retry
stop_in_loop c =
    if is_connecting c.state
    then (do
      removed ← remove_and_reset_channel (record c { state = disconnected })
      some (retry removed.0 removed.1))
    else some c

abbrev pub restart : Answer → Connector → Option Connector
restart k c =
    start_in_loop k
      (record c { state = disconnected; retry_delay_ms = k_init_retry_delay_ms; connect_ = true })

-- `err` is the socket's error, `self_connect` whether both ends have one address.
unfoldable pub handle_write : ℕ → Bool → Connector → Option Connector
unfolding retry
handle_write err self_connect c =
    if is_connecting c.state
    then (do
      removed ← remove_and_reset_channel c
      let (sockfd, c₁) = removed
      some (
          if err == 0
          then (if self_connect
              then retry sockfd c₁
              else (if c.connect_
                  then record c₁ { state = connected; fates = c.fates ++ given sockfd ∷ [] }
                  else close sockfd (record c₁ { state = connected })))
          else retry sockfd c₁))
    else (do assert (is_disconnected c.state); some c)

unfoldable pub handle_error : Connector → Option Connector
unfolding retry
handle_error c =
    if is_connecting c.state
    then (do removed ← remove_and_reset_channel c; some (retry removed.0 removed.1))
    else some c
