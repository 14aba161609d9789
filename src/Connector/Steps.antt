-- ===== src/Connector/Steps.antt =====
-- Every step runs through and keeps the connector in one of the situations.
use muduo.Base.{
  Bool, true, false, ℕ, ◌==◌, none, some, List, [], ◌∷◌, ◌++◌, map, length, length-append, ◌≡◌,
  refl, sym, ap, ◌∙◌, if◌then◌else◌, Gives, Bool-cases, ◌⊎◌, inl, inr, subst, arith,
}
use muduo.Connector.{
  Connector, disconnected, connecting, connected, reset_channel_task, Fate, closed, given, Answer,
  close, retry, queue_in_loop, begin_connecting, after_connect, connect, start_in_loop,
  stop_in_loop, handle_write, handle_error, Errno, no_error, einprogress, eintr, eisconn, eagain,
  eaddrinuse, eaddrnotavail, econnrefused, enetunreach, eacces, eperm, eafnosupport, ealready,
  ebadf, efault, enotsock, other,
}
use muduo.Connector.Invariant.{
  starts, resets, starts-append, resets-append, sockfd_of, gone, Mode, resting, retiring, trying,
  making,
}

map-snoc :
    (xs : List Fate) (x : Fate)
    → map sockfd_of (xs ++ x ∷ []) ≡ map sockfd_of xs ++ sockfd_of x ∷ []
map-snoc [] x = refl
map-snoc (y ∷ ys) x = ap (◌∷◌ (sockfd_of y)) (map-snoc ys x)

-- A socket that has been opened and is let go.
let_go :
    (c : Connector) (f : Fate)
    → c.opened ≡ gone c ++ sockfd_of f ∷ []
    → c.opened ≡ map sockfd_of (c.fates ++ f ∷ [])
let_go c f h = h ∙ sym (map-snoc c.fates f)

-- `retry` on a connector whose channel is being reset, and on one without a channel.
retry-retiring :
    (fd : ℕ) (c : Connector) {g : ℕ}
    → c.channel ≡ some g
    → resets c.queue ≡ 1
    → starts c.queue ≡ 0
    → length c.timers ≡ 0
    → c.opened ≡ gone c ++ fd ∷ []
    → Mode (retry fd c)
unfolding retry
retry-retiring fd c {g} ch r s t o = elim (Bool-cases c.connect_) [
  | inl e ↦ rw e (
      retiring g refl ch r s (omega (arith, length-append c.timers (c.retry_delay_ms ∷ [])))
        (let_go c (closed fd) o))
  | inr e ↦ rw e (retiring g refl ch r s (omega arith) (let_go c (closed fd) o))
]

module _ (k : Answer) (c : Connector) (st : c.state ≡ disconnected) (ch : c.channel ≡ none)
    (r : resets c.queue ≡ 0) (s : starts c.queue ≡ 0) (t : length c.timers ≡ 0)
    (o : c.opened ≡ gone c ++ k.sockfd ∷ []) where
  begun : Gives (begin_connecting k.sockfd c) Mode
  unfolding begin_connecting
  begun = (
    record c { state = connecting; channel = some k.sockfd },
    rw ch refl,
    trying k.sockfd refl refl r s t o,
  )

  retried : Gives (some (retry k.sockfd c)) Mode
  unfolding retry
  retried = (
    retry k.sockfd c,
    refl,
    elim (Bool-cases c.connect_) [
      | inl e ↦ rw e (
          resting refl ch r (omega (arith, length-append c.timers (c.retry_delay_ms ∷ [])))
            (let_go c (closed k.sockfd) o))
      | inr e ↦ rw e (resting refl ch r (omega arith) (let_go c (closed k.sockfd) o))
    ],
  )

  given_up : Gives (some (close k.sockfd c)) Mode
  given_up = (close k.sockfd c, refl, resting st ch r (omega arith) (let_go c (closed k.sockfd) o))

  connect_cases : (e : Errno) → Gives (after_connect e k.sockfd c) Mode
  unfolding after_connect
  connect_cases no_error = begun
  connect_cases einprogress = begun
  connect_cases eintr = begun
  connect_cases eisconn = begun
  connect_cases eagain = retried
  connect_cases eaddrinuse = retried
  connect_cases eaddrnotavail = retried
  connect_cases econnrefused = retried
  connect_cases enetunreach = retried
  connect_cases eacces = given_up
  connect_cases eperm = given_up
  connect_cases eafnosupport = given_up
  connect_cases ealready = given_up
  connect_cases ebadf = given_up
  connect_cases efault = given_up
  connect_cases enotsock = given_up
  connect_cases other = given_up

pub start_in_loop-connect :
    (k : Answer) (c : Connector)
    → c.state ≡ disconnected
    → c.connect_ ≡ true
    → start_in_loop k c
      ≡ after_connect k.errno k.sockfd (record c { opened = c.opened ++ k.sockfd ∷ [] })
unfolding start_in_loop connect
start_in_loop-connect k c st e = rw (st, e) refl

start_in_loop-idle :
    (k : Answer) (c : Connector)
    → c.state ≡ disconnected
    → c.connect_ ≡ false
    → start_in_loop k c ≡ some c
unfolding start_in_loop
start_in_loop-idle k c st e = rw (st, e) refl

-- `startInLoop` with no other start to come.
pub start_in_loop-Mode :
    (k : Answer) (c : Connector)
    → c.state ≡ disconnected
    → c.channel ≡ none
    → resets c.queue ≡ 0
    → starts c.queue ≡ 0
    → length c.timers ≡ 0
    → c.opened ≡ gone c
    → Gives (start_in_loop k c) Mode
start_in_loop-Mode k c st ch r s t o = elim (Bool-cases c.connect_) [
  | inl e ↦
      (let (c', run, m) =
          connect_cases k (record c { opened = c.opened ++ k.sockfd ∷ [] }) st ch r s t
            (ap (λ xs. xs ++ k.sockfd ∷ []) o) k.errno in
        (c', start_in_loop-connect k c st e ∙ run, m))
  | inr e ↦ (c, start_in_loop-idle k c st e, resting st ch r (omega arith) o)
]

-- `startInLoop` while the channel of an attempt that is over is still there: a new attempt that gets as
-- far as its own channel fails the assertion that there is none.
module _ (k : Answer) (c : Connector) (g : ℕ) (st : c.state ≡ disconnected)
    (ch : c.channel ≡ some g) (r : resets c.queue ≡ 1) (s : starts c.queue ≡ 0)
    (t : length c.timers ≡ 0) (o : c.opened ≡ gone c ++ k.sockfd ∷ []) where
  stands_in : begin_connecting k.sockfd c ≡ none
  unfolding begin_connecting
  stands_in = rw ch refl

  retried_late : Gives (some (retry k.sockfd c)) Mode
  retried_late = (retry k.sockfd c, refl, retry-retiring k.sockfd c ch r s t o)

  given_up_late : Gives (some (close k.sockfd c)) Mode
  given_up_late =
      (close k.sockfd c, refl, retiring g st ch r s (omega arith) (let_go c (closed k.sockfd) o))

  connect_late :
      (e : Errno) → Gives (after_connect e k.sockfd c) Mode ⊎ (after_connect e k.sockfd c ≡ none)
  unfolding after_connect
  connect_late no_error = inr stands_in
  connect_late einprogress = inr stands_in
  connect_late eintr = inr stands_in
  connect_late eisconn = inr stands_in
  connect_late eagain = inl retried_late
  connect_late eaddrinuse = inl retried_late
  connect_late eaddrnotavail = inl retried_late
  connect_late econnrefused = inl retried_late
  connect_late enetunreach = inl retried_late
  connect_late eacces = inl given_up_late
  connect_late eperm = inl given_up_late
  connect_late eafnosupport = inl given_up_late
  connect_late ealready = inl given_up_late
  connect_late ebadf = inl given_up_late
  connect_late efault = inl given_up_late
  connect_late enotsock = inl given_up_late
  connect_late other = inl given_up_late

pub start_in_loop-late :
    (k : Answer) (c : Connector) (g : ℕ)
    → c.state ≡ disconnected
    → c.channel ≡ some g
    → resets c.queue ≡ 1
    → starts c.queue ≡ 0
    → length c.timers ≡ 0
    → c.opened ≡ gone c
    → Gives (start_in_loop k c) Mode ⊎ (start_in_loop k c ≡ none)
start_in_loop-late k c g st ch r s t o = elim (Bool-cases c.connect_) [
  | inl e ↦
      subst (λ out. Gives out Mode ⊎ (out ≡ none)) (sym (start_in_loop-connect k c st e))
        (connect_late k (record c { opened = c.opened ++ k.sockfd ∷ [] }) g st ch r s t
          (ap (λ xs. xs ++ k.sockfd ∷ []) o) k.errno)
  | inr e ↦ inl (c, start_in_loop-idle k c st e, retiring g st ch r s (omega arith) o)
]

-- The channel of an attempt, when something happens to it.
module _ (fd : ℕ) (c : Connector) (st : c.state ≡ connecting) (ch : c.channel ≡ some fd)
    (r : resets c.queue ≡ 0) (s : starts c.queue ≡ 0) (t : length c.timers ≡ 0)
    (o : c.opened ≡ gone c ++ fd ∷ []) where
  abbrev pub queued : Connector
  queued = queue_in_loop reset_channel_task c

  resets-queued : resets queued.queue ≡ 1
  resets-queued = omega (arith, resets-append c.queue (reset_channel_task ∷ []))

  starts-queued : starts queued.queue ≡ 0
  starts-queued = omega (arith, starts-append c.queue (reset_channel_task ∷ []))

  stop_in_loop-run : stop_in_loop c ≡ some (retry fd (record queued { state = disconnected }))
  unfolding stop_in_loop
  stop_in_loop-run = rw (st, ch) refl

  pub stop_in_loop-trying : Gives (stop_in_loop c) Mode
  stop_in_loop-trying = (
    _,
    stop_in_loop-run,
    retry-retiring fd (record queued { state = disconnected }) ch resets-queued starts-queued t o,
  )

  pub handle_error-run : handle_error c ≡ some (retry fd queued)
  unfolding handle_error
  handle_error-run = rw (st, ch) refl

  pub handle_error-trying : Gives (handle_error c) Mode
  handle_error-trying =
      (_, handle_error-run, retry-retiring fd queued ch resets-queued starts-queued t o)

  -- The four ends of `handleWrite`.
  abbrev attempt : Bool → Bool → Bool → Connector
  attempt clear self_connect wanted =
      if clear
      then (if self_connect
          then retry fd queued
          else (if wanted
              then record queued { state = connected; fates = c.fates ++ given fd ∷ [] }
              else close fd (record queued { state = connected })))
      else retry fd queued

  handle_write-run :
      (err : ℕ) (self_connect : Bool)
      → handle_write err self_connect c ≡ some (attempt (err == 0) self_connect c.connect_)
  unfolding handle_write
  handle_write-run err self_connect = rw (st, ch) refl

  attempt-Mode : (clear self_connect wanted : Bool) → Mode (attempt clear self_connect wanted)
  attempt-Mode false self_connect wanted =
      retry-retiring fd queued ch resets-queued starts-queued t o
  attempt-Mode true true wanted = retry-retiring fd queued ch resets-queued starts-queued t o
  attempt-Mode true false true =
      making fd refl ch resets-queued starts-queued t (let_go c (given fd) o)
  attempt-Mode true false false =
      making fd refl ch resets-queued starts-queued t (let_go c (closed fd) o)

  pub handle_write-trying :
      (err : ℕ) (self_connect : Bool) → Gives (handle_write err self_connect c) Mode
  handle_write-trying err self_connect =
      (_, handle_write-run err self_connect, attempt-Mode (err == 0) self_connect c.connect_)
