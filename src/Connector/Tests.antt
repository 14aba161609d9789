-- ===== src/Connector/Tests.antt =====
-- A connection that fails at first.
use muduo.Base.{true, ℕ, ◌≡◌, refl, none, some, [], ◌∷◌}
use muduo.Connector.{
  Connector, connecting, closed, Answer, einprogress, start_in_loop, start_here, reset_channel_task,
  begin_connecting, new_connector,
}
use muduo.Connector.Invariant.{timer_event, run_timer, step}
use muduo.Connector.Reach.{Reach}
use muduo.Connector.TooEarly.{start_here-run_timer}

abbrev answer : ℕ → Answer
answer fd = record { sockfd = fd; errno = einprogress }

-- The state behind an attempt that is under way.
abbrev attempting : Connector
attempting = record new_connector {
  connect_ = true;
  state = connecting;
  channel = some 5;
  opened = 5 ∷ [];
}

-- The attempt has failed, and the connector has been stopped since.
abbrev stopped : Connector
stopped = record new_connector {
  timers = 500 ∷ [];
  retry_delay_ms = 1000;
  opened = 5 ∷ [];
  fates = closed 5 ∷ [];
}

start_here-run_timer_example :
    (c' : Connector) × (start_here (answer 6) stopped ≡ some c')
    × (run_timer c'.timers (answer 7) c' ≡ none)
start_here-run_timer_example =
    start_here-run_timer (answer 6) (answer 7) stopped 500 [] refl refl refl refl

-- A retry timer that is late: the functor that resets the channel is still queued.
abbrev late : Connector
late = record stopped { connect_ = true; channel = some 5; queue = reset_channel_task ∷ [] }

late_timer : step (timer_event (answer 6)) late ≡ none
unfolding start_in_loop begin_connecting
late_timer = refl
