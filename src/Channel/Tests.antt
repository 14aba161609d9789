-- ===== src/Channel/Tests.antt =====
-- The dispatch of a hang-up that comes with output space.
use muduo.Base.{true, ℕ, ◌+◌, ◌*◌, ◌≡◌, none, some}
use muduo.Channel.{Flags, none_event}
use muduo.Channel.Dispatch.{Handlers, handle_event_with_guard, handle_event_with_guard-run_all}

abbrev counting : Handlers ℕ
counting = record {
  close = some (λ n. some (n + 1));
  error = none;
  read = some (λ n. none);
  write = some (λ n. some (n * 10));
}

abbrev hung_up : Flags
hung_up = record none_event { pollhup = true; pollout = true }

handle_event_with_guard-run_all_example : handle_event_with_guard counting hung_up 4 ≡ some 50
handle_event_with_guard-run_all_example = handle_event_with_guard-run_all counting hung_up 4
