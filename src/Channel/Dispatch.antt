-- ===== src/Channel/Dispatch.antt =====
-- `Channel::handleEvent` and `handleEventWithGuard`: which callbacks run, and in
-- which order. `S` is all that the callbacks may change; an unset `std::function` is `none`.
use muduo.Base.{
  Bool, true, false, ◌&&◌, ◌||◌, not, Option, none, some, ◌>>=◌, if◌then◌else◌, ◌≡◌, List, [], ◌∷◌,
  ◌++◌, arith,
}
use muduo.Channel.{Flags, Channel, none_event, bits_and, nonzero, write_event}

pub record Handlers {ℓ} (S : Type ℓ) : Type ℓ where
  pub close : Option (S → Option S)
  pub error : Option (S → Option S)
  pub read : Option (S → Option S)
  pub write : Option (S → Option S)

abbrev pub hup : Flags
hup = record none_event { pollhup = true }

abbrev pub pollin : Flags
pollin = record none_event { pollin = true }

abbrev pub error_event : Flags
error_event = record none_event { pollerr = true; pollnval = true }

abbrev pub readable_event : Flags
readable_event = record none_event { pollin = true; pollpri = true; pollrdhup = true }

-- `if (test && callback) callback();`
abbrev pub call_if {ℓ} : {S : Type ℓ} → Bool → Option (S → Option S) → S → Option S
call_if false f s = some s
call_if true none s = some s
call_if true (some f) s = f s

module _ {ℓ} {S : Type ℓ} (h : Handlers S) where
  unfoldable pub handle_event_with_guard : Flags → S → Option S
  handle_event_with_guard revents s = do
    s₁ ←
        call_if (nonzero (bits_and revents hup) && not (nonzero (bits_and revents pollin))) h.close
          s
    s₂ ← call_if (nonzero (bits_and revents error_event)) h.error s₁
    s₃ ← call_if (nonzero (bits_and revents readable_event)) h.read s₂
    call_if (nonzero (bits_and revents write_event)) h.write s₃

  -- A tied channel whose owner is gone handles nothing.
  unfoldable pub handle_event : Channel → Bool → S → Option S
  handle_event c alive s =
      if c.tied
      then (if alive then handle_event_with_guard c.revents s else some s)
      else handle_event_with_guard c.revents s

  -- The callbacks that the returned events call for, in the order of the calls.
  abbrev pub due : Flags → List (Option (S → Option S))
  due r =
      (if r.pollhup && not r.pollin then h.close ∷ [] else [])
      ++ ((if r.pollerr || r.pollnval then h.error ∷ [] else [])
          ++ ((if r.pollin || (r.pollpri || r.pollrdhup) then h.read ∷ [] else [])
              ++ (if r.pollout then h.write ∷ [] else [])))

abbrev pub run_all {ℓ} : {S : Type ℓ} → List (Option (S → Option S)) → S → Option S
run_all [] s = some s
run_all (f ∷ fs) s = call_if true f s >>= run_all fs

-- The callbacks that the events call for run one after the other, and no other does. One that stops
-- the program stops the row.
pub handle_event_with_guard-run_all {ℓ} :
    {S : Type ℓ} (h : Handlers S) (r : Flags) (s : S)
    → handle_event_with_guard h r s ≡ run_all (due h r) s
unfolding handle_event_with_guard
handle_event_with_guard-run_all h r s = ground arith
