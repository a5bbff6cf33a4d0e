-- ===== src/Timers/Delay.antt =====
-- howMuchTimeFromNow of src/ZkTimerQueue.cc: what timerfd_settime gets, for times in microseconds.
use zookeeper_cpp_client.Common.{ℕ, ◌+◌, ◌-◌, ◌*◌, ◌/◌, ◌%◌, ◌≤◌, ◌<◌, ltb, if◌then◌else◌, arith}

pub record Timespec : Type 0 where
  pub tv_sec : ℕ
  pub tv_nsec : ℕ

-- A time that is past gives the least delay, as a negative difference does.
unfoldable pub how_much_time_from_now : ℕ → ℕ → Timespec
how_much_time_from_now when now =
    let microseconds = if ltb (when - now) 100 then 100 else when - now in
    record { tv_sec = microseconds / 1000000; tv_nsec = (microseconds % 1000000) * 1000 }

-- The delay is a normal timespec, not zero, which would disarm the timerfd, and ends no earlier than
-- the time, and at most 100 microseconds after both times.
how_much_time_from_now_lem :
    (when now : ℕ)
    → let ts = how_much_time_from_now when now in
      let delay = ts.tv_sec * 1000000000 + ts.tv_nsec in
      (ts.tv_nsec < 1000000000)
      × (100000 ≤ delay)
      × (when * 1000 ≤ now * 1000 + delay)
      × (now < when → now * 1000 + delay ≤ when * 1000 + 100000)
unfolding how_much_time_from_now
how_much_time_from_now_lem when now = (ground arith, ground arith, ground arith, λ l. ground arith)
