-- ===== src/Runtime/Clock.antt =====
-- `unix_timestamp_millis` of server/src/main.rs: the server's time on the wire.
use vtnet.Base.{ℕ, ◌*◌, ◌+◌, ◌^◌, ◌≤◌, ◌<◌, ◌≡◌, ◌⊎◌, none, some, arith}
use vtnet.Runtime.Connection.{unix_timestamp_millis}

-- The timestamp fits the wire's 64 bits for every clock. A clock before the epoch reads 0; any other
-- reads the whole milliseconds since the epoch, or the greatest 64-bit number if there are more.
pub unix_timestamp_millis_lem :
    (duration : ℕ)
    → let millis = unix_timestamp_millis (some duration) in
      (unix_timestamp_millis none ≡ 0)
      × (millis < 2 ^ 64)
      × (millis * 1_000_000 ≤ duration)
      × ((duration < (millis + 1) * 1_000_000) ⊎ (millis + 1 ≡ 2 ^ 64))
unfolding unix_timestamp_millis
unix_timestamp_millis_lem duration = ground arith
