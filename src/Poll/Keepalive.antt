-- ===== src/Poll/Keepalive.antt =====
-- coordinator.py: the writes that keep the monitor alive.
use delonghi_coffeelink.Prelude.{ℕ, ◌-◌, ◌≤◌, ◌≡◌, arith, Bool, true, not, ◌||◌, ltb}
use delonghi_coffeelink.Const.{monitor_keepalive_interval}
use delonghi_coffeelink.Poll.{MonitorSession, refresh_monitor_session}

-- A write that the cloud takes is followed by no other write for the interval, and one that fails
-- is tried again at the very next poll.
refresh_monitor_session-again :
    (now later : ℕ) (accepted again : Bool) (k : MonitorSession)
    → now ≤ later
    → (refresh_monitor_session now accepted k).0 ≡ true
    → (refresh_monitor_session later again (refresh_monitor_session now accepted k).1).0
      ≡ (not accepted || not (ltb (later - now) monitor_keepalive_interval))
unfolding refresh_monitor_session
refresh_monitor_session-again now later accepted again k order wrote = ground (arith, wrote)
