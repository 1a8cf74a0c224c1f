-- ===== src/Kernel/Timers/Tests.antt =====
-- Runs of the timers of kernel/process.cc.
use net_os.Base.{◌≡◌, refl, List, [], ◌∷◌, add32}
use net_os.Kernel.Timers.{insert, sleep_until, tick, pit_handler}
use net_os.Kernel.Timers.Wakes.{Event, sleeps, ticks, run, wake_at, none-Holds, run-wake_at}

abbrev events : List Event
events = sleeps 3 7 ∷ sleeps 2 8 ∷ ticks ∷ sleeps 3 9 ∷ sleeps 1 6 ∷ ticks ∷ ticks ∷ ticks ∷ []

run-events :
    run 1000 events (record { jiffies = 0; timers = [] }) ≡ [] ∷ (8 ∷ []) ∷ (7 ∷ 9 ∷ []) ∷ [] ∷ []
unfolding run sleep_until insert tick pit_handler add32
run-events = refl

-- millis * hz wraps around: at 1000 ticks a second a sleep until 4294969 milliseconds ends at the first tick.
wraps :
    run 1000 (sleeps 4294969 7 ∷ ticks ∷ []) (record { jiffies = 0; timers = [] }) ≡ (7 ∷ []) ∷ []
unfolding run sleep_until insert tick pit_handler add32
wraps = refl

run-wake_at_example :
    run 1000 events (record { jiffies = 0; timers = [] }) ≡ wake_at 1000 events 0 []
run-wake_at_example = run-wake_at 1000 events 0 [] [] (none-Holds 0)
