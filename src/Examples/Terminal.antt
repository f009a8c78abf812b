-- ===== src/Examples/Terminal.antt =====
-- The terminal at a concrete run.
use open_madt.Prelude.{codes}
use open_madt.Json.Access.{Outcome}
use open_madt.Server.Leases.{prune_expired_tabs, close_connection}
use open_madt.Server.Steps.{Reaches, here, onward, timer_fired, connection_ended}
use open_madt.Terminal.Tabs.{IsOrderlyIn, Reaches-IsOrderlyIn}
use open_madt.Examples.Docs.{Doc, docs, crypto, widgets, gui, world}
use open_madt.Examples.Browser.{one_tab, list-IsPlaced, list-IsWithin}
use open_madt.Server.State.{World}
use open_madt.Terminal.{Shown}

abbrev shown : World Doc (Shown Doc)
shown = record world { gui = Outcome.ok one_tab }

abbrev last : World Doc (Shown Doc)
last = close_connection gui 1 (prune_expired_tabs gui 9 shown)

-- The timer fires, and connection 1 ends.
run : Reaches docs crypto gui (codes "1") shown last
run = onward shown (prune_expired_tabs gui 9 shown) last (timer_fired 9 shown) (
    onward (prune_expired_tabs gui 9 shown) last last
      (connection_ended 1 (prune_expired_tabs gui 9 shown)) (here last))

Reaches-IsOrderlyIn_example : IsOrderlyIn last.gui
Reaches-IsOrderlyIn_example =
    Reaches-IsOrderlyIn docs widgets crypto (codes "1") shown last run
      (record { placed = list-IsPlaced; within = list-IsWithin })
