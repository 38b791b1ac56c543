-- ===== src/Tests/Desk.antt =====
-- Whole runs of the desk.
use afterhours.Desk.{Desk, new_desk}
use afterhours.System.{run}
use afterhours.Tests.Samples.{config, paper_day, assisted_day}

paper_end : Desk
paper_end = run config paper_day (new_desk config)

assisted_end : Desk
assisted_end = run config assisted_day (new_desk config)
