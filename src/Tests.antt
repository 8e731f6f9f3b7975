-- ===== src/Tests.antt =====
-- Runs of the model at concrete inputs, and every theorem with hypotheses at an input that meets
-- them.
mod Scenario
mod Network
mod Market
mod Names
mod Rentals
mod Removals
mod Mothers
mod Lockers
mod Governance
mod World
mod Logs
mod Counts
mod Readings
mod Locks
