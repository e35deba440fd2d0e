-- ===== src/Witnesses.antt =====
-- The properties at concrete inputs, with the tests of the definitions that they are about.
mod Texts
mod Containers
mod Runs
mod Peers
mod Deliveries
mod Profiles
mod Machines
mod Jobs
mod Counters
mod Sessions
