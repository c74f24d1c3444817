-- ===== src/Tests.antt =====
-- Runs of the code at concrete inputs, which show that the hypotheses of the theorems hold there.
mod Sessions
mod Updates
mod Rings
mod Lists
mod Identities
mod Errors
mod Pools
mod Stored
mod Devices
mod Lives
mod Pushes
mod Hosts
mod Ducks
mod Records
mod Descriptions
