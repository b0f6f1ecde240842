-- ===== src/Examples.antt =====
-- Runs of the theorems on concrete data.
mod Board
mod Bus
mod Commitments
mod Delegations
mod Deployments
mod Cron
mod Goals
mod Incidents
mod Services
