-- ===== src/Tests.antt =====
-- Runs at concrete inputs, one for each theorem that has hypotheses.
mod Keys
mod Deploying
mod Access
mod Granting
mod Recalling
mod Calls
mod Deployment
mod Guarding
mod Versions
mod Units
mod Upgrading
mod Routing
