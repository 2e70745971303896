-- ===== src/Tests.antt =====
-- The results at concrete jobs, requests and databases.
mod Samples
mod Plans
mod Scenarios
mod Disruptions
mod Remotes
mod Stores
mod Idents
mod Rounds
mod Requests
mod Calls
mod Rests
mod Restarts
mod Workers
mod Commands
mod Cycobj
mod Executions
mod Databases
