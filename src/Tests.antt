-- ===== src/Tests.antt =====
-- The theorems at concrete inputs, and runs of the definitions.
mod Updaters
mod Bridges
mod Aggregators
mod Facades
mod Discoveries
mod Announcements
mod Hosts
mod Listeners
mod Mongos
mod Queries
mod Queried
mod Decorators
mod Tokens
mod Versioned
mod Routed
mod Served
mod Subscribed
mod Webs
