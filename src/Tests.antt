-- ===== src/Tests.antt =====
-- Runs of the models at fixed inputs, and each theorem at inputs that meet its hypotheses. One child
-- for each service.
mod Views
mod Leases
mod Locks
mod Stores
mod Sessions
mod Buffers
mod Urls
mod Tribbles
mod Sockets
mod Routes
mod Reads
mod Clients
mod Schedulers
mod Feeds
mod Proxies
mod Clusters
mod Shards
