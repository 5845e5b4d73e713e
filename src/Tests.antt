-- ===== src/Tests.antt =====
-- Concrete servers, and runs of the operations on them.
mod Sorting
mod Db
mod Tokens
mod Sample
mod Lifecycle
mod Listing
mod Access
mod Joins
mod Queries
mod Rules
mod Web
mod Requests
mod Flags
mod Starts
