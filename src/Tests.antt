-- ===== src/Tests.antt =====
-- The theorems at concrete inputs: a queue with one job at work, a ledger, a workflow, a provider
-- that is rate limited once, and a fan-out over two channels.
mod Queue
mod Replies
mod Ledger
mod Pipeline
mod Provider
mod Channels
mod Evals
mod Reading
mod Identity
mod Packing
mod Posting
mod Aggregate
mod Retrying
mod Reviewer
mod LocalStore
mod Daemon
