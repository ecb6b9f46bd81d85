-- ===== src/Examples.antt =====
-- Every theorem of the header's list that has hypotheses, applied to concrete data of the sample
-- libraries, and runs of the definitions.
mod Laws
mod Routes
mod Patterns
mod Documented
mod Requests
mod Forms
mod Streaming
mod Lifetimes
mod Server
mod Service
mod Deduction
mod Files
mod Futures
mod Handling
mod SimpleServer
