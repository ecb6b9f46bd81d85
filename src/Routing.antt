-- ===== src/Routing.antt =====
-- From a request to its handler: the result of a match, the two kinds of route, the router and the
-- factory that asks it.
pub mod Match
pub mod Static
pub mod Router
pub mod Params
pub mod Pattern
pub mod Dynamic
pub mod Deduction
pub mod Factory
