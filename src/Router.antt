-- ===== src/Router.antt =====
-- core/router.go: the radix tree of routes. `Method` has the per-method handlers, `Tree` the nodes,
-- `Insert` the writes, `Find` the lookup; the other children prove what these do.
pub mod Method
pub mod Tree
pub mod Insert
pub mod Find
pub mod Content
pub mod Rounds
pub mod Writes
pub mod Refines
pub mod Sound
pub mod Rooted
pub mod Routes
pub mod Terminates
pub mod StaticFirst
pub mod Leads
pub mod Room
pub mod Invariant
pub mod Answers
pub mod Shaped
pub mod Served
pub mod Ends
pub mod Entries
pub mod Entered
pub mod Calls
pub mod PlainEntries
pub mod Grows
pub mod Behind
pub mod Kept
pub mod Keys
pub mod Table
pub mod Known
pub mod Match
pub mod Descent
pub mod Values
pub mod Serves
mod Examples
