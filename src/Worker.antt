-- ===== src/Worker.antt =====
-- owtf/managers/worker.py: the pool of worker processes. `Pool` has the state, `Dispatch` the
-- polling that hands out work, `Control` what the API asks for; the proofs are in the others.
pub mod Pool
pub mod Dispatch
pub mod Control
pub mod Slots
pub mod Exclusive
pub mod Taking
pub mod Conserve
