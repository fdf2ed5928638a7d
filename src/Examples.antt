-- ===== src/Examples.antt =====
-- Concrete runs of the model: the theorems at inputs that meet their hypotheses, and tests.
mod Timers
mod Parsing
mod Requests
mod Replies
mod Responding
mod Reacting
mod Running
mod Looping
