-- ===== src/Tests.antt =====
-- Runs of the program's functions, and the theorems at concrete inputs.
mod Combinators
mod Program
mod Crates
mod Email
mod Text
mod Bounds
mod Verdicts
mod Integrity
mod Numbers
mod Repository
mod Signer
mod Unary
mod Signed
mod Passes
mod Reach
mod Real
