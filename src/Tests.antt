-- ===== src/Tests.antt =====
-- Runs of the program on concrete data, one for each theorem with hypotheses.
mod Machine
mod Sources
mod Plans
mod Tabled
mod Fetching
mod Networks
mod Listed
mod Netlinked
mod Running
mod Reconciling
mod Turning
mod Stored
