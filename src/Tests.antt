-- ===== src/Tests.antt =====
-- Runs of the model on concrete inputs: the servers of Tests/Servers, and in the other files each
-- theorem at an input where its hypotheses hold.
pub mod Servers
mod AccountRuns
mod RequestRuns
mod TextRuns
mod ServerRuns
mod SystemRuns
mod ThreadRuns
