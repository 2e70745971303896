-- ===== src/Scen.antt =====
-- Scenarios of deployments: the package scen.
pub mod Float
pub mod Model
pub mod Check
pub mod Valid
pub mod Entries
pub mod Vars
pub mod Shape
pub mod Deploy
pub mod Extends
pub mod Ranges
pub mod Splices
pub mod Spliced
pub mod Deployed
pub mod Total
pub mod Sched
pub mod SchedRanges
pub mod Accepted
pub mod Line
pub mod Columns
pub mod Disrup
pub mod Lifetimes
pub mod Kill
pub mod Kept
pub mod Marks
pub mod Load
pub mod Interp
pub mod Modes
pub mod Ans
pub mod Objective
