-- ===== src/Cmd.antt =====
-- The programs of cmd/: what each makes of its arguments, its files and the answers of the server.
--
-- A call of `log.Fatal` ends a program, and is a value here. What a program reads is an argument of
-- its model, and what it prints or writes is a list, in order.
pub mod Work
pub mod Pack
pub mod Runs
pub mod Main
pub mod Cycobj
pub mod Dakota
pub mod Pswarm
pub mod Condor
