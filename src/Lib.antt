-- ===== src/Lib.antt =====
-- Verification library of cloudlus, a job server for simulations: clients submit jobs, workers
-- fetch and run them, and the server keeps the queue, watches the heartbeats of the workers and
-- stores every job in a database. Scenarios of power plant deployments are turned into
-- variables for an optimizer and back, changed by disruptions, and valued by objective
-- functions. It is about the packages under cloudlus/, scen/ and runscen/, the programs under
-- cmd/, and example/sweep/sweep.go.
--
-- Parts and files:
--
-- * Job (cloudlus/job.go): `Job`, `File`, `JobStat` and the operations on them. A status is a
--   data type with a case for other texts, a time counts nanoseconds since the zero time, a
--   duration is an int64 written as an integer (Time). Job.Execute is `Execute` with `setup`
--   and `teardown`: `Env` says what each call of the operating system returns during one
--   execution, and the outcome `hung` is a call that never returns. Job.Archive is the archive
--   of its output files, with `GetOutfile`, over a zip library, and Job.Process has
--   `NewJobDefaultFile`, `teardown` and `killall`.
-- * Server (cloudlus/server.go): `Server` has the queue and the maps of the dispatcher.
--   Server.Finish is `finnishJob` with `cleanQueue` and the statistics, Server.Beats is
--   `checkbeat` and the case of a heartbeat, Server.Dispatch has an event for each case of the
--   `select`, `round` for one turn of the loop, and `dispatcher` for a sequence of events.
--   Server.Pending follows one job through the events: `may_end` has the requests that end it,
--   and the moves of Server.Places are a machine for it. Go visits a map in no fixed order: the
--   loops over maps take the order as a list of keys. What is sent on channels is kept in
--   `sent`. The counters are unbounded, the durations wrap around at 64 bits.
-- * Store (between server and database): `JobStore`, the interface between the server and the
--   database: `Put`, `Get` and their two laws. The server is proved over every such store, and
--   Db.Access builds one from the database.
-- * Db (cloudlus/util.go): `Put`, `Get`, `Current`, `Recent`, `Failed`, `Size`, `Count` and
--   `GC`, with the index keys, over a key-value store and a JSON codec that are parameters.
--   `IsHealthy` says that the calls of the store succeed and that writes and deletions show at
--   their key only, `IsEncoded` that a job is read back with its exported fields. Db.Open is
--   `NewDB`.
-- * Server.Calls (cloudlus/server.go, cloudlus/server_rpc.go): `Start`, `Run`, `Get`,
--   `ResetQueue` and the methods of `RPC` as requests to the dispatcher with their replies.
--   Server.Rest (cloudlus/server_restful.go): the handlers of jobs, from the text of the
--   request to the answer. Client (cloudlus/client.go): `Dial`, the loop of `Heartbeat`,
--   `Start` and `Run`. Worker (cloudlus/worker.go): `dojob` and `Run`; `Trip` says what the
--   calls of the client returned. Ident (cloudlus/util.go): identifiers as hexadecimal text and
--   as JSON.
-- * Scen (scen/): `Scenario`, `Facility` and `Build`, over `Float`, an interface of what the
--   code does with a float64: its rounding is that of the machine. `Result` is a value, an
--   error or a panic; Scen.Entries are the reads and writes of entries of a slice, which panic
--   out of range. Scen.Model, Scen.Check, Scen.Vars, Scen.Deploy, Scen.Sched, Scen.Line and
--   Scen.Load are scen/scenario.go: periods, `Validate`, the variables with `splice`,
--   `TransformVars`, `TransformSched`, `findLine`, and reading and writing of files with their
--   contents as arguments. Scen.Disrup and Scen.Modes are scen/objective_disrup.go with the
--   modes and `CalcTotalObjective`, Scen.Interp is scen/interp.go, Scen.Objective and Scen.Ans
--   are the objective functions of scen/objective.go and scen/objective_ans.go with the queries
--   of the database as arguments. The program ranges over a map of builds in `PowerCap`; the
--   order is an argument, any choice of one. Parsing a template is an argument, and so is the
--   simulation that a mode runs. An int is an integer without bounds.
-- * Runscen (runscen/runscen.go): a simulation as a job on the server, `RemoteTimeout`, and on
--   this machine, `Local`; `Calls` and `LocalCalls` say what the calls of the client, of JSON
--   and of the operating system return. It joins Scen, whose modes it is given to, and Job,
--   whose constructors it uses.
-- * Cmd (cmd/): the programs, each with a record of what the calls of the outside world return.
--   Cmd.Main, Cmd.Work, Cmd.Runs and Cmd.Pack are cmd/cloudlus/main.go: the choice of a
--   subcommand and `serve`, `work`, which starts the worker of Worker, `run` with `submit` and
--   `retrieve`, and `pack` with `unpack`. Cmd.Cycobj is cmd/cycobj/main.go, which loads,
--   transforms and runs the scenarios of Scen by Runscen; Cmd.Cycobj.Jobs joins it to the jobs
--   that Runscen sends. Cmd.Dakota, Cmd.Pswarm and Cmd.Condor are cmd/dakotadriver/main.go,
--   cmd/pswarmdriver/main.go and cmd/condorbots/condorbots.go; Cmd.Dakota.Infile is what its
--   template gets, Cmd.Condor.Ssh the sessions of ssh, and in Cmd.Pswarm, Points is
--   `loadPoint`, Solver is `buildIter` and `loadIter` with the options of the optimizer, and
--   Main what is done around it.
-- * Server.Outfiles (cloudlus/server_restful.go, cloudlus/client.go): the output files that a
--   server keeps, as a map from identifiers, with the requests of workers and clients;
--   Server.Outfiles.Archives joins them to the archives of Job. Server.Routes
--   (cloudlus/server.go): the patterns of the requests. Server.Dashboard
--   (cloudlus/dashboard.go): the rows and pages of the dashboard. Server.Collect
--   (cloudlus/server.go): the loop of garbage collection of `ListenAndServe`, and `Close`.
-- * Sweep (example/sweep/sweep.go): the points of a sweep over parameters.
-- * Bytes and Base (helpers): big-endian numbers, equality, prefixes and the order of byte
--   strings. Lists, maps, texts and integers are in Base. Tests has a store in memory, and the
--   results at concrete values.
--
-- All loops are recursion on lists or on a number that the code counts to, so no definition
-- takes fuel. A channel is a number. The server ignores the errors of `Put`, and so does the
-- model: the laws of `JobStore` are those of a database whose writes succeed. Jobs that the
-- dispatcher holds are values: each comes from a decoded request, so no two places share one.
--
-- Not modelled: sockets, HTTP and RPC transport, the HTML of the dashboard, the removal of
-- output files from the disk by the garbage collection, the text of templates, the SQL queries,
-- the transport of ssh, the parsing of flags, signals, the optimizer with its database, and the
-- vendored libraries.
mod Base
pub mod Time
pub mod Bytes
pub mod Job
pub mod Store
pub mod Db
pub mod Ident
pub mod Scen
pub mod Runscen
pub mod Server
pub mod Client
pub mod Worker
pub mod Cmd
pub mod Sweep
mod Tests
