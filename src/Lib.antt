-- ===== src/Lib.antt =====
-- winchaos: an agent that runs chaos experiments (CPU, memory, scripts) on Windows machines for a server.
--
-- The program. The agent registers with the server and sends heartbeats through a transport client,
-- whose chain of interceptors stamps and signs the requests that go out and checks those that come in.
-- A request of the server reaches the handler of web/handler/chaosblade.go, which sends it to a kind of
-- experiment in web/cmdexec. Each experiment has a record in a table of SQLite, kept by data.
--
-- The files.
--   Base        names that all modules share; Base.Exec is the monad of Go functions with effects, in
--               which a call returns, returns early with an error, panics, or runs out of fuel;
--               Base.Text, Base.Decimal and Base.Dict are strings, strconv and maps of texts.
--   Agent       cmd/chaos_agent.go: Agent.Start is main up to the wait for signals, over the modules below,
--               Agent.Life what happens to the process behind it; Agent has handlerErr and writePid.
--   Options     pkg/options/options.go: Options and the setters; Options.Flags has AddFlags and NewOptions,
--               Options.Start SetOthersByFlags, InitApplicationInfo and GetPrivateIp, and Options.Blade
--               is bladeoptions.go.
--   Data        data/experiment.go and data/source.go. Data.Engine is database/sql with sqlite3 as a
--               parameter and what it documents of the statements; Data.Experiment has the methods of
--               Source; Data.Source is the interface SourceI with its contract; Data.Connection is GetSource
--               with its connection, and the user version.
--   Transport   transport/response.go, request.go, interceptor.go and transport.go (ReturnFail, Request,
--               Handle and Invoke of the chain, TransportClient.Invoke).
--   Tools       pkg/tools/limitedlist.go, and pkg/tools/auth.go: Sign, Auth and splitToChunk in Tools.Sign,
--               the files of keys and of the application in Tools.KeyFile; Tools.Directories is
--               env.go with Tools.Machine, Tools.Ending signal.go and the deferred functions of app.go,
--               Tools.App its goroutines, Tools.Archive and Tools.Sums are file.go, Tools.Set set.go, and
--               Tools.Fetch download.go and uuid.go.
--   Cmdexec     web/cmdexec: CpuResolver, MemResolver, SearchExperiments, DestroyExperiment, Script and
--               the three copies of generateUid as one. Cmdexec.Host is the operating system, and
--               Cmdexec.Frame what a command may do to the table of experiments.
--   Web         web/handler/chaosblade.go: Web.Dispatch is Handle, Web.Blade the calls of the blade
--               program, Web.Cache the experiments that run, Web.Reports the goroutines
--               that watch and report.
--               Web.Serve is web/api and web/server, Web.Upkeep the handlers ping, uninstall and update.
--   Bash, Http  pkg/bash/bash.go, and pkg/http/http.go, the channel of the transport.
--   Log         pkg/log/log.go: what InitLog sets.
--   Category    web/category, the program os.exe that an experiment starts: Category.Event is main of
--               event/cmd.go, Category.Memory is mem_main.go (calculateMemSize and the loop; Run has MemRun),
--               Category.Cpu is CpuRun and burn of cpu_main.go, and Category.Cpu.Feed is CpuStart with the
--               channel that feeds burn. Base.Int64 is their arithmetic.
--   Conn        conn: the registration (handleDirectHttpConnectResponse), the heartbeats, the reports that
--               are sent once (ReportStatus, Shutdown, Callback), and Conn.Start with its goroutines.
--   Tests       a table in memory, a machine, requests; and the theorems at concrete inputs.
--
-- Conventions. A world goes through every function with effects, panics included. The build is the one
-- of the README, for Windows. Texts are lists of code points. A map of texts is an association list in
-- the order of its insertions; where the source ranges over one to write a file, the order is a parameter.
-- ReturnFail passes its arguments to Sprintf as one slice, and the model formats them so.
--
-- Fuel. generateUid has no bound in the source: its fuel counts the draws. timingCheckStatus loops over the
-- ticks of a minute: its fuel counts the ticks. splitToChunk cuts bytes off: its fuel is one more than
-- the bytes. Each has a theorem that says how much is enough. The loops of web/category run until their
-- process ends: Category.Memory counts their ticks and Category.Cpu lists their turns.
--
-- Parameters. The SQL engine, JSON, SHA-256 with base64, the clock, uuids, the file system, processes,
-- HTTP and the blade program are records of operations; what is relied on of them stands in IsEngine,
-- IsSteady, IsApart, IsTimer, IsFile and IsCalm, which the tests show of concrete ones.
--
-- Not modelled: GetUUID and PanicPrintStack, which only call a library; the scheduler of Go, whose choices
-- are the steps of Conn.Start, Category.Cpu.Feed and Tools.App; what logrus writes; and the floating-point
-- numbers of the CPU load, which are a parameter of Category.Cpu.Feed.
pub mod Base
pub mod Agent
pub mod Options
pub mod Data
pub mod Transport
pub mod Tools
pub mod Category
pub mod Bash
pub mod Http
pub mod Log
pub mod Cmdexec
pub mod Conn
pub mod Web
pub mod Tests
