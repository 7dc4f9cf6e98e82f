-- ===== src/Lib.antt =====
-- A verification library for srvApp, a Go package that gives a program its HTTP servers, access
-- control, request statistics and life cycle.
--
-- The parts and how they meet. `HttpSrv` (net.go) holds two sides, a private and a public one.
-- Each has its ports, its table of handlers, its listeners and a multiplexer `XMux`
-- (netXMux.go). `Configure` sets both sides and rebinds their listeners; `registerHandler` and
-- `removeHandler` change table and multiplexer together. A request that a listener accepts
-- reaches `XMux.ServeHTTP`, which looks its handler up, asks `GetAccessLevel`
-- (netAccessLevel.go, filled by `cfgNet` of config.go) and `geoAuthorizeHost` (geoIPSec.go)
-- about the client, runs the handler and reports the outcome to `ipsLogStats` (ipStats.go).
-- Around it stands the life of the process (srvApp.go, events.go, run.go), which on Windows the
-- service manager drives (run_win.go).
--
-- The files.
--   * Base: the names that the modules share. Base.Tests, Base.Lists, Base.Bytes: tests on
--     numbers, lists over the native numbers, and Go strings as lists of bytes. Base.Int: Go's
--     int. Base.Panics: calls that return or panic. Dict: Go maps, with Dict.Laws.
--   * Mux: the data and the operations of netXMux.go. `match`, `handle`, `remove_handle_func`
--     and `clean_path` are the functions of these names; `find` is the method `handler` and
--     `route` the method `Handler`. Mux.Serve: `ServeHTTP` as `serve_http`, whose part behind
--     the look-up is `dispatch` and whose checks are `admit`. Proofs: Mux.Match, Mux.Keys,
--     Mux.Register, Mux.Serve.Safety. Mux.Table: the map without the order of its entries, a
--     quotient; proofs: Mux.Table.Order.
--   * Access: netAccessLevel.go, and the loop over AccessRights in config.go as `cfg_access`.
--     Proofs: Access.Bounds.
--   * Geo: geoIPSec.go, with `resolve_addr` for geoResolveAddr, `authorize_host` for
--     geoAuthorizeHost, `on_config_change` for geoOnConfigChange. Config.Geo: geoOnConfigChange
--     with what it reads of the ini file. Proofs: Geo.Cache, Geo.Config, Config.Geo.Countries.
--   * Stats: ipStats.go, with the ring buffer of container/ring as `Ring`. Stats.Queue: the
--     goroutines that send and store events, as a step relation. Stats.Requests: the events
--     that ServeHTTP leaves. Stats.Totals: requests one after another, and their counters.
--     Proofs: Stats.Window, Stats.Queue.Accounts, Stats.Queue.Stopping.
--   * HttpSrv: the server of net.go. HttpSrv.Accept: srvAppListener. HttpSrv.Restart:
--     restartPrivateHttp and restartPublicHttp, which share `restart_side`. HttpSrv.Configure:
--     `Configure` and `configureTLS`. Proofs: HttpSrv.Register, HttpSrv.Restart.Laws,
--     HttpSrv.Restart.Distinct, HttpSrv.Restart.Addresses, HttpSrv.Restart.Sides,
--     HttpSrv.Configure.Laws, HttpSrv.Configure.Effect, HttpSrv.Configure.Listeners,
--     HttpSrv.Configure.Entries.
--   * Addrs: `netEnumAddrs` of net.go as `net_enum_addrs`. Proofs: Addrs.Changes.
--   * HttpSrv.Builtin: the registrations of `ipsInit` and `netInit`. Proofs:
--     HttpSrv.Builtin.Guarded. HttpSrv.Builtin.Handlers: the functions that are registered, of
--     uriHandlers.go. Proofs: HttpSrv.Builtin.Handlers.Commands. HttpSrv.Body:
--     `ValidateRequestBody`. HttpSrv.Info: GetSrvAddrs, getNetInfo and `Shutdown`. Proofs:
--     HttpSrv.Info.Laws. HttpSrv.Builtin.Reports: the texts of the pages. HttpSrv.Stop:
--     `netShutdown`. Proofs: HttpSrv.Stop.Ends, HttpSrv.Stop.Late. Sorting: `sort.Strings`. Proofs: Sorting.Order.
--   * Life: srvApp.go, events.go and run.go. Life.Service: run_win.go. Life.Startup: `InitCfg`
--     as `init_cfg`, and the `run` of run_win.go as `run_win`. Life.Package: the package
--     variables of srvApp.go, their accessors, and what `InitCfg` does to them. Life.Interrupt:
--     `catchSigInt`. Life.Crash: `catchCrash`, as a step relation. Life.Whole: what the calls
--     of `_shutdown` do to the parts. Proofs: Life.Shutdown, Life.Whole.Ends,
--     Life.Crash.Safety, Life.Package.Started, Life.Service.Outcome, Life.Startup.Outcome.
--   * Paths: what the code uses of Go's path and of filepath on Unix, `clean`, `join` and
--     `abs`. Proofs: Paths.Elements, Paths.Canonical, Paths.Inside.
--   * Static: the static directories of uriHandlers.go, with serveStaticFile as
--     `serve_static_file`, OnPrivStaticSrvUri as `on_priv_static_srv` and OnPubStaticSrvUri as
--     `on_pub_static_srv`. Proofs: Static.Confined.
--   * Logs: `SrvLog` of log.go. Logs.Fields: `LogTo` as `log_to` with the fields of a message.
--     Logs.Proxies: `Debug` and its like. Logs.Locks: what the methods do with the lock of the
--     package's logger, and goroutines that do so at once; proofs: Logs.Locks.Held, Logs.Locks.Progress,
--     Logs.Locks.Known, Logs.Locks.Deadlock. Logs.Rotate: `Rotate` and FileLogBufferCap.
--     Logs.Loop: the loop of initLogs. Logs.Closing: its two channels, with `closeLogs` and
--     OnRotateLogsUri at their other ends, as a step relation; proofs: Logs.Closing.Ordered,
--     Logs.Closing.Returns. Other proofs: Logs.Loop.Together, Logs.Order, Logs.Names,
--     Logs.Sharing, Logs.Rotate.Once, Logs.Rotate.Shared.
--   * Config: config.go, with `cfg_logs` and `cfg_crash_reports`. Config.Net: cfgNet as
--     `cfg_net`. Config.Watch: onCfgChange, and the goroutine of `netInit` that watches the
--     local addresses. Config.Watch.History: any number of both. Proofs: Config.Reports,
--     Config.Net.Effect, Config.Watch.Quiet, Config.Watch.Moves, Config.Watch.History.Entries,
--     Config.Watch.History.Commands.
--   * The other modules named Tests hold runs on concrete inputs.
--
-- How the code is read. A Go string is the list of its bytes; an int is an integer `ℤ` where
-- the program compares its sign, and a natural number where it is a level, a status or a time.
-- A map is the list of its entries in the order in which a `range` meets them, which Go leaves
-- open: what is stated holds for every order. An operation that holds its lock from its first
-- to its last line is one step. A handler function is named by a number, and an answer to a
-- request is the list of the effects made on it. The package's variable httpSrv is the only
-- server, so the method calls on it in `Configure` are calls on the receiver. Log lines are
-- left out.
--
-- Bounds and fuel. Every loop of the code goes over a list, a map or a finite sequence of
-- events, and is recursion on it. Only LogTo, which calls itself for a name that has no logs,
-- runs on fuel; two rounds are enough if the package's logger has an error log. A service loop or a
-- wait that never sees its signal has the value none, and so has a LogTo that waits for its own lock
-- for ever.
--
-- Parameters. Code of the standard library and of third parties is an argument of the
-- definitions that use it: path.Clean, the text of a URL, net.SplitHostPort, net.JoinHostPort,
-- net.ParseIP, net.ParseCIDR, IPNet.Contains, strings.ToLower, strconv.ParseInt, the answers of
-- net.Listen and Close, http.Get, json.Unmarshal, the clock, the table of processes, the
-- service manager, the package ini, flog.Rotate and BufferCap, tls.LoadX509KeyPair, and the
-- files with os.Stat, os.Open and mime.TypeByExtension.
--
-- Goroutines. Four parts are step relations, in which any goroutine makes the next step: the
-- events of the request statistics (Stats.Queue), the crash channel (Life.Crash), the lock of a
-- logger (Logs.Locks) and the channels of the log loop (Logs.Closing). There a channel without
-- a buffer is the step in which a message is handed over, a closed channel is one that always
-- yields, and the lock behaves as the package sync documents: a waiting writer keeps new
-- readers out. A wait for a time is a step that can always be made. Elsewhere what other
-- goroutines do is a list of events in the order in which it takes effect, or, where `netShutdown`
-- and `ini.Shutdown` wait for them, any function on the state.
--
-- Not modelled: the goroutines that call `Serve`; the texts of JSON, of log lines and of
-- errors; what the handlers of the package crash do; the uptime timer; the panic on a timeout
-- of the shutdown; the locks of the other parts, save where one operation is one step; paths on
-- Windows. The restarts take the private networks as a parameter; those of `netInit` are in
-- HttpSrv.Builtin.
pub mod Base
pub mod Dict
pub mod Access
pub mod Addrs
pub mod Config
pub mod Geo
pub mod HttpSrv
pub mod Life
pub mod Logs
pub mod Mux
pub mod Paths
pub mod Sorting
pub mod Static
pub mod Stats
