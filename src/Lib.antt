-- ===== src/Lib.antt =====
-- A model of mcp-dap-server-k8s-forward, an MCP server that drives a debugger over the Debug Adapter
-- Protocol (DAP) and survives the loss of its connection to a debugger in a Kubernetes pod.
--
-- The program and the files here:
--   dap.go, `DAPClient`. One goroutine reads messages (`readLoop`), any tool may send, and one
--   goroutine reconnects. They share the response registry, the event bus and a few flags.
--     Dap/Ring        `eventRing`: the circular buffer of recent events.
--     Dap/Registry    `responses`, `registerResponseIfAbsent`, `dispatchResponse`, `closeRegistry`,
--                     `AwaitResponse`. Go channels are cells of a heap. Registry/Acts has the
--                     critical sections as steps, and the goroutines as sequences of steps.
--     Dap/Bus         `dispatchEvent`, `broadcastEvent`, `Subscribe` with its bridge and `cancel`.
--                     Bus/Feed has one subscription, its goroutines and its reader as a step
--                     relation.
--     Dap/Client      the state of `DAPClient` and what one goroutine does to it in one go: `send`,
--                     `sendAndRegister`, `SendRequest`, `markStale`, `replaceConn`, `Close`.
--     Dap/Waits       `awaitStopOrTerminate` and `awaitInitializedEvent` of tools.go: the
--                     subscriptions of one wait and its `select`.
--     Dap/Methods     the request methods.
--     Dap/Reader      one turn of `readLoop`.
--     Dap/Reconnect   `doReconnect` and `notifySessionReconnected` on a list of attempts;
--                     Reconnect/Machine has the reader, the senders and the loop as a step relation.
--   tools.go, `debuggerSession`. Each MCP tool is a function of the session that makes exchanges with
--   the adapter through the client.
--     Session           the session, the errors, the monad of the tools, and the exchanges
--                       (`awaitResponseValidate`, `awaitResponseTyped`, and the waits of Dap/Waits).
--     Session/Points    `breakpoint`, `clearBreakpoints`, and the maps that they keep;
--                       Points/Mirror has them beside an adapter.
--     Session/Reinit    `reinitialize`, the hook that `doReconnect` calls; Reinit/Adapter is the
--                       abstract adapter that it has to restore.
--     Session/Control   `continueExecution`, `pauseExecution`, `waitForStop`, `step`, `getFullContext`.
--                       Control/Consumed has which stop a wait takes.
--     Session/Query     `evaluateExpression`, `setVariable`, `restartDebugger`, `info`, `context`, ...
--     Session/Reconnecting  `reconnect`, the polling tool, on a list of rounds.
--     Session/Lifecycle the list of tools, `cleanup`, `stop`, and the checks of `debug`.
--     Session/Startup   `debug` from the launch or attach request to the registration of the tools.
--     Session/Debug     `debug` as a whole, from its checks to the wait for the first stop.
--   backend.go, connect_backend.go: Backend has the argument maps of the three backends, and
--     Backend/Spawn their `Spawn`.
--   flexint.go: FlexInt. logger.go: Logger. main.go: Main, what is decided before the server runs,
--     and what is done at its end.
--   prompts.go: Prompts, a module for each prompt, and what `debug` makes of the calls they show.
--   Prelude and Text have the shared helpers (Text what the program uses of `strings` and `strconv`),
--   Tests the runs on concrete inputs.
--
-- What the environment does is an argument: whether a write succeeds, what the socket yields, what
-- `Redial` returns, the time, and in a tool (`Env`) what happens to the request with a given number,
-- and for a wait that begins at a given number the events that come before and behind its
-- subscriptions and the order in which its `select` prefers the cases that are ready. So a theorem
-- about every `Env` is about every adapter.
-- The package go-dap is not modelled: Dap/Message and Dap/Request have the fields that the program
-- reads or sets. A map is a list of entries, as Go may visit a map in any order; texts that are only
-- printed are kept as the data that they print.
--
-- Numbers: `int` is a 64-bit word in the ring, the sequence numbers and the backoff, where it is
-- computed with (`% 2 ^ 64`), and an integer where the program only compares it. `doReconnect` runs
-- on a list of attempts, one for each round; a list that is used up ends in `lasting`, and so
-- do the rounds of `reconnect`. The wait of `debug` runs on the list of the events that arrive, which
-- ends when the caller gives up. The digits of a number are printed on fuel `n + 1`, and
-- Text/Decimal shows that it is enough: what is printed is read back. No other definition has fuel.
--
-- Atomic steps: a step of the registry or of the bus is one critical section or one operation on a
-- channel. Reconnect/Machine takes the two halves of `markStale` (the compare-and-swap, the signal) and
-- the parts of the reader's error branch (the flag, the registry, the broadcast, the block) as steps of
-- their own, so that the reconnect loop may run between any two of them; the branch of a successful
-- dial is one step up to the hook. A tool's exchange runs on a client that nobody else changes
-- meanwhile. When a write fails, `wire` keeps the messages written in full, and `torn` says that a part
-- of one may be on the socket.
--
-- Not modelled: the signal handler of main.go, which writes the log only; the text of log lines; the
-- locks, since each critical section is one step; the shell wrapper and the programs that the tests
-- debug.
pub mod Prelude
pub mod Text
pub mod FlexInt
pub mod Logger
pub mod Backend
pub mod Dap
pub mod Session
pub mod Main
pub mod Prompts
pub mod Tests
