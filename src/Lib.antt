-- ===== src/Lib.antt =====
-- A model of go-netx, a Go library of the parts that network gateways are built from, and what is proved of it.
--
-- The program is a set of packages with one service each. `queue` is a bounded ring between a network reader
-- and its consumers. `limit` bounds how many may enter and how much may be held. `flow` keeps the state of
-- each transport flow and a sharded table of flows by key, which evicts idle flows. The root package runs a
-- service from start to graceful stop, and `tcp` accepts connections under the limits. `buf` pools buffers
-- under a budget, `stream` buffers what is read and written with them, and `udp` reads datagrams with the help of
-- `internal/sys` and counts those that the kernel drops. `socket` sets the options of all sockets.
--
-- Which file models what:
--   Base: numbers (machine words, int64 as ℤ with its wrap-around written out), lists, maps and outcomes.
--     A Go function that may panic or loop returns an Outcome: `returns`, `panics`, `runs_on`.
--   Rounding: the loop of queue.New and flow.NewTable that rounds a size up to a power of two.
--   Interleaving: goroutines that share a state and change it by atomic steps, in any order, and the rules by
--     which an invariant is proved of all of them.
--   Queue: queue/queue.go. `Ring` is the struct, with its slots, mask, head and counts; `push`, `pop`, `close`,
--     `drain`, `stats_of` and `new` are its methods. Queue.Spec is the queue that it stands for, Queue.View the
--     map from one to the other, Queue.Wait the methods that block, PushWait and PopWait.
--   Raising: the loop of Counter.Max in internal/counter/counter.go and of `advance` in flow/table.go, by atomic steps.
--   Limit: limit/limit.go. Limit.Budget and Limit.Concurrency have a step for each atomic operation,
--     Limit.PerKey a function for each method, Limit.All the combination of limiters. Limit.Rate is over any
--     floating-point numbers, whose operations are a parameter.
--   Lifecycle: lifecycle.go. `loop_context` is Server.LoopContext, as a function of a Script: what the service and
--     the hooks do, and which case of each select is taken. Lifecycle.Life is a server's life as a step relation, with
--     Stop, Shutdown and the signals of Loop between the loop's moves, and Lifecycle.Group is Group.
--   Tcp: tcp/server.go. `accept` is a round of Server.acceptLoop with a connection, `end_conn` the end of serveConn;
--     both use Limit.PerKey. Tcp.Serve has NewServer, Serve's loop over the events of a server, and the ways to stop.
--   Backoff: internal/backoff/backoff.go, the delays between retries.
--   Buf: buf/buf.go, with buf/debug.go or buf/nodebug.go. `get`, `copy` and `release` are Pool.Get, Pool.Copy and Buf.Release.
--   Stream.Reader: stream/reader.go, with the source as a function `read room s` of its state and the pool passed
--     along; `given s` is a log of the bytes that the source has given, which any source can keep.
--     Peek's loop runs on as much fuel as bytes are wanted: each turn without an error buffers one at least.
--   Stream.Writer: stream/writer.go, with the destination's Write and WriteBuffers as parameters.
--   Udp: udp/udp.go. Udp.Read has the loops `read` and `readBatch` over what the receives return, Udp.Serve the
--     readers of one Conn in any order, Udp.Send the sends and Stats. Udp.Drops.Reported puts it together with Sys: from
--     the bytes of the control data to the count of drops.
--   Socket: socket/, as on Linux, with the kernel's setsockopt and getsockopt as parameters: `control` is the hook that
--     sets a socket's options; Socket.Config has ListenConfig, Dialer and SetBuffers. Tcp.Dial is tcp/dialer.go.
--   Tcp.Key: ipKey of tcp/server.go, by which a server counts the connections of an address; in Tcp a connection's key
--     is a parameter.
--   Sys: internal/sys, as on Linux: DropCount over the bytes of control data, and in Sys.Batch the BatchReader,
--     over whatever the calls of recvmmsg do. A list has as many calls as are made; a Read that needs more is
--     `blocked`. DropCount's loop has a turn for each byte and one more, and each turn drops a header.
--   Flow: flow/flow.go and flow/table.go. Flow.Seen is the word of LastSeen with its frozen bit, Flow.Life the
--     methods of a flow by atomic steps, Flow.Alone the same methods run by one goroutine, Flow.Table the table.
--
-- Bounds and fuel: the rounding loop has fuel, and 63 rounds are enough for every size up to 2 ^ 62; for larger
-- ones it never ends. Draining a ring has as many rounds as there are items, readOnce the 100 of the code,
-- and a size at most 64 binary digits. All else is by structural recursion.
-- A waiting goroutine has a list of wake-ups, and is `waiting` when it is used up.
--
-- What is a step: a section under a lock, with the signals right after it, is one step; where the code uses
-- atomics, each atomic operation is one. The table's methods run one after the other; the races of a flow
-- with a sweep are in Flow.Life, and Run is its sweeps and its Close. The order in which Go
-- visits a map is that of its entries here.
--
-- Not modelled: the times of the ticker of flow.Table.Run, which are a parameter, as are maphash and float64;
-- tcp.Listen, which only calls socket and NewServer; socket and internal/sys as on other systems than Linux,
-- and the texts of errors; the deadlines of contexts; the tests' tools. The operating system and the network
-- are what their calls return.
pub mod Base
pub mod Rounding
pub mod Interleaving
pub mod Queue
pub mod Limit
pub mod Buf
pub mod Stream
pub mod Udp
pub mod Sys
pub mod Raising
pub mod Socket
pub mod Flow
pub mod Lifecycle
pub mod Tcp
pub mod Backoff
