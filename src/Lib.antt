-- ===== src/Lib.antt =====
-- capyJS: a JavaScript runtime in C++ (include/ and src/) over QuickJS and libuv. One main thread runs
-- the scripts and the event loop; each CPU worker has a thread of its own and speaks with the main
-- thread through two single-producer single-consumer rings, one of them with a semaphore, and a
-- doorbell (`uv_async_t`). The HTTP and WebSocket server takes its connections and read buffers from
-- pools of fixed size.
--
-- The files, by what they model:
-- - Prelude: shared names, Boolean tests, lists, sets of slots, words, and the laws of `&`, `|` and `^`.
-- - Fifo: a bounded FIFO, the specification of a ring.
-- - Semaphore: the interface to `uv_sem_*`, which the program only calls: an argument of everything
--   above it, with the documented behaviour as laws. `counting` is one that meets them.
-- - Spsc: `SPSCQueue<T, N>` of include/spsc_queue.h, a record of the array and the two indices. `next`
--   is `(w + 1) & (N - 1)` on `size_t`; `IsSize` holds the static assertions. Spsc/Threads cuts `push`
--   and `pop` into their accesses of shared memory, one step each, under the acquire and release
--   orders that the code asks for (an access in program order, seen in that order).
-- - WorkQueue: `WorkQueue<T, N>` of include/work_queue.h over Spsc and Semaphore, whole calls and
--   (WorkQueue/Threads) the interleaved accesses of a producer that also stops it and a consumer.
-- - MemPool: `MemPool<T>` of include/mem_pool.h: slots by number, `none` for the null pointer and for
--   a failed assertion; the two `memset`s leave values that the client of the model chooses. The
--   assertions are on; `release_unchecked` is `release` without them, as a build with NDEBUG has it.
--   A capacity is below 2^31, since the constructor counts the slots in an `int`.
-- - Ws: `parseFrame` and `sendFrame` of src/ws.cc on buffers of bytes, in 64-bit `size_t`.
-- - Receive: the buffers of a connection (include/client_op.h), `WebSocket::onMessage` of src/ws.cc
--   and `Server::process_web_socket_request` of src/server.cc.
-- - FibWorker: `FibonacciWorker` of src/workers/fib_worker.cc as interleaved steps of its two threads,
--   over WorkQueue and Spsc. As in the other workers, `stop` may come from outside or from inside a
--   call of `on_result`. The doorbell is the flag that `uv_async_send` documents: requests before
--   a call of the callback come to one call.
-- - Workers: the loop of `js_close` over the workers, which the three managers share.
-- - FibManager: `NativeFibonacciManager` of src/fib_engine.cc over an interface `IWorker`: job ids, job
--   status, and the worker that gets a job. The `close` of src/builtins/fib_js.cc also takes the
--   manager from the script, whose later dispatches and questions throw.
-- - Conn: a connection of src/server.cc with its `ClientState`, `ConnGuard` and responses: its callbacks
--   and the `send` of src/http_message.cc, as steps in any order that libuv and the script may take.
--   `abort`, which only a failed allocation calls, and its callbacks are modelled and are no steps; a
--   WebSocket frame that overruns its buffer is none either. What libuv and picohttpparser decide (a write is accepted, bytes are a request) is an
--   argument of the step. A use of what has been freed or closed is a fault, `none`.
-- - ServerPool: include/server_pool.h and the accept of a connection in src/server.cc.
-- - Http: the header of a response, `build_headers` of src/http_message.cc, and `setHeader` of
--   src/builtins/response.cc; `parseWSUpgrade` of src/server.cc; the static files of
--   src/builtins/server_js.cc; the routes of src/http_context.cc.
-- - Util: SHA-1, base64, the accept key of a WebSocket, file extensions and content types of src/util.cc.
-- - InfWorker: `InferenceWorker` of src/workers/inference_worker.cc as interleaved steps of its two
--   threads. What llama finds (a model, the tokens of a prompt, the next token) is an argument of a step.
-- - InfManager: `NativeInferenceManager` of src/inference_engine.cc: the cores of its workers, dispatch
--   and progress, over an interface `IWorker`.
-- - JsWorker: `JSWorker` of src/workers/js_worker.cc as interleaved steps of its two threads; what the
--   worker's script does is an argument of a step.
-- - Timers: setTimeout, setInterval and clearInterval of src/builtins/timer.cc, with the life of each
--   handle. That no random id comes twice, and that the script clears an interval once, are conditions
--   of the steps `repeats` and `clears`.
-- - FileSystem: the files of src/builtins/fs.cc over include/file_system.h: the calls of the script, the
--   threads of the pool and the callbacks, in any order. What the operating system answers is an
--   argument of a step; a use of a deleted entry or buffer is a fault, `none`. What a callback is told
--   is the bytes that the code gives to JS_NewStringLen, which decodes them. That a script asks one
--   thing of a descriptor at a time is a condition of the steps `reads` and `closes`.
-- - JsManager: `NativeJSWorkerManager` of src/js_engine.cc over an interface `IWorker`, and
--   (JsManager/Burst) over the submission queues of its workers.
-- - Signals: one entry of `SignalContext` of src/signal_context.cc, with the life of its handle.
--
-- Bounds: `size_t` and `uint64_t` have 64 bits and wrap, `int` counters are bit patterns of 32 bits.
-- Loops are structural recursion; the loop of `drain` has as many rounds of fuel as the ring has cells,
-- and a ring holds fewer items than cells, which is proved to be enough. A buffer is a list of bytes;
-- an access past its end is a result of its own (`overrun`, `astray`), not a default.
--
-- Not modelled: QuickJS, libuv and picohttpparser (deps/); the script bindings (the rest of
-- src/builtins), which convert values for them; `build_headers_buf` and `build_headers` of
-- src/server.cc, which nothing calls; and what only prints or reads a file.
pub mod Prelude
pub mod Fifo
pub mod Semaphore
pub mod Spsc
pub mod WorkQueue
pub mod MemPool
pub mod Ws
pub mod Receive
pub mod FibWorker
pub mod Workers
pub mod FibManager
pub mod Conn
pub mod ServerPool
pub mod Http
pub mod Util
pub mod InfWorker
pub mod InfManager
pub mod JsWorker
pub mod JsManager
pub mod Signals
pub mod Timers
pub mod FileSystem
