-- ===== src/Lib.antt =====
-- breeze-js: a JavaScript runtime with a QuickJS engine, an event loop and web APIs.
--
-- The program has these parts. `script_context` (src/breeze-js/script.cc) owns a thread that runs
-- the tasks of a queue: the jobs of the engine, and what other threads post. `infra`
-- (src/breeze-js/binding/std/infra.cc) holds the timers, whose thread calls their callbacks, base64,
-- and `URL` with `URLSearchParams`. `http` (http.cc) has headers, responses and fetch, whose bodies
-- may be a `Blob` (blob.cc). The engine and the HTTP client are code of others.
--
-- The files:
--   * Prelude: shared names, list lemmas, integers and the result type. Bytes: strings as lists of
--     byte codes, and the tests of characters.
--   * Base64 (atob, btoa): `val` is kept as a 32-bit pattern, `valb` as the number of bits held. The
--     loop of btoa that writes characters has fuel `held + 8`, its number of bits; the one that
--     pads has fuel 3, as a length is at most three short of a multiple of four. Base64/Reference is
--     the encoding as RFC 4648 writes it.
--   * Percent (percent_encode, percent_decode).
--   * Query ($parse_query_string, toString): the loop over find('&') has the length of the text
--     as its fuel, since every turn takes a character. Query/Fuel is about that fuel.
--   * Url: the store. A URL refers to its parameters object and that one back to the URL, so both
--     live in a `Store` and are numbers. Url/Params has the operations of URLSearchParams,
--     Url/Setters the getters and setters of URL, Url/Parser the parser and the constructor. The
--     pattern matcher ctre is a parameter `match`; `IsMatch` says what a match of the pattern is.
--     std::sort is a parameter. Url/Calls runs scripts of calls.
--   * Blob, Headers: one function per operation. Headers/Multimap says what Headers promises.
--   * Timers: the list of timers, the round of timer_thread_func and the calls. Callbacks and
--     contexts are numbers. A round and a call are atomic here; Timers/Threads interleaves
--     the steps of a round with the calls. Timers/Callbacks is a round whose callbacks are JS functions, by Bridge/Call.
--   * EventLoop: `Step` has one constructor per atomic action of the threads, `Reach` is what they
--     reach together. Tasks are numbers; the counter wraps at 2^64, so the theorems are about fewer
--     tasks than that. The queue is a list from which any element may come.
--   * Fetch: Response and fetch; the HTTP client is the parameter `send`, a function of the
--     headers and the call; Fetch/Promise is the promise of a fetch, by Bridge/Lazy. Files:
--     readdirSync over a table of nodes, where a link holds what it resolves to; its fuel is the
--     depth at which the system refuses a path. Cli: main (src/breeze-js-cli/main.cc) over its
--     parsed options, with cxxopts, the file system and the script context as parameters; Cli/Program
--     puts Script and Bridge/Await in their place.
--   * Thread: the objects of platform_thread (src/breeze-js/platform_thread.cc) and the threads that
--     are live; a run of calls stops where the program would be terminated. Jobs: the jobs of the
--     engine in the queue (src/breeze-js/job_queue.cc), with a log of the references to values.
--   * Io: the reading and writing of files (filesystem.cc), over a disk whose operations by the
--     system and by coro_file are the parameters `System`; `IsFaithful` is what they document.
--   * Script: the evaluation of files and strings, post_sync, and the loop of watch_folder
--     (script.cc), over an engine that is a parameter. Script/Runtime is the life of a script_context
--     by a log of what is made and freed, with bind and the module loader; Script/Console is println.
--   * Bridge: how other threads use the engine (src/breeze-js/quickjspp.cc, and what this repository
--     adds to src/breeze-js/headers/breeze-js/quickjspp.hpp). An operation is its result and its list
--     of uses of the engine, each with its thread and whether the context is alive. Bridge/Await is
--     Value::await over what its tasks find of the promise, one look for each task that the loop
--     runs; Bridge/Values the values and who owns their references; Bridge/Call the std::function
--     that is made of a JS function; Bridge/Lazy the promise that is made of a coroutine.
--   * Convert: how maps cross to the engine and back (the js_traits of std::map and
--     std::unordered_map in quickjspp.hpp), over an engine that is a parameter, with the references
--     that are taken and given up. Convert/Maps has string keys, Convert/Keyed any keys.
--     Convert/Variants is the js_traits of std::variant, and Convert/Variants/Body the body of a request.
--
-- EventLoop/Spec says what the queue promises, with bags of tasks as a quotient of lists, and
-- EventLoop/Refines relates the threads to it; a restart by reset_runtime is a step. EventLoop/Lost
-- says what becomes of the threads of Bridge and Script that wait for a task, EventLoop/Order in
-- which order tasks run if the queue keeps the order of each producer, as moodycamel documents.
--
-- Not modelled: the engine (src/quickjs), the rest of the binding library and the generated
-- bindings, FileWatch.hpp and the test hook. Neither are data races: steps are atomic.
pub mod Prelude
pub mod Bytes
pub mod Base64
pub mod Percent
pub mod Query
pub mod Url
pub mod Blob
pub mod Headers
pub mod Timers
pub mod EventLoop
pub mod Fetch
pub mod Files
pub mod Cli
pub mod Thread
pub mod Jobs
pub mod Io
pub mod Script
pub mod Bridge
pub mod Convert
