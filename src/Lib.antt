-- ===== src/Lib.antt =====
-- The TypeScript runtime of litefunctions (runtimes/ts): the process that keeps a copy of a project's
-- function files, loads them, runs them for messages and for HTTP requests, and reloads them when the
-- hook of the repository fires. Apart from it there is one file of the documentation site's build. The
-- other parts of the repository (portal, ingestor, operator, the runtimes in other languages) are not
-- modelled: they are other programs, and reach this one as requests, messages and the content of the
-- repository.
--
-- The parts, and the files that model them:
--   Conf     runtimes/ts/pkg/conf.ts: `requiredEnv` is `required_env`, the initializer of `settings` is
--            `load_settings` over the environment, and `log` is `log_line`, the text that it prints.
--   Functions runtimes/ts/pkg/functions.ts, in three modules. Functions/Repo: the paths, `repoURL`, `run`
--            and `syncRepo`. Functions/Files: `isFunctionFile`, `ensureRuntimeDir`,
--            `syncRuntimeFunctionsDir`, `syncRepoAndReload`, `listFunctions`; Functions/Files/Segments: the
--            sync of the files cut at its awaits, in the phases of `Phase`. Functions/Modules:
--            `loadModule`, `toRequestLike`, `invokeModule`; Functions/Modules/Loads: the same load cut at
--            its awaits, and schedules of many loads.
--   Value    what a user's function returns, as `asBytes` and `invokeModule` tell it apart, and
--            `JSON.stringify`; Value/Emit: `asBytes` is `as_bytes`, the rest of `invokeModule` is `emit`.
--   Consumer runtimes/ts/pkg/consumer.ts: `consumeFunction`, `reconcileConsumers`, `watchTSHook`. A round
--            of the loop of a function's subscription is `receive`, and one of the hook's is `refresh`;
--            Consumer/Subjects and Consumer/Delivery: which subscriptions a message reaches.
--            Consumer/Loops: the loops of the functions side by side, each cut at its waits, so that `turn`
--            is what a loop does from one wait to the next and `course` a sequence of turns and arrivals;
--            Consumer/Loops/Reloading: the same while a sync of the files is under way. Consumer/Stages: a
--            refresh cut at its awaits, `stage_on` from one to the next; Consumer/Loops/Refreshing and
--            Consumer/Loops/Behind: the loops while a refresh is under way.
--   State    runtimes/ts/pkg/state.ts: `AppState.new` is `app_state_new`.
--   Main     runtimes/ts/main.ts: `handleSyncRequest`, `main`; Main/Runs: the runs of the process;
--            Main/Refines: the abstract machine over the set of names that have a consumer; Main/Delivers and
--            Main/Serves: what the messages of a running process lead to.
--   Docs     docs/config/postcss.config.js, of the documentation site: its extractor and its options.
--   World    the state: the files, `modules` and `moduleVersion`, the engine's registry of imports, the
--            connection and `CONSUMERS`. Also what is taken from outside.
--   Text, JsMap, Fs  what the code uses of JavaScript's strings, `Map`, `Set` and node:fs. Strings are
--            lists of UTF-16 code units, paths are lists of segments, the file tree is a list of nodes.
--   Prelude  shared names; Prelude/Exec: asynchronous code that may throw, as a function of the state
--            that gives a result and a state. An error is `String(err)`.
--   Tests    concrete inputs and runs.
--
-- How they interact: `main` makes the folder, connects, syncs the repository, reconciles the consumers,
-- subscribes to the hook and listens. A refresh syncs and reconciles again. A message and a request load
-- a module through the cache. CONSUMERS names the subscriptions that the connection has open.
--
-- Taken from outside, as parameters: `Engine` (the spawned git and what it does to the files, the URL
-- parser, the evaluation of a module's code, the decoder and the JSON parser), `Broker` (the answers of
-- the message server at the start), the rule by which the message server matches a subject against that
-- of a subscription, `Server` (listening, and the error of reading a body twice). All but
-- the rule are records of functions; hypotheses on them stand in the theorems that use them.
--
-- There is no fuel in the runtime's functions: every loop goes over a finite list. How many turns a loop
-- needs is its rank, in Consumer/Loops/Turns; how many segments a sync and a refresh have to come is
-- `segments_left`, in Functions/Files/Segments/Ends, and `stages_left`, in Consumer/Stages/Ends. The
-- printing of a number has as fuel the number and one more, which is above the count of its digits.
--
-- Simplified or left out: `publish` and `subscribe` do not throw, so the connection stays open and no
-- payload is over the message server's limit; the lines that go to the console; the rounding of numbers
-- above 2^53, so that HTTP_PORT is exact; a user's function is a function of the request and has no effect
-- on the runtime, and the sequences that it returns are finite; the steps of Main/Runs run one after the
-- other, and in segments, side by side, there are the loads, the loops of the functions and the refresh,
-- where a program that is spawned does its work at once, a function has one loop however often it is
-- stopped and started, and requests are not cut at their awaits; the loss and the doubling of messages on
-- the way; permissions and links in the file tree. The text of a file system error is shortened to its
-- kind and the path.
--
-- Not modelled: docs/config/babel.config.js, a list of browsers for a build tool; the editor in
-- portal/static/ace, another project's library.
mod Prelude
pub mod Text
pub mod JsMap
pub mod Conf
pub mod Fs
pub mod Value
pub mod World
pub mod Functions
pub mod Consumer
pub mod State
pub mod Main
pub mod Docs
mod Tests
