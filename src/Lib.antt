-- ===== src/Lib.antt =====
-- The control plane and the pipeline core of the inference server.
--
-- The program runs tasks: a task joins a video source with a pipeline, a graph of stages joined by
-- bounded queues. `TaskManager` (src/pipeline/TaskManager.cpp) owns the configuration and, for each task,
-- a `GraphExecutor` (src/pipeline/GraphExecutor.cpp), which runs one thread for each stage; the threads
-- hand events on through `EdgeQueue`s (src/pipeline/EdgeQueue.cpp). Changes made at run time are recorded
-- in a `RuntimeState` (src/common/RuntimeState.cpp), which is applied to the configuration at the next
-- start. A control socket (src/server/UnixSocketServer.cpp) turns lines of JSON into calls of the task
-- manager. `ModelManager` (src/pipeline/ModelManager.cpp) starts the pipelines that serve models: frames that
-- wait for a model are put into batches (src/pipeline/BatchScheduler.cpp), which go to one of the model's
-- workers (src/pipeline/InferWorkerGroup.cpp). Beside these stand the health of the streams and the choice
-- of a GPU (src/stream), the batch size under GPU failures (include/pipeline/BatchPolicy.h) and the merging
-- of secondary results (src/pipeline/ResultMerger.cpp).
--
-- The files:
-- - Shared: library names, Boolean tests, lists, entries with identifiers, maps, `int`s.
-- - Config: the structs of include/common/Config.h and Types.h, and the look-ups.
-- - EdgeQueue: the queue; Bounds and Order hold its lemmas.
-- - Graph: the executor (`build`, `start`, `stop`, `emitToDownstream`); Worker is `runNodeWorker`; Calls and
--   Lifecycle are about the order of calls, Routing, Building, Emission and Rounds about the queues that
--   events reach, Running about the flag `running_`.
-- - Json: nlohmann::json as an interface with laws, which is a parameter; Readers has `value`, and Plain is
--   an instance for the tests.
-- - RuntimeState: `applyRuntimeState`; Lookup and Recovery hold its lemmas. Writing has the functions
--   `toJson`, Reading and Loading those `...FromJson` and the file; Maps, RoundTrip, Saved and Restored are
--   about what is read back.
-- - Server: the answers of the control socket; Listings, Edits and Models have the commands, Dispatch the
--   chain of tests. Meaning has the protocol as a table of commands with the requests of
--   TaskManager.Requests that they ask for, Missing is about entries that are not listed, and Handling,
--   Handled and Answers compare the commands with the table.
-- - ModelManager: the class of this name; Pipelines is about the pipelines that it starts and stops.
-- - Batching: frames and batches; Scheduler is `BatchScheduler::scheduleLoop`, Workers has
--   `InferWorkerGroup` and `InferWorker::enqueue`; Collection, Delivery, Conservation and Flushing are about
--   the batches that are sent, Routes and Accounts about the worker that gets one. Recovery is
--   `InferWorker::workerLoop` with `recoverFromFault`, and Retries is about it.
-- - TaskManager: the state and `buildEntry`; Url interpolates output URLs, and Template is about its loop;
--   Entries has `loadAll`, `start`, `stop`, `startAll` and `stopAll`; Mutations and Tasks have the other
--   methods that change state, Listing those that list; Frame and Touched are about what builds change,
--   Integrity, Upkeep, Rebuild and Requests about the configuration's links, Restart about the next start,
--   Effects about what is found after a change, Agreement and Race about `start` and `stop`.
-- - Stream: Health is `StreamHealthRegistry`, Devices is `GpuDeviceAllocator`.
-- - BatchPolicy, ResultMerger: the classes of these names.
-- - Validation: the checks of src/common/Config.cpp on models, sources, nodes, edges and tasks; Cycles is the
--   search for cycles, Counting, Sorting and Graphs are about it.
-- - Tiles: the tiles of src/pipeline/stages/SahiSchedulerStage.cpp that cover a frame; Cover has its lemmas.
-- - Deployment: a small configuration on which the modules Samples run the models.
--
-- How the state corresponds: a class is a record with the members that the modelled code reads or writes,
-- and a method is a function that returns its result and the new record. A method that holds a mutex from
-- beginning to end is one step; a wait on a condition variable is given what the other threads do in it;
-- `start` and `stop` of `TaskManager`, which work partly outside the lock, are given in two halves. The
-- states that `TaskManager::persist` hands to `saveRuntimeState` are collected in the record, and `write_saves`
-- in TaskManager tells what these calls make of the files. An
-- exception is a value (`none`, `throws`, `out_of_range`), and so is undefined behaviour. Maps are
-- association lists, or functions. What is not under src/ or include/ is a parameter: what stages do, which of them
-- fail, the scan of the model repository, times and their printing, numbers and their texts, and JSON values.
--
-- Fuel: `interpolate` in TaskManager.Url takes one unit for each placeholder, and is given one more than
-- the text has characters, since a placeholder has at least one. `starts_from` in Tiles takes one unit for
-- each start, and is given the length of the axis, since a step is at least 1. `visit_nodes` in
-- Validation.Cycles takes one unit for each visited node, and is given the number of nodes. The loops of a
-- worker and of a scheduler are followed for any number of rounds.
--
-- Not modelled: input and output (sockets, Kafka, gRPC, Redis, YAML, files but the saved changes), video
-- decoding, inference backends, image work and floating-point arithmetic, metrics.
pub mod Shared
pub mod Config
pub mod Json
pub mod ModelManager
pub mod Batching
pub mod Server
pub mod EdgeQueue
pub mod Graph
pub mod RuntimeState
pub mod TaskManager
pub mod Stream
pub mod BatchPolicy
pub mod ResultMerger
pub mod Validation
pub mod Tiles
pub mod Deployment
