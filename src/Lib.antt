-- ===== src/Lib.antt =====
-- A verification library for go-mivia, a server that plans, hands out and records the work of agents
-- on projects. It covers the work plans, the state at the heart of the server, the chains that run one
-- work plan after the other, and the cutting of files into chunks for the index.
--
-- Parts and files:
--   WorkPlan/TaskStatus, WorkPlan/PlanStatus: the statuses of internal/projectworkplan/model.go and
--     their transition tables (`validateTaskTransition`, `validatePlanTransition`, `safeTaskStatus`,
--     `safePlanStatus`); the Graph children state the diagrams as step relations.
--   WorkPlan/Patterns, WorkPlan/Markers, WorkPlan/Safe: the validators (`safeRef`, `safeOptionalText`,
--     `safePathList` and the others) with the regular expressions as recognizers.
--   WorkPlan/Unique: `unique` and `appendUnique`.
--   WorkPlan/Model: the records of model.go.
--   WorkPlan/Store: the interface `Store` as a record of operations on a state, with the laws that the
--     service relies on; WorkPlan/Memory: internal/projectworkplan/store/memory.go, which fills it.
--   WorkPlan/Transition, WorkPlan/References, WorkPlan/Build: the parts of `transitionTask`,
--     `addAttachmentRef`, `CreateWorkPlan`, `buildTask` that call no store.
--   WorkPlan/Service: the methods of `Service`, composed from those parts and the calls of the store
--     (Plans, Tasks, Move, Attach, Next); Invariant and Runs: what all of them keep, over any sequence
--     of requests; Move/Outcome, Move/Claim, Move/Terminal, Move/Progress and Next/Choice: what
--     moves, claims and choices do; Next/Takeable and Next/Order: which task may be
--     taken up and which goes before another, stated on the tasks alone.
--   Chain/Model, Chain/Rules, Chain/Config: the records of internal/projectworkflowchain/model.go and
--     the validators of its validation.go, up to `validateConfig`; Config/Laws and Config/Live: what a
--     configuration that is accepted is like, and the progress of its runs.
--   Chain/Cycle: `hasDependencyCycle`; Cycle/Walks and Cycle/Search: the walks that it searches.
--   Chain/Run: the parts of internal/projectworkflowchain/service.go that call nothing, such as
--     `nextReadyStage` and `gitOpsBlockedReason`; Run/Progress, Run/Order and Run/Reason: their lemmas.
--   Chain/Service: the interfaces and the methods of its `Service` (Stages, Start, Handle);
--     Service/Stable and Service/Keeps: what all of them keep if the calls they make do;
--     Service/Ordered: the order of the stages of the stored runs, over any sequence of calls.
--   Chain/Memory: internal/projectworkflowchain/store/memory.go, with its laws.
--   Chain/System: the work plans and the chains put together as in cmd/mivia-server/main.go, with
--     `workPlanStatusFanout`; System/Sound: the stored tasks through both;
--     System/Both: the two stores in memory side by side.
--   Ingestion/Chunks: `chunkEligibleText` of internal/projectingestion/chunker.go, with the cover of
--     the text (Chunks/Cover, with the loop in Cover/State); Chunks/Stream: the builder
--     `streamingChunkBuilder`; Chunks/Refine: the two compared.
--   Ingestion/Paths: `normalizeRelativePath` and `matchesDeniedPath` of safety.go, on the paths of
--     Text/Path (Go's package path); Ingestion/Safety: `evaluateSafety` and `BuildChunks`.
--   Ingestion/Reader: `BuildChunksFromReader` of chunker.go, whose loop is a chain of steps that go on
--     or return (Reader/Returns, Reader/Taken), compared with `BuildChunks` in Reader/Same;
--     Ingestion/Scanner: its scanner of sensitive_stream.go, and `structuredConfigKind`.
--   Base, Text: tests, lists, sorting, results, actions on a state, and Go's string functions.
--
-- How the code is read:
--   A method is a function from a state to a result and the state after it; what was written before
--     an error stays written. An error is its kind and text; a value that Go returns beside an error is
--     dropped. The mutex of the store makes each of its calls one step.
--   A status is a constructor; a raw status text outside the constants, which only a write that goes
--     past the service could store, is not modelled. A time is a number of nanoseconds, 0 the zero
--     time. The clock and the source of ids are parameters, read by the number of the reading.
--   A Go map is an association list; `sort.Slice` is a stable insertion sort, which has one result up
--     to elements that the order does not tell apart. A string is a text of code points, with `len` in
--     UTF-8 bytes; `ToLower` is that of ASCII, which is all that the markers see; `filepath.IsAbs` is
--     that of Linux. `New` always sets a store, so no method tests for one.
--   A text to be chunked is the list of what the UTF-8 decoder reads from it: runes, and bytes that
--     are no part of one. Sizes are natural numbers, far below the machine's bound. Every loop is a
--     structural recursion on its list; only the decimal digits of a number run on fuel, one more than
--     the number, which is more than its digits, and so does `visit` of `hasDependencyCycle`, with one
--     more than the number of stages: the references that it has open at once are different stages.
--   The handler of status changes is a parameter, which the invariant asks to keep the stored tasks
--     sound. `UpdateWorkTask`, a raw write whose caller is trusted with the whole record, is modelled
--     but is no request of Runs.
--
--   The chains call workflows, GitOps and the automation through interfaces, which are parameters, as
--     is the engine for the regular expression that a chain is configured with. The handler of status
--     changes, which the chains enter again through the work plans, is given with the depth of such
--     calls. A title that `renderTemplate` cuts inside a character loses that character whole.
--
-- Not modelled: the database stores, the HTTP and MCP adapters, the detection of sensitive text in the
-- files of an index (a parameter), and the other packages under internal and cmd.
pub mod Base
pub mod Text
pub mod WorkPlan
pub mod Ingestion
pub mod Chain
