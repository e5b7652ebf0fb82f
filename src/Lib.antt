-- ===== src/Lib.antt =====
-- OmniStats follows a Rocket League session: telemetry of the game is reduced to the state of the
-- current match, a match that ends is judged and recorded, and the ratings of its players are asked
-- of web services.
--
-- Parts, and the files that model them:
--   Mmr.antt            src/network/mmr/MmrTypes.hpp, MmrTimings.hpp and the batches of
--                       MmrServiceDetail.cpp: requests for ratings and how they are grouped.
--   Mmr/Queue.antt      src/network/mmr/MmrRequestQueue.{hpp,cpp}: the queue of these requests, one
--                       function for each method, named like it in snake case; its fields stand in
--                       Mmr/Queue/State, batches in Mmr/Queue/Drain, retries and the end of a
--                       request in Mmr/Queue/Failure, and its theorems in Mmr/Queue/Pop, Loops, Batch and Retry; Mmr/Queue/Lifecycle has the
--                       queue together with the requests that the worker holds, as a step relation.
--   Mmr/Path.antt       the paths of ratings of src/network/mmr/MmrServiceDetail.cpp; what is shown is
--                       proved in Mmr/Path/Preserved.
--   Http.antt           src/network/http/HttpSecurity.{hpp,cpp}: addresses and redirects, with their
--                       theorems in Http/Parse and Http/Redirect.
--   Accounts.antt       the identities of src/core/accounts/TrackedAccounts.{hpp,cpp}, and in
--                       Accounts/Canonical how they are read back; what a user types is read in
--                       Accounts/Input, and the answers are described in Accounts/Answers.
--   Playlists.antt      src/core/game/PlaylistMetadata.cpp (its table is Playlists/Table.antt),
--                       src/core/game/GamemodeUtils.cpp and the category names of
--                       src/core/state/SessionState.cpp.
--   Matches.antt        src/core/reducer/TelemetryReducerMatchValidation.cpp and
--                       TelemetryReducerDetail.cpp, with the records in Matches/Types: the capture of
--                       a match from the state of the reducer, and the decisions whether it counts
--                       (theorems in Matches/Validation); Matches/Refresh is the question for the new
--                       ratings that follows a match. They read the playlists.
--                       Matches/State is the state of the reducer, and Matches/Reset the methods of
--                       src/core/state/MatchState.cpp.
--   Reducer.antt        src/core/reducer: TelemetryReducer.cpp is in Reducer/Created and
--                       Reducer/Events, with the tests of guids in Reducer/Guids;
--                       TelemetryReducerStats.cpp is in Reducer/Stats;
--                       TelemetryReducerFinalize.cpp is in Reducer/Totals, Reducer/Finalize,
--                       Reducer/Terminal (ends and confirmations) and Reducer/Destroyed; what a
--                       handler asks for is in Reducer/Types and Reducer/Effects. A handler takes
--                       and returns the state with the side effects so far. Reducer/Runs is the
--                       state of src/core/state/LiveMatchStore.cpp through any sequence of events,
--                       confirmations, disconnects and new sessions; the lemmas stand in
--                       Reducer/Frame, Counted, Visits, Once, Finalized, Ends, Waiting, Waits,
--                       Counts, Confirm, Stale and Version.
--   Store.antt          src/core/state/LiveMatchStore.cpp: the methods of the store and what they
--                       publish; when a session is closed is in Store/Sessions, and Store/Calls has
--                       sequences of calls, each call a step of Reducer/Runs; Store/Ended follows the
--                       end of a match from the event to the snapshot; Store/Created is about the
--                       session that a created match asks to close
--                       (src/core/effects/EffectRouter.cpp).
--   WorkQueue.antt      src/utils/WorkQueue.{hpp,cpp}: the queue of jobs; WorkQueue/Order has the
--                       threads around it as a step relation and a plain queue as its
--                       specification, and WorkQueue/Stop the loop of the worker.
--   Prelude.antt        shared tests, lists, integers, text and keyed maps.
--
-- Conventions. A method that changes its object takes the old state and returns the new one with its
-- result. `uint64_t` and `size_t` counters wrap at 2 ^ 64; theorems that need a counter below that
-- bound say so. An `int` is an integer without bound: the modelled code only compares these, copies
-- them, counts, or adds goals and ratings, which are far from its bounds; a port that is read is
-- checked against them. `double` is a parameter of Mmr/Path.antt. Times are
-- ticks of the clock, passed in where the code reads the clock. An unordered set or map is a list
-- without a meaningful order. Every loop is a recursion on the list that the code walks; only the
-- digits of a number are printed with fuel, ten, which is enough for an `int`, and the worker's loop
-- of WorkQueue/Stop has fuel, with a theorem on how much is enough.
--
-- Concurrency. Each method of the queue holds the mutex for its whole body, except `ScheduleRetry`,
-- which takes it twice: what happens between the two sections is an argument of its model. In
-- Mmr/Queue/Lifecycle a transition is one critical section, so a sequence of transitions is any
-- interleaving of the threads. Its transitions finish or give back only requests that are in flight,
-- and clear the queue only when none is.
--
-- Not modelled: SQLite and its repositories, requests by HTTP, JSON, the user interface, the
-- updater, sockets, Discord and the file system, which are calls of libraries for the most part;
-- the statistics over floats; of the reducer the handler of `UpdateStateEvent`, which
-- stands in runs as a step that writes neither the guids nor the sessions; the analytics and the
-- journal of events. Of
-- the match records the floats and the fields that no modelled function reads are left out.
mod Prelude
pub mod Mmr
pub mod Playlists
pub mod Matches
pub mod Http
pub mod Accounts
pub mod Reducer
pub mod WorkQueue
pub mod Store
