-- ===== src/Lib.antt =====
-- Project Mittens assigns truck drivers to freight loads. This library models these parts of it:
-- the hours-of-service engine, which says what a driver may lawfully do next and projects trips
-- with the rests that the law wants; the decision journal, an append-only hash chain over the
-- decisions of a run; the stream buffer, which collects telemetry pings, tenders and cancellations
-- between two planning cycles; the resource state of drivers and loads with the actions on it; the
-- dispatch core, which filters the pairs of a driver and a load, applies the business rules, prices
-- the trips and matches drivers with loads; the solver of assignment problems; and the generator of
-- random numbers. A transition of the resource state calls the hours-of-service simulator for each
-- matched driver, and so does the filter for each pair; the buffer's contents become drivers and
-- loads, the matches become an action, and the journal keeps each step.
--
-- How the parts correspond to the code:
--   Hos/Specs       internal/domain/model/hos/policy.go: `PolicySpecs`, `Validate`, the four policies
--   Hos/Clocks      internal/domain/model/hos/clocks.go: `DriverClocks` and its operations
--   Hos/Events      internal/domain/model/hos/events.go
--   Hos/Rounds      internal/domain/model/hos/simulator.go: `insertRequiredReset` and the bodies of
--                   the inner loops of `Simulate`
--   Hos/Simulator   the same file: `Simulate`
--   Hos/Trip        the same file: `EvaluateTripFeasibility`
--   Journal/Record  pkg/journal/record.go: `JournalRecord`, `ComputeRecordHash`, `Seal`,
--                   `VerifyIntegrity`
--   Journal/Store   pkg/journal/store.go: `MemoryStore`
--   Journal/File    the same file: `FileStore`
--   Stream/Validation  internal/adapter/stream/types.go, and the validators of buffer.go
--   Stream/Buffer   internal/adapter/stream/buffer.go: `StreamBuffer`
--   Stream/Synchronizer  internal/adapter/stream/synchronizer.go: drivers and loads made of what was
--                   received, and in Run `Synchronize`
--   Fleet/Resource  internal/domain/model/resource.go: `Location`, `Driver`, `Load`, `ResourceState`
--   Fleet/Equipment  internal/domain/model/equipment.go: `HasEndorsement` and `CanHandle`
--   Fleet/Action    internal/domain/model/action.go: `Action` and `ValidateFeasibility`
--   Fleet/Transition  internal/domain/model/resource.go: `Transition`
--   Fleet/Config    internal/domain/model/config.go
--   Dispatch/Rules  internal/domain/rules: `NewRuleRegistry`, `BuildEvaluationContext`, `Evaluate`
--   Dispatch/Arcs   internal/domain/model/feasibility/filter.go: `evaluatePair`, `FilterCandidates`
--   Dispatch/Costs  internal/domain/policy/cost.go
--   Dispatch/Evaluations  internal/domain/policy/provenance.go: `CandidateEvaluation`
--   Dispatch/Matcher  internal/domain/policy/matcher.go: the greedy matcher, and in Exact the exact one,
--                   which calls Numeric/Lap, and the choice between them
--   Numeric/Rng     pkg/math/rng.go
--   Numeric/Lap     pkg/math/lap.go: `SolveLAP`
-- Prelude holds what they share: Boolean tests, lists, Go's `int`, results, a loop rule and
-- string-keyed maps, sorting and indexes, and the order of texts. Float is the interface to
-- `float64`; nothing is assumed of its operations but what a theorem names, each of it true of all
-- floats as IEEE 754 has them: `IsBounded` (Numeric/Lap/Scans) says that plus infinity is below no
-- number, and that what is below none stays so when something is subtracted; `IsComparison`
-- (Dispatch/Matcher/Best) says how < and == go together.
-- The modules below a component hold its theorems, named for what they prove. Tests holds runs at
-- concrete inputs.
--
-- State and errors. A method on a pointer is a function from the old state to the new one; a
-- returned error is a value of the result. `apply_drive` and the other operations on clocks return
-- new clocks, as the code does. The index panic of Go is an error of its own, and the
-- exact matcher's panic is the error of the solver. Methods that hold one
-- mutex from the first access to the last are functions on the value that the mutex guards.
--
-- Loops. Each `for remDuration > 0` of `Simulate` is `while_pos` on fuel; a loop that has used up its
-- fuel returns an error of the model's own. The fuel is three times the minutes to go and three
-- more: a round either gets on by a minute at least or inserts a statutory rest, and at most two
-- rests come before a minute of progress. The two inner loops of `SolveLAP` have one more than the
-- number of columns each, which is enough unless a search gets stuck, as the code does, where no
-- distance is below infinity: a round marks a column that was not marked, and the path that is flipped
-- back goes through each marked column once at most. Its five arrays are one list of columns; an
-- index out of range is an error of the model's own.
--
-- Numbers. Durations are integers without a bound, and so are instants, in nanoseconds after Go's
-- zero time; an overflow of `int` or of `time.Duration` is not modelled. The clocks and the limits
-- of a policy are natural numbers: the code subtracts from a clock only what is left of it, and
-- `Validate` refuses a limit of 0 as it does a negative one. The counters of the stream buffer wrap
-- at 2^64.
--
-- Parameters. The SHA-256 of a record's formatted fields is a function from the fields to a text, so that
-- the `|` between them and the rounding to six places are not written out;
-- where a theorem needs it free of collisions, it says so for the records that it is about. The JSON
-- encoder and decoder are functions, and the theorem that needs them to be inverse says so for the
-- record that it is about. `strings.ToUpper` and
-- `strings.EqualFold` are functions of texts. The operating system's answer to
-- a write is an argument; a partly written line is not modelled. How many bytes
-- a line has is a function too, and a line that does not fit in the scanner's 16 MiB is an error. The compiler and the evaluator of
-- CEL are a record of functions, each of which may fail.
--
-- Concurrency. The workers of `FilterCandidates` take the drivers from one channel and write to
-- another. A schedule says which drivers each worker takes, in which order, and in which order the
-- results arrive; the theorems hold for every schedule that gives each driver to one worker.
--
-- `sort.Slice` leaves equal elements in no certain order; the model keeps theirs. Go goes through a
-- map in no certain order; the model goes through it in its order as a list.
--
-- Not modelled: logging, tracing and metrics, the wording of error messages beyond their kind, the
-- HTTP and gRPC servers, the database, and the planning policies.
pub mod Prelude
pub mod Float
pub mod Hos
pub mod Journal
pub mod Stream
pub mod Fleet
pub mod Numeric
pub mod Dispatch
mod Tests
