-- ===== src/Lib.antt =====
-- The stellar debugger replays a recorded trace of Soroban contract execution. This library
-- models the parts of it that decide what a replay shows: where a step stops, what the call
-- stack, the memory and the ledger are at a cursor; and the readers of binary tables below
-- them.
--
-- A trace is a list of records. `src/debugAdapter/stops.ts` turns it into frames and stop
-- points, `src/debugAdapter/stopModel.ts` gathers these into the stop model, and
-- `src/debugAdapter/replayCursor.ts` moves the cursor of `src/debugAdapter/TraceModel.ts` over
-- it. `src/debugAdapter/MemoryImage.ts` and `src/debugAdapter/LedgerImage.ts` answer, for any
-- cursor, what memory and the ledger are there.
--
-- Files:
-- Trace.antt: the records of `src/komet/trace.ts`, as far as they are read, and the opcode
--   sets.
-- Frames.antt: `opcodeFrames`, `functionIndexAt`, `computeFrames`, `computeDepths`. The
--   source's stack array is a list with its last element first.
-- Stops.antt: `computeRunStarts`, `statementStops`, `myCodeStops`.
-- Lines.antt: `classifyLineRole`, `firstNonWhitespaceColumn`, `isWorkspaceSource`. A text is a
--   list of UTF-16 code units and a regular expression is a matcher for it.
-- StopModel.antt: `buildStopModel`, `pcAtIndex`.
-- Replay.antt: `TraceModel`, `ReplayCursor`, `resolveBreakpoints`.
-- Memory.antt: `MemoryImage`.
-- ScVal.antt: the `ScVal` JSON of `src/komet/traceEvents.ts` and `scvalKey` of
--   `src/soroban/scvalJson.ts`, whose `renderScVal` and `summarizeScVal` are in ScVal/Render.
-- Ledger.antt: the events of `src/komet/traceEvents.ts` and `LedgerImage`; Ledger/Events has
--   the effects of the events, Ledger/Image the scan and the queries, and Ledger/Queries those
--   that sort.
-- Bytes.antt: results with an error value, and slices of a buffer.
-- Wasm.antt: `src/wasm/sections.ts`.
-- Dwarf.antt: the byte cursor of `src/dwarf/cursor.ts`, and below it the line table of
--   `src/dwarf/LineTable.ts`, the abbreviations of `src/dwarf/abbrev.ts`, the location lists of
--   `src/dwarf/debugLoc.ts` and the location expressions of `src/dwarf/locexpr.ts`.
-- Dwarf/Forms.antt: the attribute forms, `skipByForm` of `src/dwarf/info.ts` and `readForm` of
--   `src/dwarf/forms.ts`. Dwarf/Die.antt: `scanCompilationUnits`, and the DIE trees of
--   `src/dwarf/die.ts`. Dwarf/Scope.antt: the functions of `src/dwarf/ScopeIndex.ts`, with the
--   variables and inlined functions in Dwarf/Scope/Variables. Dwarf/Line.antt: the line
--   programs of `src/dwarf/line.ts`. Dwarf/LineTable/Build.antt: `fromWasm` of
--   `src/dwarf/LineTable.ts`, on the sections, the unit scan and the line programs.
--   Dwarf/TypeRegistry.antt: the types of `src/dwarf/TypeRegistry.ts`; its cache is passed on,
--   and its loop has one round for each DIE and two more.
-- CallStack.antt: `src/debugAdapter/callStack.ts`, over the frames, the ledger and the scopes
--   of the other parts.
-- Komet.antt: JSON values. Komet/Fields, Komet/Values and Komet/Payload: `Fields` and
--   `parseTraceEvent` of `src/komet/traceEvents.ts`. Komet/Records: `toTraceRecord`,
--   `toTraceRecords` and `parseTraceJsonl` of `src/komet/trace.ts`. Komet/Print: the records as
--   they are documented. Nesting of values is read 64 levels deep, the source's limit, by
--   recursion on the levels left.
-- Strkey.antt: `src/soroban/strkey.ts`.
-- Flags.antt: `src/cli/flags.ts`.
-- Prelude.antt: Boolean tests, lists, numbers, dictionaries and the binary search that the
--   parts share.
-- Examples.antt: runs of the definitions and the theorems at concrete inputs.
--
-- Indices, offsets and depths are natural numbers; a -1 or a null of the source is `none`. A
-- Map is an association list in insertion order and a Set of indices is a list. Loops are
-- structural recursion over their list, or over the number of rounds left, so no fuel is needed
-- except in the binary search, which gets one unit for each element of its interval; every
-- round at least halves what is left of it, and in the walk over wasm sections and the loops
-- over abbreviations, location lists and expressions, which get one unit for each byte (the
-- abbreviations one more): every round takes a byte at least, and theorems show for the
-- sections, the abbreviations and the expressions that the fuel does not run out, and for the
-- location and range lists that it is enough for every encoded list. The loops over forms,
-- DIEs, units and line programs have one unit for each byte of their section or more; for the
-- state machine of line programs a theorem shows that it is enough. The bytes of a buffer are
-- numbers below 256, so the masks of the source are written as remainders and comparisons.
--
-- What the code asks of others is a parameter: the source mapper (a record of functions),
-- `path.normalize`, the functions of `path.posix` (a record), `JSON.parse`, `JSON.stringify`,
-- `String` of a JSON value, the value that is taken on trust below the depth limit of
-- `toScVal`, the UTF-8 decoder, and the resolution of a source line to records.
--
-- Not modelled: the debug adapter protocol, files, processes and network, the rendering of
-- views, and code that drives third-party parsers.
pub mod Prelude
pub mod Trace
pub mod Frames
pub mod Stops
pub mod Lines
pub mod StopModel
pub mod Replay
pub mod Memory
pub mod ScVal
pub mod Ledger
pub mod Bytes
pub mod Dwarf
pub mod Wasm
pub mod Strkey
pub mod Flags
pub mod CallStack
pub mod Komet
pub mod Examples
