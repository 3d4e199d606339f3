-- ===== src/Lib.antt =====
-- Log Agent is a page, written in JavaScript, with a server written in Go: it streams the logs of
-- containers on several nodes, manages connections, runs flows of commands on servers, and queries
-- databases. This library models the logic of the page; app.js and database.js hold most of it.
-- What the server answers, what the user does and when timers fire are arguments.
--
-- LogBuffer.antt models the buffered logs of app.js: `compareLogsNewest`, `sortLogsNewest` and
-- `mergeLogs`, whose loop takes the newer head of the two lists until `maxBufferedLogs` logs are
-- there. The capacity is an argument, since the server sets it. The loop is recursion on the room
-- that is left, so it needs no fuel. LogBuffer/Order has the order, Merge what a merge computes,
-- Ids and Lookup the ids and which log is found under an id, Invariant what every merge keeps.
--
-- Scope.antt models `state` of app.js as far as it says which nodes and containers are shown: the
-- selection, the hidden and the ticked containers, and what each change resets. Each operation is a
-- function: in Scope/Actions `restoreSelection`, `restoreHiddenContainers` and the connection
-- manager's operations, in Scope/Clicks the clicks that `renderNodes` binds, `setMultiSelect` and
-- the node list of `syncGoBackend`, in Scope/Nodes `unbindNode`, `applyNodeOrder` and the node that
-- `addNodeToGo` and `updateNodeToGo` put into the list. Scope/Steps has these operations as the
-- sessions of a page, a relation on states; expanding a node by its arrow is not among them.
-- Drawing, storage and requests are left out. Texts are lists of character codes.
--
-- Stream.antt models the batches of live logs: `enqueueStreamLog`, `clearPendingStreamBatch` and
-- `flushPendingStreamLogs`, which merges a batch by LogBuffer and routes it by the targets of
-- Scope; Stream/Routing says which container a log comes from, without the map that the code
-- builds. A timer is a flag. At most 2000 logs wait, `maxPendingStreamLogs`.
--
-- LogView.antt models the rows of the log view: `logsForActiveContainer`, `fullRangeSearchKey`,
-- `filteredLogs` with the counts of the levels, and `logVirtualWindow`; it reads Scope and the
-- caches that Stream fills. LogView/Search has `scheduleFullRangeSearch`, cut where its timer fires
-- and its responses arrive, with the request numbers that tell a late answer. `toLowerCase` and the
-- clock are arguments.
--
-- Sync.antt models what the log view fetches: `loadSelectedContainerLogs` and
-- `loadOlderSelectedContainerLogs`, cut where their answers arrive; Sync/Backend has
-- `syncGoBackend` and its timers, `connectGoStream`, whose streams have numbers, and
-- `reorderNodes`. A page is a Stream with its Scope and the globals of the requests. Sync/Paused
-- has what arrives, one after another, and which of it a paused page does not take.
--
-- Assistant.antt models the sessions of the assistant, `syncActiveAssistantSession`,
-- `startAssistantSession`, `selectAssistantSession` and `deleteAssistantSession`. At most 12 are
-- kept, `maxAssistantSessions`. A new id, the clock and `Number` are arguments.
--
-- Commands.antt models the run of a command flow: `executeCommandLine` and `runCommandFlow`. The
-- answer of the server to a line and the moments at which a pause is asked for are arguments; the
-- uploads of a line are part of its answer.
--
-- Workspace.antt models the command workspace: the main list of flows, the groups with their copies
-- of flows, the library of servers, the favourites and the shelf of files. It has
-- `duplicateCommandFlow`, `bindServerToFlow` and the buttons that add and delete a flow;
-- Workspace/Groups has the groups, `copyFlowIntoGroup`, `pasteCommandFlow` and what
-- `bindCommandGroups` does, Favorites the favourites, Stored `applyCommandData`, Snapshots
-- `commandFileSnapshot`, what `saveCommandFlows` writes, and `loadCommandData`, FileRefs the files
-- that lines refer to, and Sequence `runCommandFlowSequence` and `runCommandGroup`, which run flows
-- by Commands. Count, Removal, Insertion, Deletion and Invariant have the lemmas, Servers the
-- removal of a server, Steps the actions of the page as a relation, Storable, RoundTrip and Loading
-- what comes back from storage, Batches, References and GroupRuns the runs. New ids, translated
-- names, the user's answers and the server's are arguments. In a run of several flows none is
-- started or stopped by hand meanwhile; the answers that the requests of a flow get are given for
-- each run, so nothing is said of how they depend on the interleaving of runs side by side. A flow
-- keeps the host that old flows have in place of a server. A file of the shelf is its id, its name
-- and whether it has content.
--
-- RunLogs.antt models the history of runs: `startCommandLog` makes a record of the run of a flow of
-- Workspace, `beginCommandLogEntry`, `finishCommandLogEntry` and `finishCommandLog` write it,
-- `loadCommandLogs`, `saveCommandLogs` and the clearing of a scope keep the list. At most 200
-- records are kept, 50 are written in a browser, and a text is cut at 20000 characters.
--
-- Bridge.antt models bridge.js, which carries requests of the desktop window to the Go handlers:
-- `start` hands a body over in pieces of at most 512 KiB; its loop has as much fuel as the body has
-- bytes, and Bridge/Body shows that this is enough. Bridge/Fetch has a call of `window.fetch`,
-- Bridge/Xhr a `BridgeXHR`, EventSource a `BridgeEventSource`; each is a function of what the
-- channel, the caller and the reader do, one event after another. Ids are fresh, so a call is
-- modelled alone, with whether it is in the table `calls`. What the handlers of a
-- `BridgeEventSource` do is one argument: at which events they close it. Settles, Loadends, Emits
-- and Chunks have the theorems.
--
-- Clipboard.antt models the data grid of database.js: the text that its copy handler writes, and
-- `parseTSV`, which reads pasted text.
--
-- SqlText.antt models scripts/database-ui/template-input.js: `splitSQLList`, and the literal in
-- quotes of `templateLiteral`, which it makes of a value whose type is neither a number's nor a
-- Boolean's; the list of a row's literals is the one that database.js joins.
--
-- Reorder.antt models `moveConnectionItem`, and Reorder/Rules the order of the processing rules,
-- `normalizeRuleOrder` and `persistRuleOrder`.
--
-- Prelude.antt passes on the library's names, with numbers, texts, lists, maps and sorting as the
-- source uses them.
--
-- Not modelled: what is drawn, requests and storage, the Go server, the copies of libraries in
-- third_party, and the parts of the page that no file here names: the SQL editor, the terminal, the
-- Redis page, the requests of the assistant and the translations.
pub mod Prelude
pub mod LogBuffer
pub mod Scope
pub mod Stream
pub mod LogView
pub mod Sync
pub mod Assistant
pub mod Commands
pub mod Workspace
pub mod RunLogs
pub mod Clipboard
pub mod Reorder
pub mod SqlText
pub mod Bridge
