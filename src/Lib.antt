-- ===== src/Lib.antt =====
-- Outright is a local-first workspace for running coding agents across Git projects: a Node
-- runtime (server/) that owns runs, terminals, worktrees and a SQLite database, and a browser
-- client (src/) that shows them. The two talk over HTTP and over one ordered WebSocket of
-- numbered runtime events. This library models parts of both whose logic can be stated without
-- the platform.
--
-- Base: shared tests, lists, equality as an interface, and JavaScript's insertion-ordered Map
--   and Set (Base/JsMap, Base/JsSet), and slices of arrays (Base/Slices).
-- PaneLayout (src/lib/pane-layout.js): Tree has the split tree and the functions on nodes
--   (layoutViews, replaceNode, removeView, dock, clampRatio); Edit the operations on a layout
--   (openView, closeView, moveView, swapViews, resizeSplit, focusView, applyPreset); Normalize
--   the repair of a saved layout (normalizePaneLayout); Geometry the minimum sizes and pixel
--   rectangles (computePaneRects).
-- Terminal/CommandFence (src/lib/terminal-command-fence.js): the fence that keeps input from
--   terminals whose owner a runtime could not verify.
-- Terminal/Scanner, Terminal/SavedOutput, Terminal/SavedRows, Terminal/SavedPages
--   (src/lib/terminal-exit-state.js): the reader of control sequences (controlScanner), the
--   writes that draw saved output again (savedSegments), the newest rows within a budget
--   (newestRows, savedOutputRows) and their pages (savedRowPages, savedPageText).
-- Terminal/Sessions (src/lib/terminal-exit-state.js): the labels of terminals, which exits are
--   remembered and which terminal reopening a worktree shows (pruneExitedIds, terminalEndLabel,
--   terminalTabLabel, terminalTabBadge, preferredTerminal).
-- Terminal/Search (src/lib/terminal-search.js, src/lib/find-text.js): the matches of a query in
--   a terminal's buffer (foldFindText, lineMatches, findTerminalMatches); what xterm's buffer
--   answers and the generated table of case foldings are parameters. Terminal/Search/Find and
--   Terminal/Search/Handlers have the Find of one view (createTerminalSearch), over an
--   interface of what xterm's view answers and its calls make of it; Current has its invariant,
--   Turns its steps.
-- Terminal/DetachedOutput (server/terminal-detached-output.mjs): the output a detached broker
--   keeps within a limit of UTF-8 bytes (createDetachedOutput); Utf8 has the length of a text
--   in bytes, Pieces taking output in, Cutting the trim.
-- Runtime/EventHub (server/runtime-events.mjs): the hub that numbers, replays and sends runtime
--   events; Replay has what it keeps, Delivery who gets a frame, History a connection after any
--   calls of the hub.
-- Runtime/OwnerProof (server/subprocess-budget.mjs): what proves that the process tree of a
--   recorded owner is gone (nativeOwnerProof, clearsAfterRestart); Processes and Release state
--   what the operating systems, the supervisor, launchd and Windows jobs promise, as the
--   records IsTruthful and IsReported, on which the release of an owner rests.
-- Runtime/SubprocessBudget (server/subprocess-budget.mjs): the permits of utility processes and
--   the owners that keep them (createSubprocessBudget), as a system whose actions are the
--   uninterrupted stretches of its asynchronous functions.
-- Worktree/Lifecycle (src/lib/worktree-lifecycle.js): the client's states of worktree setup and
--   teardown: streamed output (lifecycleOutputUpdate), events and snapshots
--   (upsertLifecycleState, mergeLifecycleSnapshot), and removal requests (teardownProblem,
--   removalRequest).
-- Recovery (src/recovery-policy.js): the text that streams beside durable messages
--   (streamingTextAfterRuntimeEvent) and the checkpoint cursors of runs
--   (recordCheckpointCursor, isStaleCheckpointMessage); Recovery/Gate has the run that holds a
--   conversation back and its notice (recoveryGate, recoveryNoticeAction).
-- Windowing (src/lib/windowing.js): the rows of a long list that are rendered (windowRange).
-- Remediation (automation/hermes/pr-remediation-ledger.mjs): the defect families of a review
--   and the gate over them (recordFailure, recordAssessment, evaluateLedger, resolve-family).
--
-- Objects that a function returns changed are records; an operation that writes variables takes
-- them and gives them back. A JavaScript value is an Option where the code tests whether it is
-- of the expected kind, none being any other value. Ratios of a layout are floating point
-- numbers, taken as a type with the operations the code uses (PaneLayout.Tree.Ratios); sizes in
-- pixels, also of rows, are whole numbers. Whether a text is blank is a parameter of the
-- remediation ledger. Sockets and the encoding of records as bytes are parameters of the event
-- hub. What files, probes and processes answer is an argument of the owner proof and of the
-- budget's actions, so that every order of concurrent calls is a sequence of actions. Every
-- loop recurs on the list or tree that it walks, but for these, which take fuel: the eviction
-- of cursors, as much as there are cursors, since each turn removes one; the pages of saved
-- rows, one more than the rows, since each page ends before the last one started; the greatest
-- common divisor, more than its second argument, which falls; the search of a buffer, its rows,
-- and of a line, one more than its text, since each line and each match ends before the last
-- one starts; the row of a unit, the rows of its line, of which each turn drops one at least;
-- and the pieces of a text, saved or pushed to a ring, its length.
--
-- Not modelled: the React components, SQLite, processes and the file system; and of pane-
-- layout.js the local storage, the restore notice and neighborView, of runtime-events.mjs
-- validateSocketMessage, of subprocess-budget.mjs the running of a process (runOwned) and a
-- budget whose owner directory could not be read, and of worktree-lifecycle.js the labels,
-- lifecycleDetailUpdate and lifecycleFor, and of recovery-policy.js the order and the replay of
-- buffered messages and events, and of pr-remediation-ledger.mjs the rounds and the text of the
-- ledger, and of terminal-exit-state.js the styles of a cell and what xterm does (rowText,
-- leftOutRepeats, segmentRows).
pub mod Base
pub mod PaneLayout
pub mod Terminal
pub mod Worktree
pub mod Recovery
pub mod Windowing
pub mod Remediation
pub mod Runtime
