-- ===== src/Lib.antt =====
-- The decision logic of the workspace of jupyter-plugin-aiterminal, a JupyterLab plugin in which a
-- user runs shell commands and prompts of an agent from cells. A workspace is a notebook of cells
-- whose runs wait in a queue; the keys and the input history drive its editor; a session exchanges
-- events with a server, which become the blocks of a chat; the runtime asks questions and
-- approvals through the interaction coordinator; and a save coordinator decides when the document
-- is written.
--
-- Parts and files (paths from the root of the repository):
--   Base               lists, texts and numerals that all parts share
--   Json               JSON values, as JSON.parse gives them
--   SaveCoordinator    src/agent/save-coordinator.ts, WorkspaceSaveCoordinator: one function per
--                      method; Transitions holds the events that the event loop orders (a timer
--                      that fires, a save that settles, the handlers that clear inFlight)
--   InputHistory       src/agent/history.ts, WorkspaceInputHistory
--   HistoryStorage     src/agent/history-storage.ts, InputHistoryStorage for one workspace
--   Keys               src/agent/keys.ts, mapHistoryKey and mapWorkspaceKey
--   Protocol           src/agent/protocol.ts: the events of the server and the blocks; Blocks is
--                      applyServerEvent, Dsh the data of the product events, DshParse and DshEvents
--                      their parser parseDshProductEvent, Report the data of a configuration
--                      report, ReportParse and ReportDifferences parseConfigurationReport
--   Session            src/agent/session.ts; Binding holds the fields dsh... of AgentSession,
--                      acceptDshEvent, and its child Resolution is resolveInteraction;
--                      Commands has what is sent and queued, and the commands that wait
--   Interaction        src/agent/interaction.ts: the check of a decision, Entries the life of one
--                      request of the runtime, Coordinator the table of entries
--   Notebook           src/agent/notebook.ts, WorkspaceNotebook: Source decides what a source runs,
--                      Cells moves the selection and edits the list of cells, Runs is the queue of
--                      runs, Context the bridges of an agent's context; Steps has the methods as
--                      steps
--   HistoryBridge      src/agent/history-bridge.ts: the data that requests carry; Membership of cells
--                      in a context, Tasks the background tasks in blocks, Building the capsule
--   Turn               src/agent/turn.ts: the data of a turn; Timeline has its activities, diagnostics
--                      and changed files, Deriving applyTurnEvent and deriveTurn, Presentation the
--                      user's switches, Persistence what a document keeps
--   ToolPresenter      src/agent/tool-presenter.ts: Formats has the parts of a presentation,
--                      Presenting is presentTool
--   Document           src/agent/document.ts: References checks the ids, Bridges merges the context
--                      bridges, Reading and Snapshots turn a JSON value into a snapshot, Restoring
--                      a snapshot into a notebook and back
--   Artifacts          src/agent/artifacts.ts: Projection is ArtifactProjection, Decoding is
--                      decodeURIComponent, Paths is checkWorkspaceRelativePath and Opening is
--                      artifactOpenDecision
--
-- How the code is rendered: a class is a record of its fields and a method a function from the
-- record to the record and the result. A text is the list of its UTF-16 code units; null and
-- undefined are `none`; what throws or is refused is `none` or a constructor of a result type. A
-- callback to observers is a list of what is emitted. An object that a method of the notebook
-- changes through a reference is a cell of the list, found by its index or its id.
--
-- Bounds and fuel: every loop is structural recursion, over a queue, a list or a text. Fuel is
-- used for the printing of a number in Base.Decimal, with one more than the number, which has fewer
-- digits, and in Notebook.Rounding, with 972 halvings, one more than a finite double needs. Numbers
-- are exact natural numbers, and the code's are below 2^53, where doubles are exact; the number of
-- an id in a document, which may be larger, is rounded as Number rounds it when the counters are
-- restored, and what the methods make of a counter from 2^53 on is not modelled. A JSON number is a natural number or another with the tests that the code applies to it; what the
-- arithmetic of doubles says of the others, where a duration or a size is printed, is the parameter
-- Doubles of ToolPresenter.Formats. What a document holds and the code takes over without a look
-- (blocks, metrics, a count that is not whole) is the parameter Unchecked of Turn.Persistence.
--
-- Not modelled: what is tied to the DOM and to JupyterLab (src/index.ts and, in src/agent,
-- workspace.ts, composer.ts, navigator.ts, renderers.ts, turn-renderer.ts, toolbar.ts and the like);
-- the fields of a turn in a session; the views of interactions and their registry; the
-- activities of blocks of an unknown kind; serializeNotebook, which only prints a snapshot; the
-- cards of artifacts and the texts of refusals to open one; the Python server.
pub mod Base
pub mod Json
pub mod SaveCoordinator
pub mod InputHistory
pub mod Keys
pub mod Protocol
pub mod Session
pub mod ToolPresenter
pub mod Turn
pub mod HistoryBridge
pub mod Notebook
pub mod Interaction
pub mod HistoryStorage
pub mod Document
pub mod Artifacts
