-- ===== src/Lib.antt =====
-- The graph engine of graphon, src/graphon/graph_engine with the graph and the runtime state that it
-- works on. All paths below are under src/graphon.
--
-- A graph of nodes and edges is built from a configuration (graph/graph.py) and validated
-- (graph/validation.py). While it runs, workers execute nodes and send events; the dispatcher hands
-- each event to EventHandler.dispatch, which is where the parts meet: the handler updates the
-- execution aggregate, stores outputs in the variable pool, lets the edge processor and the skip
-- propagator decide which nodes become ready, asks the error handler about failures, and puts ready
-- nodes into the queue through the state manager. Commands from outside abort or pause the
-- execution between two events, and a layer watches the events and sends an abort itself. The
-- response stream coordinator is told of each edge that is taken, of each chunk and of each success,
-- and sends the texts of response nodes in the order of their templates. An if-else node chooses
-- its branch by conditions on the variables of the pool, a list operator node filters, sorts and
-- cuts a list of the pool, and a loop node runs an engine of its own for each round.
--
-- The files, and the code that they are about:
--   Exec          methods that change an object and may raise; Exec/Triple and Exec/Returns: rules
--                 for them
--   Dict          Python's dict; Prelude: tests, lists and the text of a number
--   Enums         enums.py
--   Graph         graph/graph.py and graph/edge.py; Graph/Build: _build_edges,
--                 _filter_canvas_only_nodes, _promote_fail_branch_nodes; Graph/Roots:
--                 _mark_inactive_root_branches; Graph/Validation: graph/validation.py
--   StateManager  graph_engine/graph_state_manager.py
--   Traversal     graph_engine/graph_traversal: Skip is skip_propagator.py, Edges is
--                 edge_processor.py, and the other files prove what they keep
--   Pool          runtime/variable_pool.py (add, get_variable, remove, get_by_prefix); Pool/Nested:
--                 get
--   Conditions    utils/condition: Python's values; Conditions/Entities, Evaluators and
--                 Processor: entities.py and processor.py; Conditions/IfElse: nodes/if_else
--   Execution     graph_engine/domain and entities/pause_reason.py; Execution/Snapshot: dumps and
--                 loads; Execution/Lifecycle: its methods in any order, with the beginning of
--                 GraphEngine.run (graph_engine/graph_engine.py)
--   Sorting       Python's sorted(); Sorting/TextOrder: the order of texts
--   Events        graph_events and node_events
--   Runtime       runtime/graph_runtime_state.py (the data of the execution, paused and deferred
--                 nodes)
--   Engine        the state that the handlers share, and EventManager.collect
--   ErrorHandler  graph_engine/error_handler.py
--   Handlers      graph_engine/event_management/event_handlers.py
--   ReadyQueue    graph_engine/ready_queue
--   Commands      graph_engine/command_processing, entities/commands.py and the in-memory channel
--   Limits        graph_engine/layers/execution_limits.py
--   Coordination  graph_engine/orchestration/execution_coordinator.py
--   Dispatcher    graph_engine/orchestration/dispatcher.py, over the engine, the commands and the
--                 execution coordinator; Handlers/Steady: what the handlers keep of the execution
--   ListOperator  nodes/list_operator: the data (entities.py); Filters, Cuts and Node are the parts
--                 of node.py
--   Loop          nodes/loop: the data; Loop/Iteration: the loop variables and one round;
--                 Loop/Run: the rounds and the ends, with nodes/base/usage_tracking_mixin.py
--   Response      graph_engine/response_coordinator: the data (session.py, nodes/base/template.py);
--                 Response/Streams: the buffers of coordinator.py; Response/Flush: its sessions and
--                 try_flush; Response/Paths: path.py, register and _find_all_paths;
--                 Response/Events: on_edge_taken and intercept_event;
--                 Response/Snapshot: the sessions in dumps and loads
--   Samples       a small graph and the properties at concrete inputs
--
-- A method is a function from the state to a result, or an exception, and the state that it
-- leaves: what was written before an exception stays written. The fields `state` of nodes and
-- edges are kept in one record of two maps, so that the graph itself does not change. The objects
-- of the engine are fields of one record, and each method runs on its own field. A method of the
-- state manager holds a reentrant lock and is one step.
--
-- Bounds: the skip propagation and the marking of inactive branches are recursive in the source
-- without a bound of their own. Here `depth` is how many calls of propagate_skip_from_edge, or of
-- the function that marks, the interpreter allows within one another, and its end is the
-- exception recursion_error; an edge of the propagation takes two frames of the interpreter, that
-- call and _propagate_skip_to_node. On a graph without cycles the length of its longest path is
-- enough, since each call of the recursion goes one edge further. The decimal text of a number is
-- computed with as many rounds as the number itself, which is more than it has digits. Python's
-- integers are unbounded, and those of the engine are counts, so they are natural numbers;
-- conditions compare integers.
--
-- In the response stream coordinator `depth` bounds two recursions: a flush that ends a session
-- starts the next from within, where more than the number of waiting sessions is enough, and the
-- search for paths goes from node to node, where more than the number of nodes is enough. A
-- stream is read with as many rounds as its buffer has chunks. The set of response nodes is a
-- list, in whose order they are visited.
--
-- The dispatcher's loop runs over a list: what arrives in each round until the stop event is set,
-- and what arrives after it. A run that is never stopped and never ends is not covered. Its last
-- drain takes as many rounds as the queue has events. The loop node takes as many rounds as its
-- count; a list operator recurs over its list.
--
-- Parameters: for the event handlers, the response stream coordinator (a record of three methods
-- over a state of its own); for that coordinator, what each class of node implements (its
-- streaming template, its text selector, which variables it blocks), the markdown of a value,
-- uuid4 and the lookup in the pool; for conditions, floats, str(), json.loads and the parsing of
-- numbers, the variables and templates of the pool and the attributes of files; for the list
-- operator, to_dict and the names of types and selectors; for the loop node, the engine of a
-- round, whose events, usage, outputs and variables are what it gives, and the segment of a
-- constant; the conversion of values to variables, the usage records of language models, the text
-- and the truth of a value, the JSON conversion of the ready queue and of the execution, the
-- description of an exception and its making by class and message, the pool of workers, and the
-- text of an elapsed time.
--
-- Not modelled: threads, locks, waiting and logging; time stamps and other fields that are only
-- carried along; the paths and streams in the snapshots of the response stream coordinator and
-- the parsing of templates, the threads of the dispatcher, the durations and the static mapping
-- of variables of the loop node, the workers, snapshots of the runtime state, the other node
-- classes, the model runtime, files and HTTP.
pub mod Prelude
pub mod Exec
pub mod Dict
pub mod Dispatcher
pub mod Enums
pub mod Graph
pub mod Sorting
pub mod StateManager
pub mod Traversal
pub mod Pool
pub mod Execution
pub mod Events
pub mod Runtime
pub mod Engine
pub mod ErrorHandler
pub mod Handlers
pub mod ReadyQueue
pub mod Commands
pub mod Limits
pub mod ListOperator
pub mod Loop
pub mod Conditions
pub mod Coordination
pub mod Response
pub mod Samples
