-- ===== src/Traversal.antt =====
-- graph_engine/graph_traversal: how the end of a node moves the execution on through the graph.
-- Skip is skip_propagator.py and Edges is edge_processor.py; the other children prove what the
-- propagation of skips achieves.
pub mod Skip
pub mod Edges
pub mod Closure
pub mod Stable
pub mod Completion
pub mod Branch
pub mod Aside
pub mod Justified
pub mod Termination
