-- ===== src/Graphs.antt =====
-- The graph databases of solutions/solution21_graph_database.go.
pub mod Optimistic
pub mod Checks
