-- ===== src/Edge.antt =====
-- app/edge: what the edge is told to serve.
pub mod Routes
pub mod Sums
pub mod RouteLaws
