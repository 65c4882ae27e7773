-- ===== src/ModuleGraph.antt =====
-- compiler/gof-compiler/src/module_graph.rs: the modules of a program, found by their imports.
pub mod Resolve
pub mod Messages
pub mod Load
pub mod Collect
pub mod Graph
pub mod Embedded
