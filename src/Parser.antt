-- ===== src/Parser.antt =====
-- src/parser: the nodes of the trees and the checks of the semantic phase.
pub mod AstCreate
pub mod SemanticCreate
