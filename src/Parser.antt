-- ===== src/Parser.antt =====
-- The scanner of interface definitions: src/parser/interfaceParser.cpp.
pub mod Lexical
pub mod Annotations
pub mod Comments
pub mod Overrun
pub mod Skipping
pub mod Brackets
pub mod Annotated
pub mod AnnotationEnds
pub mod CommentEnds
pub mod Output
pub mod Pattern
pub mod Structure
pub mod PatternEnds
pub mod PatternBinds
mod Tests
