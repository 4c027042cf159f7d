-- ===== src/Portable.antt =====
-- tools/portable/canonical.mjs: the language of conditions. The children: JSON values (Json), the
-- patterns of texts (Patterns), the validation of a condition (Validate), its evaluation (Evaluate), and
-- what is proved of them.
pub mod Json
pub mod Patterns
pub mod Validate
pub mod Evaluate
pub mod Rules
pub mod Total
pub mod Answers
pub mod Mirror
