-- ===== src/Sexpr.antt =====
-- sexpr.py: grammar-neutral S-expression trees.
pub mod Runtime
pub mod Node
pub mod Atom
pub mod Validate
pub mod Walk
pub mod Lexer
pub mod Number
pub mod Parser
pub mod Render
