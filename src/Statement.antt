-- ===== src/Statement.antt =====
-- lib/db/statement.js: the query builder. Params has the parameters that it makes for values,
-- Where the conditions, State the methods that fill a statement, Build the text of a statement.
pub mod Params
pub mod State
pub mod Build
pub mod Print
pub mod Kept
pub mod Where
pub mod Precedence
pub mod Names
pub mod Found
