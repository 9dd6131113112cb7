-- ===== src/Utils.antt =====
-- lib/utils.js: encoding of values for a query, preparation of queries, parentheses.
pub mod Escape
pub mod Quoting
pub mod Date
pub mod Encode
pub mod Prepare
pub mod Parens
