-- ===== src/Rql.antt =====
-- nmoscommon/rql/parser.py and converters.py: from the text of a query to its term, and printers
-- whose output is read back.
pub mod Dates
pub mod Converters
pub mod Parser
pub mod Scan
pub mod Fiql
pub mod Read
pub mod Plain
pub mod Spell
pub mod Written
pub mod Compare
pub mod Prepared
pub mod Calls
pub mod Conditions
pub mod Joined
pub mod Print
