-- ===== src/Tests.antt =====
-- Tests on concrete inputs: src/tests/tst_arango.h where it has them.
mod Samples
mod Texts
mod Messages
mod Server
mod Cursor
mod Collecting
mod Pages
mod Transport
mod Reuse
mod Edges
mod Comparing
mod Stack
mod Accounts
mod Records
mod Threads
mod Settings
mod Store
mod Promises
mod Crud
mod Inserts
mod Names
mod Users
