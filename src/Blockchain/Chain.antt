-- ===== src/Blockchain/Chain.antt =====
-- The committed blocks as a chain of hashes: validity of a block and the end of a round of
-- gossiper/qsc.go, the walk of gossiper/printhandler.go, and `GetBlockchain` of
-- gossiper/uifunctions.go. A walk takes fuel, and `none` means that it ran out.
mod Walk
mod Commit
mod View
unfoldable pub use Walk.*
unfoldable pub use Commit.*
unfoldable pub use View.*
