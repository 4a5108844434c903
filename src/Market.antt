-- ===== src/Market.antt =====
-- The market-data path of src/market.
pub mod Ladder
pub mod Board
pub mod Itch
pub mod Orders
pub mod Book
pub mod Mold
