-- ===== src/Scoring.antt =====
-- src/services/product_scoring.py: how near each product is to the wanted attributes.
pub mod Terms
pub mod Match
pub mod Price
pub mod Similarity
pub mod Rank
pub mod Examples
