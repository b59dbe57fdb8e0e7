-- ===== src/Extraction.antt =====
-- src/services/user_attribute_extraction.py and src/services/outscraper_search_select.py: the
-- attributes of a wish from the answer of the language model, and the query they lead to.
pub mod Prices
pub mod Response
pub mod Queries
pub mod Selection
pub mod Attributes
pub mod Asked
pub mod Fields
pub mod Shape
pub mod Examples
