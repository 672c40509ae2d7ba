-- ===== src/Product.antt =====
-- services/product_mock_service.py: preset actions over the repository and the motion scheduler,
-- rewarded interactions, the catalogue of actions, and the events of the voice process.
pub mod Actions
pub mod Interactions
pub mod Catalog
pub mod Events
pub mod Imports
