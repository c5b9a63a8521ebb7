-- ===== src/Items.antt =====
-- internal/gamecore/items: what a player can carry. `Catalog` has the tables of inventory.go and
-- market.go, `Inventory` the operations on stacks, and `Dropped` the tags of an item on the floor.
pub mod Catalog
pub mod Inventory
pub mod Dropped
