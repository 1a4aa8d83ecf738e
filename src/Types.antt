-- ===== src/Types.antt =====
-- include/rtes/types.hpp: the domain types, one child for the fixed strings and one for the orders.
pub mod FixedString
pub mod Orders
