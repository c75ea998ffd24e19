-- ===== src/Entities.antt =====
-- The entities that the gate keeps (Entity.h and the classes derived from it), as records.
-- An object's methods that only read a field are the field; those that write one are functions
-- under the method's name. Objects refer to one another by their address in the database's heap.
pub mod Platform
pub mod DateTime
pub mod Security
pub mod Order
pub mod Trade
pub mod Position
pub mod Money
pub mod Strategy
pub mod Price
