-- ===== src/Sql.antt =====
-- PostgreSQL as the stores see it. `Table` is the interface of one table with a primary key,
-- `World` the connection: the committed rows, a transaction's own view, and what becomes of each
-- request on its way.
pub mod Table
pub mod Laws
pub mod World
pub mod Triple
