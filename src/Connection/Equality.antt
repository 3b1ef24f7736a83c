-- ===== src/Connection/Equality.antt =====
-- When two connections count as the same.
use arango_cpp.Base.{◌≡◌, ◌↔◌, true, arith, text_eq_iff}
use arango_cpp.Connection.{ArangoDbConnection, connection_eq}

-- Exactly the server, the database, the user's name and the access are compared: neither the
-- password, nor `active`, nor `extra`.
pub connection_eq_iff :
    (a b : ArangoDbConnection)
    → (connection_eq a b ≡ true) ↔ (
        (a.server_url ≡ b.server_url)
        × (a.user.name ≡ b.user.name)
        × (a.user.access ≡ b.user.access)
        × (a.database_name ≡ b.database_name))
unfolding connection_eq
connection_eq_iff a b = ground (
  arith,
  text_eq_iff a.server_url b.server_url,
  text_eq_iff a.user.name b.user.name,
  text_eq_iff a.user.access b.user.access,
  text_eq_iff a.database_name b.database_name,
)
