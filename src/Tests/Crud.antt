-- ===== src/Tests/Crud.antt =====
-- examples/exampleCRUD.cpp over the server of Store.
use arango_cpp.Base.{Option, some, Text, lit}
use arango_cpp.Velocypack.{value, Attempt}

-- Every new document asks for the key of the example; the patch replaces the document.
abbrev asks : Text → Option Text
asks doc = some (lit "eCRUD")

abbrev merge : Text → Text → Attempt Text
merge doc patch = value patch
