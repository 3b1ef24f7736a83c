-- ===== src/Tests/Inserts.antt =====
-- Three documents of examples/exampleQuery.cpp over the server of Store.
use arango_cpp.Base.{ℕ, Option, none, [], ◌∷◌, Text}

-- No document asks for a key.
abbrev keyless : Text → Option Text
keyless doc = none

abbrev nothing : ℕ → Text
nothing ii = []

abbrev json_of : ℕ → Text
json_of ii = ii ∷ []
