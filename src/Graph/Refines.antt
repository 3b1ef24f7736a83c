-- ===== src/Graph/Refines.antt =====
-- The operations on the records of a graph, over a server that keeps its promises, against the same
-- database as the operations on documents.
use arango_cpp.Base.{Option, Text, lit, M}
use arango_cpp.Velocypack.{VPack}
use arango_cpp.Requests.{RestVerb}
use arango_cpp.Api.{Client}
use arango_cpp.Documents.{Outcome, seen, text_outcome, Store}
use arango_cpp.Documents.Outcomes.{viewed}
use arango_cpp.Graph.{record_path, write_record}
use arango_cpp.Graph.Records.{IsServer}

abbrev create_message : Text
create_message = lit "Error when try create record: "

abbrev update_message : Text
update_message = lit "Error when try save record: "

module _ {vp : VPack} {S : Type 0} (c : Client vp S) (graphname colltype : Text) where
  module _ {view : S → Store} {asks : vp.Slice → Option Text} {Keeps : vp.Slice → Text → Type 0}
      (srv : IsServer c graphname colltype view asks Keeps) where
    -- What a caller sees, with the database instead of the state.
    abbrev shown : Outcome × S → Outcome × Store
    shown = viewed view

    abbrev writes : RestVerb → Text → Text → Text → M S Text
    writes verb id json message =
        write_record c verb (record_path graphname colltype id) colltype json message

    abbrev written : RestVerb → Text → Text → Text → S → Outcome × Store
    written verb id json message s = shown (seen text_outcome (writes verb id json message s))
