-- ===== src/Tests/Records.antt =====
-- A server that keeps the records of one graph, and a sequence of calls on it.
use arango_cpp.Base.{List, [], ◌∷◌, Text, lit, drop, pos, ok}
use arango_cpp.Base.Maps.{Map, lookup}
use arango_cpp.Requests.{HttpMessage}
use arango_cpp.Api.{Client}
use arango_cpp.Graph.Records.{Op, create, read, update, delete}
use arango_cpp.Tests.Samples.{some_settings}
use arango_cpp.Tests.Promises.{own}
use arango_cpp.Tests.Store.{text_vp, reply, full_id, kept_text, key_for, known}

-- The paths begin with `/_api/gharial/g/vertex/`. A new record is its own key.
serve : HttpMessage text_vp → Map Text → HttpMessage text_vp × Map Text
serve m store =
    let id = full_id m.header.rest_verb (drop 23 m.header.path) (key_for (own m.payload) store) in
    reply m.header.rest_verb (known (drop 23 m.header.path)) id (kept_text store m.payload)
      (lookup id store) store

abbrev graph_client : Client text_vp (Map Text)
graph_client = record {
  send = λ m store. let (r, store') = serve m store in (ok r, store');
  settings = some_settings;
  batch_size = pos 500;
}

abbrev record_calls : List Op
record_calls =
    create (lit "v") (lit "7")
    ∷ create (lit "v") (lit "7")
    ∷ update (lit "v") (lit "v/7") (lit "{}")
    ∷ read (lit "v") (lit "7")
    ∷ delete (lit "v") (lit "7")
    ∷ []
