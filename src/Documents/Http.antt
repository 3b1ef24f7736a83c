-- ===== src/Documents/Http.antt =====
-- What a server promises about single documents, as the requests come over HTTP.
use arango_cpp.Base.{true, false, Option, none, some, [], ◌++◌, ◌≡◌, Text, lit}
use arango_cpp.Base.Maps.{lookup}
use arango_cpp.Velocypack.{VPack}
use arango_cpp.Requests.{Settings, HttpMessage, RestVerb}
use arango_cpp.Curl.{Net}
use arango_cpp.Curl.Handles.{CurlLib}
use arango_cpp.Curl.Replies.{Reply}
use arango_cpp.Api.{Client, NetState, ApiBase, client_of, new_request, send_base}
use arango_cpp.Api.Ids.{head}
use arango_cpp.Api.Stack.{Answers}
use arango_cpp.Documents.{Store, put, drop, Choice, IsFair}
use arango_cpp.Documents.Server.{path_of, writing}
use arango_cpp.Documents.Replies.{
  DocumentReply, RefusalReply, HandleReply, AcceptedReply, StatusReply,
}

module _ (vp : VPack) (net : Net) (settings : Settings) (curl : CurlLib) (fresh : curl.Handle)
    (api : ApiBase) (view : net.World → Store) (asks : vp.Slice → Option Text)
    (Keeps : vp.Slice → Text → Type 0) where
  -- The API object over the pool and libcurl.
  abbrev pub stack_client : Client vp (NetState net)
  stack_client = client_of (send_base vp net settings) settings api

  abbrev pub stack_view : NetState net → Store
  stack_view s = view s.world

  -- The world answers a request without a body, and one with a document.
  abbrev pub Replies :
      Text → HttpMessage vp → Text → net.World → (Reply vp → Type 0) → Store → Type 0
  Replies word rq body w P store =
      Answers vp net settings curl fresh api.connect_data view rq word body w P store

  abbrev pub plain : RestVerb → Text → HttpMessage vp
  plain verb id = new_request stack_client verb (path_of stack_client stack_view id)

  abbrev pub with_document : RestVerb → Text → vp.Slice → HttpMessage vp
  with_document verb id doc = writing stack_client stack_view verb id doc

  -- What a server promises about requests on single documents, as they come over HTTP.
  pub record IsHttpServer : Type 1 where
    -- What it chooses at a write depends on all of its state, the revisions so far included.
    pub chosen : net.World → Choice vp
    pub fair : (w : net.World) → IsFair vp asks Keeps (chosen w) (view w)
    pub get_found :
        (id json : Text) (w : net.World)
        → lookup id (view w).documents ≡ some json
        → Replies (lit "GET") (plain RestVerb.get id) [] w (DocumentReply vp json) (view w)
    pub get_missing :
        (id : Text) (w : net.World)
        → lookup id (view w).documents ≡ none
        → Replies (lit "GET") (plain RestVerb.get id) [] w (RefusalReply vp) (view w)
    pub post_new :
        (coll id : Text) (doc : vp.Slice) (w : net.World)
        → (view w).known coll ≡ true
        → head coll ++ (chosen w).key_of doc ≡ id
        → lookup id (view w).documents ≡ none
        → Replies
            (lit "POST")
            (with_document RestVerb.post coll doc)
            (vp.bytes doc)
            w
            (HandleReply vp id)
            (put id ((chosen w).stored id doc) (view w))
    pub post_taken :
        (coll : Text) (doc : vp.Slice) (json : Text) (w : net.World)
        → (view w).known coll ≡ true
        → lookup (head coll ++ (chosen w).key_of doc) (view w).documents ≡ some json
        → Replies
            (lit "POST")
            (with_document RestVerb.post coll doc)
            (vp.bytes doc)
            w
            (RefusalReply vp)
            (view w)
    pub post_unknown :
        (coll : Text) (doc : vp.Slice) (w : net.World)
        → (view w).known coll ≡ false
        → Replies
            (lit "POST")
            (with_document RestVerb.post coll doc)
            (vp.bytes doc)
            w
            (RefusalReply vp)
            (view w)
    pub put_found :
        (id : Text) (doc : vp.Slice) (json : Text) (w : net.World)
        → lookup id (view w).documents ≡ some json
        → Replies
            (lit "PUT")
            (with_document RestVerb.put id doc)
            (vp.bytes doc)
            w
            (HandleReply vp id)
            (put id ((chosen w).stored id doc) (view w))
    pub put_missing :
        (id : Text) (doc : vp.Slice) (w : net.World)
        → lookup id (view w).documents ≡ none
        → Replies
            (lit "PUT")
            (with_document RestVerb.put id doc)
            (vp.bytes doc)
            w
            (RefusalReply vp)
            (view w)
    pub delete_found :
        (id json : Text) (w : net.World)
        → lookup id (view w).documents ≡ some json
        → Replies
            (lit "DELETE")
            (plain RestVerb.delete id)
            []
            w
            (AcceptedReply vp)
            (drop id (view w))
    pub delete_missing :
        (id : Text) (w : net.World)
        → lookup id (view w).documents ≡ none
        → Replies (lit "DELETE") (plain RestVerb.delete id) [] w (RefusalReply vp) (view w)
    pub head_found :
        (id json : Text) (w : net.World)
        → lookup id (view w).documents ≡ some json
        → Replies (lit "HEAD") (plain RestVerb.head id) [] w (StatusReply vp true) (view w)
    pub head_missing :
        (id : Text) (w : net.World)
        → lookup id (view w).documents ≡ none
        → Replies (lit "HEAD") (plain RestVerb.head id) [] w (StatusReply vp false) (view w)
