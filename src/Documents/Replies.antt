-- ===== src/Documents/Replies.antt =====
-- The answers of a server on single documents, and the messages that are read for them.
use arango_cpp.Base.{◌==◌, leb, Bool, true, false, some, [], ◌≡◌, ap, ◌∙◌, arith, Text, lit}
use arango_cpp.Velocypack.{VPack, value}
use arango_cpp.Requests.{HttpMessage, status_ok, status_bad_request}
use arango_cpp.Curl.Replies.{Reply, IsRead}
use arango_cpp.Documents.Server.{HasBody, IsRefusal, IsDocument, IsHandle}

module _ (vp : VPack) where
  -- The answers of a server on documents: a document, a refusal with a description, and the id of a
  -- document.
  pub record DocumentReply (json : Text) (r : Reply vp) : Type 0 where
    pub accepted : (r.status == status_ok) ≡ true
    pub slice : vp.Slice
    pub content : r.content ≡ some slice
    pub text : vp.to_json slice ≡ value json

  pub record RefusalReply (r : Reply vp) : Type 0 where
    pub error : leb status_bad_request r.status ≡ true
    pub slice : vp.Slice
    pub content : r.content ≡ some slice

  pub record HandleReply (id : Text) (r : Reply vp) : Type 0 where
    pub accepted : leb status_bad_request r.status ≡ false
    pub slice : vp.Slice
    pub content : r.content ≡ some slice
    pub field : vp.Slice
    pub get_field : vp.get slice (lit "_id") ≡ value field
    pub field_value : vp.copy_string field ≡ value id

  abbrev pub AcceptedReply : Reply vp → Type 0
  AcceptedReply r = leb status_bad_request r.status ≡ false

  abbrev pub StatusReply : Bool → Reply vp → Type 0
  StatusReply found r = (r.status == status_ok) ≡ found

  read-HasBody :
      (m : HttpMessage vp) (r : Reply vp) (slice : vp.Slice)
      → IsRead vp m r
      → r.content ≡ some slice
      → HasBody vp m slice
  read-HasBody m r slice read e = record { others = []; body = rw e at read.says.values }

  pub read-IsDocument :
      (json : Text) (m : HttpMessage vp) (r : Reply vp)
      → IsRead vp m r
      → DocumentReply json r
      → IsDocument vp m json
  read-IsDocument json m r read d = record {
    accepted = ap (λ n. n == status_ok) read.says.status ∙ d.accepted;
    slice = d.slice;
    has_body = read-HasBody m r d.slice read d.content;
    text = d.text;
  }

  pub read-IsRefusal :
      (m : HttpMessage vp) (r : Reply vp) → IsRead vp m r → RefusalReply r → IsRefusal vp m
  read-IsRefusal m r read d = record {
    error = ap (leb status_bad_request) read.says.status ∙ d.error;
    not_ok = ap (λ n. n == status_ok) read.says.status ∙ ground (arith, d.error);
    slice = d.slice;
    has_body = read-HasBody m r d.slice read d.content;
  }

  pub read-IsHandle :
      (id : Text) (m : HttpMessage vp) (r : Reply vp)
      → IsRead vp m r
      → HandleReply id r
      → IsHandle vp m id
  read-IsHandle id m r read d = record {
    accepted = ap (leb status_bad_request) read.says.status ∙ d.accepted;
    slice = d.slice;
    has_body = read-HasBody m r d.slice read d.content;
    field = d.field;
    get_field = d.get_field;
    field_value = d.field_value;
  }
