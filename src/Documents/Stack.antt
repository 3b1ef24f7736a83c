-- ===== src/Documents/Stack.antt =====
-- The operations on documents over the whole of the library: the pool of handles, libcurl and a
-- server that answers HTTP requests.
use arango_cpp.Base.{true, Option, ◌≡◌, Text}
use arango_cpp.Velocypack.{VPack, IsLawful}
use arango_cpp.Requests.{Settings, HttpMessage, RestVerb}
use arango_cpp.Curl.{Net}
use arango_cpp.Curl.Handles.{CurlLib}
use arango_cpp.Api.{Client, NetState, ApiBase}
use arango_cpp.Api.Stack.{MakesHandles}
use arango_cpp.Documents.{Store}
use arango_cpp.Documents.Http.{stack_client, stack_view, plain, with_document}

module _ (vp : VPack) (net : Net) (settings : Settings) (curl : CurlLib) (fresh : curl.Handle)
    (api : ApiBase) (view : net.World → Store) (asks : vp.Slice → Option Text)
    (Keeps : vp.Slice → Text → Type 0) (L : IsLawful vp)
    (binary : settings.use_velocypack_put ≡ true)
    (makes : MakesHandles vp net settings curl fresh api.connect_data view) where
  abbrev client : Client vp (NetState net)
  client = stack_client vp net settings curl fresh api view asks Keeps

  abbrev documents : NetState net → Store
  documents = stack_view vp net settings curl fresh api view asks Keeps

  abbrev bare : RestVerb → Text → HttpMessage vp
  bare verb id = plain vp net settings curl fresh api view asks Keeps verb id

  abbrev holding : RestVerb → Text → vp.Slice → HttpMessage vp
  holding verb id doc = with_document vp net settings curl fresh api view asks Keeps verb id doc
