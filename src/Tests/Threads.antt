-- ===== src/Tests/Threads.antt =====
-- Two threads that send over one pool.
use arango_cpp.Base.{ℕ, Option, none, some, List, [], ◌∷◌, ◌≡◌, refl, Text, lit}
use arango_cpp.Connection.{default_connection}
use arango_cpp.Curl.{CurlObject, new_curl_object, request_body}
use arango_cpp.Curl.Handles.{posts}
use arango_cpp.Api.{NetState, get_resource}
use arango_cpp.Api.Reuse.{new_object}
use arango_cpp.Api.Threads.{
  Job, Answer, IsSendable, MakesHandles, transfer, put, Held, Run, stop, take, send, one_by_one,
  answers,
}
use arango_cpp.Api.Threads.Serial.{Run-one_by_one}
use arango_cpp.Tests.Samples.{byte_vp, some_settings}
use arango_cpp.Tests.Transport.{plain_curl, post_message, braces-ne}
use arango_cpp.Tests.Reuse.{echo_net, echo-Documented}

abbrev job : Text → Job byte_vp echo_net some_settings
job the_url = record {
  title = lit "ArangoDB";
  the_url = the_url;
  connect_data = default_connection;
  rq = post_message;
}

job-IsSendable : (the_url : Text) → IsSendable byte_vp echo_net some_settings (job the_url)
unfolding request_body lit
job-IsSendable the_url = record {
  body = lit "{}";
  word = lit "POST";
  made = λ w. refl;
  method = posts braces-ne;
}

makes : MakesHandles byte_vp echo_net some_settings
makes w = refl

abbrev idle : Held byte_vp echo_net some_settings
idle i = none

abbrev State : Type 0
State = NetState echo_net

abbrev start : State
start = record { pool = []; world = 0 }

abbrev moved : Text → ℕ → (Answer byte_vp echo_net some_settings × Option CurlObject) × ℕ
moved the_url w = transfer byte_vp echo_net some_settings (job the_url) new_object w

abbrev held :
    ℕ
    → Option CurlObject
    → Held byte_vp echo_net some_settings
    → Held byte_vp echo_net some_settings
held = put byte_vp echo_net some_settings

-- Both take a handle; the second thread sends first.
abbrev both : Held byte_vp echo_net some_settings
both = held 1 (some new_object) (held 0 (some new_object) idle)

abbrev log : List (Job byte_vp echo_net some_settings × Answer byte_vp echo_net some_settings)
log =
    (job (lit "b"), (moved (lit "b") 0).0.0)
    ∷ (job (lit "a"), (moved (lit "a") (moved (lit "b") 0).1).0.0)
    ∷ []

abbrev last_held : Held byte_vp echo_net some_settings
last_held = held 0 (moved (lit "a") (moved (lit "b") 0).1).0.1 (held 1 (moved (lit "b") 0).0.1 both)

abbrev last : State
last = record { pool = []; world = (moved (lit "a") (moved (lit "b") 0).1).1 }

two_threads : Run byte_vp echo_net some_settings idle start log last_held last
unfolding get_resource new_curl_object put
two_threads = take 0 new_object refl refl (
    take 1 new_object refl refl
      (send 1 new_object (job (lit "b")) refl (send 0 new_object (job (lit "a")) refl stop)))

Run-one_by_one_example :
    let x = one_by_one byte_vp echo_net some_settings log start in
    (answers byte_vp echo_net some_settings log ≡ x.0) × (last.world ≡ x.1.world)
Run-one_by_one_example =
    Run-one_by_one byte_vp echo_net some_settings plain_curl echo-Documented makes two_threads []
      (job-IsSendable (lit "b"), (job-IsSendable (lit "a"), tt))
