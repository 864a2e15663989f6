-- ===== src/Nodes/Http/Tests.antt =====
-- The HTTP node at small requests.
use flowbroker.Prelude.{
  String, false, none, some, [], ◌∷◌, ◌≡◌, ◌≢◌, ◌≤◌, ◌↔◌, refl, eq_iff, false≢true,
}
use flowbroker.Prelude.Int.{pos}
use flowbroker.Prelude.Dict
use flowbroker.Prelude.Dict.Keys.{Distinct, keys}
use flowbroker.Json.{Value, null, num, str, obj, Fields, end, field, own, assign}
use flowbroker.Nodes.Base
use flowbroker.Nodes.Outcomes.{forwarded, Written}
use flowbroker.Nodes.Http.{HttpRequest, Texts, handle_message_request}
use flowbroker.Nodes.Http.Handler.{
  HttpConfig, HttpEngines, Sent, sends, url_of, request_of, prepare,
}
use flowbroker.Nodes.Http.Prepared.{Addresses, Carries, prepare-Carries}
use flowbroker.Nodes.Http.Response.{
  HttpResponse, responded, Formats, resolve_request, body, resolve_request_lem,
}

abbrev texts : Texts
texts = record { number_text = λ n. "1"; stringify = λ v. "{}"; byte_length = λ s. pos 2 }

abbrev formats : Formats
formats = record { buffers = λ cs. null; parse_json = λ s. none }

-- A body with a token and a header of its own.
abbrev given : HttpRequest
given = record {
  headers = ("authorization", str "Bearer x") ∷ ("X-Id", str "7") ∷ [];
  payload = some (str "on");
}

abbrev engines : HttpEngines
engines = record {
  parse_request = λ v. some given;
  render = λ s m. some s;
  is_template = λ s. false;
  texts = texts;
  formats = formats;
}

abbrev config : HttpConfig
config = record { url = "dojot/x"; method = "POST"; ret = "txt"; body = "body"; response = "reply" }

abbrev incoming : Fields
incoming = field "body" (str "{}") end

abbrev request : Sent
request = record {
  url = "http://dojot/x";
  method = "POST";
  opts = (handle_message_request texts "POST" given).1;
  payload = some "on";
}

request-sent : prepare engines config incoming ≡ sends request
unfolding prepare Base.get Base.get_path Base.pieces request_of own url_of
request-sent = refl

prepare-Carries_example :
    (r : HttpRequest) × (url : String) × (request_of engines config incoming ≡ some r)
    × (url_of engines config incoming ≡ some url)
    × (Distinct (keys r.headers) → Addresses url request × Carries r request)
prepare-Carries_example = prepare-Carries engines config incoming request request-sent

-- The length of the payload is not sent, and the token is taken for a user and a password.
sent_headers : request.opts.headers ≡ ("X-Id", str "7") ∷ []
unfolding handle_message_request Dict.remove Dict.get Dict.put
sent_headers = refl

abbrev response : HttpResponse
response = record {
  status_code = num (pos 200);
  headers = obj end;
  response_url = str "http://dojot/x";
  chunks = "a" ∷ "b" ∷ [];
}

abbrev received : Value
received = obj (
    field "reply"
      (obj (
        field "statusCode" (num (pos 200)) (
          field "headers" (obj end)
            (field "responseUrl" (str "http://dojot/x") (field "payload" (str "a,b") end)))))
      end)

received_run :
    resolve_request formats "txt" "reply" (obj end) (responded response) ≡ some (forwarded received)
unfolding resolve_request Base.set Base.pieces assign
received_run = refl

txt≢bin : ◌≢◌ {A = String} "txt" "bin"
txt≢bin e = false≢true ((eq_iff "txt" "bin").1 e)

txt≢obj : ◌≢◌ {A = String} "txt" "obj"
txt≢obj e = false≢true ((eq_iff "txt" "obj").1 e)

resolve_request_lem_example :
    (payload : String) × Written "reply"
      (obj (
        field "statusCode" (num (pos 200)) (
          field "headers"
            (obj end)
            (field "responseUrl" (str "http://dojot/x") (field "payload" (str payload) end)))))
      end
      received
    × ((payload ≡ body ("a" ∷ "b" ∷ [])) ↔ (2 ≤ 1))
resolve_request_lem_example =
    resolve_request_lem formats "txt" "reply" end response received received_run txt≢bin txt≢obj
