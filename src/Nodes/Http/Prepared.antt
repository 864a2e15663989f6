-- ===== src/Nodes/Http/Prepared.antt =====
-- orchestrator/nodes/http/index.js: the requests that the node makes.
use Prim.Native.String.{◌++◌}
use flowbroker.Prelude.{
  String, true, false, none, some, ◌==◌, ◌≡◌, ◌≢◌, inl, inr, refl, Option-cases, Bool-cases, All,
}
use flowbroker.Prelude.Letters.{to_lower_case}
use flowbroker.Prelude.Dict
use flowbroker.Prelude.Dict.Keys.{Distinct, keys}
use flowbroker.Json.{Fields}
use flowbroker.Nodes.Http.{
  is_http, has_transport, test_url, HttpRequest, Texts, handle_message_request,
}
use flowbroker.Nodes.Http.Loop.{Plain}
use flowbroker.Nodes.Http.Headers.{handle_message_request_lem, handle_message_request-auth}
use flowbroker.Nodes.Http.Handler.{
  HttpConfig, HttpEngines, Sent, refuses, throws, sends, url_of, method_of, request_of, to_send,
  prepare,
}

-- The URL of a request: with a transport, that of HTTP where there is none.
abbrev pub Addresses : String → Sent → Type 0
Addresses url s =
    (is_http s.url ≡ true)
    × (has_transport url ≡ true → s.url ≡ url)
    × (has_transport url ≡ false → s.url ≡ "http://" ++ url)

is_http-test_url : (url : String) → (test_url url).0 ≡ true → is_http (test_url url).1 ≡ true
unfolding test_url
is_http-test_url url h = h

with_transport : (url : String) → has_transport url ≡ true → (test_url url).1 ≡ url
unfolding test_url
with_transport url t = rw t refl

without_transport : (url : String) → has_transport url ≡ false → (test_url url).1 ≡ "http://" ++ url
unfolding test_url
without_transport url t = rw t refl

-- What the node sends of a message's request.
abbrev pub Carries : HttpRequest → Sent → Type 0
Carries request s =
    (Dict.get "authorization" s.opts.headers ≡ none)
    × (s.opts.auth ≡ Dict.get "authorization" request.headers)
    × ((k : String)
        → Plain k
        → k ≢ "authorization"
        → Dict.get k s.opts.headers ≡ Dict.get k request.headers)
    × (All Plain (keys request.headers)
        → (k : String) → to_lower_case k ≡ "content-length"
        → Dict.get k s.opts.headers ≡ none)

refuses≢sends : {s : Sent} → refuses ≢ sends s
refuses≢sends h = cc

throws≢sends : {s : Sent} → throws ≢ sends s
throws≢sends h = cc

sends-inj : {s t : Sent} → sends s ≡ sends t → s ≡ t
sends-inj h = cc

carried :
    (texts : Texts) (method : String) (request : HttpRequest)
    → Distinct (keys request.headers)
    → (Dict.get "authorization" (handle_message_request texts method request).1.headers ≡ none)
      × ((handle_message_request texts method request).1.auth
          ≡ Dict.get "authorization" request.headers)
      × ((k : String)
          → Plain k
          → k ≢ "authorization"
          → Dict.get k (handle_message_request texts method request).1.headers
            ≡ Dict.get k request.headers)
      × (All Plain (keys request.headers)
          → (k : String) → to_lower_case k ≡ "content-length"
          → Dict.get k (handle_message_request texts method request).1.headers ≡ none)
carried texts method request d =
    let (gone, kept, bare) = handle_message_request_lem texts method request d in
    (gone, handle_message_request-auth texts method request d, kept, bare)

to_send-Carries :
    (engines : HttpEngines) (url : String) (config : HttpConfig) (fs : Fields)
    (request : HttpRequest) (s : Sent)
    → to_send engines url config fs request ≡ sends s
    → Distinct (keys request.headers)
    → Addresses url s × Carries request s
unfolding to_send
to_send-Carries engines url config fs request s h d = elim (Bool-cases (test_url url).0) [
  | inr b ↦ absurd (refuses≢sends (rw (b, to_send) at h))
  | inl b ↦
      let e = sends-inj (rw (b, to_send) at h) in
      rw (← e) (
        (is_http-test_url url b, with_transport url, without_transport url),
        carried engines.texts (method_of engines config fs) request d,
      )
]

-- A request that the node makes for a message: it goes to a URL of HTTP or HTTPS, which is the node's,
-- with the transport of HTTP if it names none; and of the headers of the request in the message, if their
-- names are distinct, an `authorization` is not among the headers that the node sets, and its value is
-- their `auth` option; a header of another name that is not that of the content's type or length, in
-- letters of any case, is set as it is given, and none of such a name is added; and where no header of the content's type or length is given, no length of the content is set.
pub prepare-Carries :
    (engines : HttpEngines) (config : HttpConfig) (fs : Fields) (s : Sent)
    → prepare engines config fs ≡ sends s
    → (request : HttpRequest) × (url : String) × (request_of engines config fs ≡ some request)
      × (url_of engines config fs ≡ some url)
      × (Distinct (keys request.headers) → Addresses url s × Carries request s)
unfolding prepare
prepare-Carries engines config fs s h = elim (Option-cases (request_of engines config fs)) [
  | inl e ↦ absurd (refuses≢sends (rw (e, prepare) at h))
  | inr (request, e) ↦ elim (Option-cases (url_of engines config fs)) [
    | inl n ↦ absurd (throws≢sends (rw (e, n, prepare) at h))
    | inr (url, u) ↦ elim (Bool-cases (url == "")) [
      | inl b ↦ absurd (refuses≢sends (rw (e, u, b, prepare) at h))
      | inr b ↦ (
        request,
        url,
        e,
        u,
        to_send-Carries engines url config fs request s (rw (e, u, b, prepare) at h),
      )
    ]
  ]
]
