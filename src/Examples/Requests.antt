-- ===== src/Examples/Requests.antt =====
-- Stored requests of both versions.
use pqueue.Base.{◌≡◌, refl, [], ◌∷◌, ◌++◌, Option, none, some, arith, ◌>>=◌}
use pqueue.Outbox.{SendDecision, sent}
use pqueue.Bytes.{Bytes, u16_bytes, u32_bytes}
use pqueue.Http.{method_post, encode_request_envelope, decode_request_envelope}
use pqueue.Http.RoundTrip.{
  version1, version2, request, decode-encode_request_envelope, decode_request_envelope-version1,
}
use pqueue.Http.Sending.{
  Response, no_error, build_url, default_classify_response, send_stored_request,
}
use pqueue.Http.Posted.{Expands, send_stored_request-encoded}

abbrev path : Bytes
path = 47 ∷ 97 ∷ []

abbrev body : Bytes
body = 1 ∷ 2 ∷ 3 ∷ []

decode-encode_request_envelope_example :
    (encode_request_envelope (request 1 path body) >>= decode_request_envelope)
    ≡ some (request 1 path body)
decode-encode_request_envelope_example =
    decode-encode_request_envelope 1 path body (omega arith) (omega arith)
      (unfold pqueue.Http.encoding_is_supported in refl)

decode_request_envelope-version1_example :
    decode_request_envelope (version1 path body) ≡ some (request 0 path body)
decode_request_envelope-version1_example =
    decode_request_envelope-version1 path body (omega arith) (omega arith)

abbrev base_url : Bytes
base_url = 104 ∷ 47 ∷ []

abbrev answers : Bytes → Bytes → Response
answers url sent_body = record {
  status_code = 204;
  error = no_error;
  body = [];
  retry_after_ms = 0;
}

abbrev doubles : Bytes → Bytes → Option Bytes
doubles url compact = some (compact ++ compact)

abbrev stored : Bytes
stored = version2 1 path body

one_slash : build_url base_url path ≡ 104 ∷ 47 ∷ 97 ∷ []
unfolding build_url
one_slash = refl

classes :
    (default_classify_response
        (record { status_code = 508; error = no_error; body = []; retry_after_ms = 0 })
      ≡ SendDecision.drop)
    × (default_classify_response (answers [] []) ≡ sent)
unfolding default_classify_response
classes = (refl, refl)

request_stored : encode_request_envelope (request 1 path body) ≡ some stored
unfolding encode_request_envelope u16_bytes u32_bytes
request_stored = refl

send_stored_request-encoded_example :
    Expands base_url
      (some doubles)
      none
      answers
      (request 1 path body)
      (some (1 ∷ 2 ∷ 3 ∷ 1 ∷ 2 ∷ 3 ∷ []))
      (send_stored_request base_url (some doubles) none answers stored)
send_stored_request-encoded_example =
    send_stored_request-encoded base_url (some doubles) none answers 1 path body stored
      (omega arith) (omega arith) (unfold pqueue.Http.encoding_is_supported in refl) request_stored
