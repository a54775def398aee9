-- ===== src/Http/Sending.antt =====
-- Stored requests on their way to the transport, src/pqueue/http/outbox.cpp: they are decoded,
-- expanded, posted and the response is classified. The transport and the callbacks of the
-- configuration are parameters; `none` is one that is not set. The headers are the same in each
-- post and belong to the transport here. Diagnostics are left out. A status code below 0 is taken
-- as 0: it is in no class either.
use pqueue.Base.{
  ℕ, Bool, true, false, not, ◌&&◌, ◌||◌, [], ◌∷◌, ◌++◌, Option, none, some, ltb, leb, ◌==◌,
  if◌then◌else◌, drop,
}
use pqueue.Bytes.{Bytes}
use pqueue.Outbox.{SendDecision, sent, retry_later, SendResult, SendCallback}
use pqueue.Http.{RequestEnvelope, method_post, encoding_compact, decode_request_envelope}

pub data TransportError : Type 0 where
  no_error timeout network tls dns unknown : TransportError

pub record Response : Type 0 where
  pub status_code : ℕ
  pub error : TransportError
  pub body : Bytes
  pub retry_after_ms : ℕ

pub data DropReason : Type 0 where
  decode_failed server_rejected expand_failed : DropReason

abbrev pub is_no_error : TransportError → Bool
is_no_error no_error = true
is_no_error _ = false

unfoldable pub is_successful_status : ℕ → Bool
is_successful_status status_code = leb 200 status_code && ltb status_code 300

unfoldable pub is_permanent_error_status : ℕ → Bool
is_permanent_error_status status_code =
    status_code == 501 || (status_code == 505 || status_code == 508)

unfoldable pub is_retryable_status : ℕ → Bool
unfolding is_permanent_error_status
is_retryable_status status_code =
    not (is_permanent_error_status status_code)
    && (status_code == 408 || (status_code == 429 || (leb 500 status_code && ltb status_code 600)))

unfoldable pub default_classify_response : Response → SendDecision
unfolding is_successful_status is_retryable_status
default_classify_response response =
    if not (is_no_error response.error)
    then retry_later
    else if is_successful_status response.status_code
    then sent
    else if is_retryable_status response.status_code
    then retry_later
    else SendDecision.drop

abbrev pub slash : ℕ
slash = 0x2f

unfoldable pub starts_with_slash : Bytes → Bool
starts_with_slash [] = false
starts_with_slash (b ∷ bs) = b == slash

unfoldable pub ends_with_slash : Bytes → Bool
ends_with_slash [] = false
ends_with_slash (b ∷ []) = b == slash
ends_with_slash (b ∷ b' ∷ bs) = ends_with_slash (b' ∷ bs)

unfoldable pub join_url : Bytes → Bytes → Bytes
unfolding starts_with_slash ends_with_slash
join_url base path =
    if ends_with_slash base && starts_with_slash path
    then base ++ drop 1 path
    else if not (ends_with_slash base) && not (starts_with_slash path)
    then base ++ (slash ∷ path)
    else base ++ path

-- A base URL that is not set is empty.
unfoldable pub build_url : Bytes → Bytes → Bytes
unfolding join_url
build_url [] path = path
build_url (b ∷ bs) [] = b ∷ bs
build_url (b ∷ bs) (p ∷ ps) = join_url (b ∷ bs) (p ∷ ps)

-- `c_str()`, as it is read: the bytes in front of the first 0.
unfoldable pub c_str : Bytes → Bytes
c_str [] = []
c_str (b ∷ bs) = let rest = c_str bs in if b == 0 then [] else b ∷ rest

-- The callbacks that a stored request reaches: `posted` is the URL and the body of the post, with
-- the response, and `dropped` what the drop callback is told.
pub record Sending : Type 0 where
  pub result : SendResult
  pub posted : Option (Bytes × Bytes × Response)
  pub dropped : Option (Option RequestEnvelope × DropReason × Option Response)

abbrev pub dropped_unsent : Option RequestEnvelope → DropReason → Sending
dropped_unsent request reason = record {
  result = record { decision = SendDecision.drop; retry_after_ms = 0 };
  posted = none;
  dropped = some (request, reason, none);
}

abbrev pub is_drop : SendDecision → Bool
is_drop sent = false
is_drop retry_later = false
is_drop SendDecision.drop = true

module _ (base_url : Bytes) (expand_body : Option (Bytes → Bytes → Option Bytes))
    (classify : Option (Response → SendDecision)) (post : Bytes → Bytes → Response) where
  unfoldable pub classify_with : Option (Response → SendDecision) → Response → SendDecision
  unfolding default_classify_response
  classify_with none response = default_classify_response response
  classify_with (some f) response = f response

  unfoldable pub classify_response : Response → SendDecision
  unfolding classify_with
  classify_response response = classify_with classify response

  unfoldable pub after_post : RequestEnvelope → Bytes → Bytes → Response → Sending
  unfolding classify_response
  after_post request url body response =
      let decision = classify_response response in
      record {
        result = record { decision = decision; retry_after_ms = response.retry_after_ms };
        posted = some (url, body, response);
        dropped =
            if is_drop decision then some (some request, server_rejected, some response) else none;
      }

  unfoldable pub post_body : RequestEnvelope → Option Bytes → Sending
  unfolding after_post build_url c_str
  post_body request none = dropped_unsent (some request) expand_failed
  post_body request (some body) =
      let url = c_str (build_url base_url request.path) in
      after_post request url body (post url body)

  -- The body that is posted: a compact one is expanded.
  unfoldable pub expand_with :
      Option (Bytes → Bytes → Option Bytes) → RequestEnvelope → Option Bytes
  unfolding c_str
  expand_with none request = none
  expand_with (some f) request = f (c_str request.path) request.body

  unfoldable pub http_body : RequestEnvelope → Option Bytes
  unfolding expand_with
  http_body request =
      if request.encoding == encoding_compact
      then expand_with expand_body request
      else some request.body

  unfoldable pub send_decoded : Option RequestEnvelope → Sending
  unfolding post_body http_body
  send_decoded none = dropped_unsent none decode_failed
  send_decoded (some request) =
      if not (request.method == method_post)
      then dropped_unsent none decode_failed
      else post_body request (http_body request)

  unfoldable pub send_stored_request : Bytes → Sending
  unfolding send_decoded
  send_stored_request encoded = send_decoded (decode_request_envelope encoded)

  -- The callback that the outbox is given; the number of attempts goes to diagnostics only.
  abbrev pub send_callback : SendCallback
  send_callback payload attempts = (send_stored_request payload).result
