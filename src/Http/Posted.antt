-- ===== src/Http/Posted.antt =====
-- An encoded request, as it reaches the transport.
use pqueue.Base.{
  subst, ℕ, zero, suc, ◌≡◌, refl, sym, ap, ◌∙◌, true, Option, none, some, arith, length, ◌>>=◌,
  if◌then◌else◌, ◌==◌,
}
use pqueue.Bytes.{Bytes, IsU16, IsU32}
use pqueue.Outbox.{SendDecision}
use pqueue.Http.{
  RequestEnvelope, encoding_raw, encoding_is_supported, encode_request_envelope,
  decode_request_envelope,
}
use pqueue.Http.RoundTrip.{request, decode-encode_request_envelope}
use pqueue.Http.Sending.{
  Response, Sending, c_str, classify_with, server_rejected, expand_failed, build_url, is_drop,
  classify_response, after_post, post_body, http_body, send_decoded, send_stored_request,
  expand_with,
}
use pqueue.Http.Classes.{
  IsClass, default_classify_response-IsClass, url_of, build_url-url_of, IsCString, c_str-IsCString,
}

module _ (base_url : Bytes) (expand_body : Option (Bytes → Bytes → Option Bytes))
    (classify : Option (Response → SendDecision)) (post : Bytes → Bytes → Response) where
  -- The class of a response: that of the callback if there is one.
  abbrev pub IsDecided : Option (Response → SendDecision) → Response → SendDecision → Type 0
  IsDecided none response decision = IsClass response decision
  IsDecided (some f) response decision = decision ≡ f response

  classify_with-IsDecided :
      (f : Option (Response → SendDecision)) (response : Response)
      → IsDecided f response (classify_with base_url expand_body classify post f response)
  unfolding classify_with
  classify_with-IsDecided none response = default_classify_response-IsClass response
  classify_with-IsDecided (some f) response = refl

  -- The request was posted, with this body, to the URL of its path, as it is read up to its first 0;
  -- the answer is the class of the response with its delay, and a drop is reported exactly if that is
  -- the class.
  abbrev pub IsPosted : RequestEnvelope → Bytes → Sending → Type 0
  IsPosted r sent_body s =
      (url : Bytes) × IsCString (url_of base_url r.path) url
      × (s.posted ≡ some (url, sent_body, post url sent_body))
      × IsDecided classify (post url sent_body) s.result.decision
      × (s.result.retry_after_ms ≡ (post url sent_body).retry_after_ms)
      × (s.dropped ≡ (
          if is_drop s.result.decision
          then some (some r, server_rejected, some (post url sent_body))
          else none))

  post_body-IsPosted :
      (r : RequestEnvelope) (sent_body : Bytes)
      → IsPosted r sent_body (post_body base_url expand_body classify post r (some sent_body))
  unfolding post_body after_post classify_response
  post_body-IsPosted r sent_body =
      let url = c_str (build_url base_url r.path) in
      (
        url,
        subst (λ u. IsCString u url) (build_url-url_of base_url r.path)
            (c_str-IsCString (build_url base_url r.path)),
        refl,
        classify_with-IsDecided classify (post url sent_body),
        refl,
        refl,
      )

  -- A compact request whose body is expanded to `expanded`, or cannot be expanded.
  abbrev pub Expands : RequestEnvelope → Option Bytes → Sending → Type 0
  Expands r none s =
      (s.posted ≡ none)
      × (is_drop s.result.decision ≡ true)
      × (s.dropped ≡ some (some r, expand_failed, none))
  Expands r (some expanded) s = IsPosted r expanded s

  post_body-Expands :
      (r : RequestEnvelope) (expanded : Option Bytes)
      → Expands r expanded (post_body base_url expand_body classify post r expanded)
  unfolding post_body
  post_body-Expands r none = (refl, refl, refl)
  post_body-Expands r (some expanded) = post_body-IsPosted r expanded

  decoded :
      (path body : Bytes) (encoding : ℕ) (encoded : Bytes)
      → IsU16 (length path)
      → IsU32 (length body)
      → encoding_is_supported encoding ≡ true
      → encode_request_envelope (request encoding path body) ≡ some encoded
      → decode_request_envelope encoded ≡ some (request encoding path body)
  decoded path body encoding encoded hp hb h e =
      ap (λ t. t >>= decode_request_envelope) (sym e)
      ∙ decode-encode_request_envelope encoding path body hp hb h

  -- The body that a request is posted with: its own if it is raw, and what the expansion, if there
  -- is one, makes of it if it is compact.
  abbrev pub body_to_post : RequestEnvelope → Option Bytes
  body_to_post r =
      if r.encoding == encoding_raw
      then some r.body
      else do expand ← expand_body; expand (c_str r.path) r.body

  http_body-body_to_post :
      (encoding : ℕ) (path body : Bytes)
      → encoding_is_supported encoding ≡ true
      → http_body base_url expand_body classify post (request encoding path body)
        ≡ body_to_post (request encoding path body)
  unfolding http_body encoding_is_supported expand_with
  http_body-body_to_post zero path body h = refl
  http_body-body_to_post (suc zero) path body h = expansion expand_body
    where
      expansion :
          (e : Option (Bytes → Bytes → Option Bytes))
          → expand_with base_url expand_body classify post e (request 1 path body)
            ≡ (e >>= (λ f. f (c_str path) body))
      expansion none = refl
      expansion (some f) = refl
  http_body-body_to_post (suc (suc encoding)) path body h = absurd (ground (arith, h))

  -- A request that was encoded, with lengths that fit and an encoding that is supported, is posted
  -- once, to the base URL and its path joined by one slash and read up to their first 0, with its
  -- body if it is raw and with what the expansion makes of its body if it is compact; the answer
  -- is the class of the response with its delay, and a drop is reported exactly if that is the
  -- class. A compact request that cannot be expanded is not posted, and is dropped and reported.
  pub send_stored_request-encoded :
      (encoding : ℕ) (path body encoded : Bytes)
      → IsU16 (length path)
      → IsU32 (length body)
      → encoding_is_supported encoding ≡ true
      → encode_request_envelope (request encoding path body) ≡ some encoded
      → Expands
          (request encoding path body)
          (body_to_post (request encoding path body))
          (send_stored_request base_url expand_body classify post encoded)
  unfolding send_stored_request send_decoded
  send_stored_request-encoded encoding path body encoded hp hb h e =
      let r = request encoding path body in
      rw (decoded path body encoding encoded hp hb h e, http_body-body_to_post encoding path body h)
        (post_body-Expands r (body_to_post r))
