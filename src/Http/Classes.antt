-- ===== src/Http/Classes.antt =====
-- How a response is classified, and the URL of a path, described apart from the code.
use pqueue.Base.{
  ℕ, ◌≤◌, ◌<◌, ◌≡◌, ◌≢◌, refl, sym, ap, ◌∙◌, ◌⊎◌, inl, inr, true, false, [], ◌∷◌, ◌++◌, arith, All,
  Bool-cases, ltb, ◌==◌, if◌then◌else◌, append_assoc,
}
use pqueue.Bytes.{Bytes}
use pqueue.Outbox.{SendDecision, sent, retry_later}
use pqueue.Http.Sending.{
  Response, is_no_error, is_successful_status, is_permanent_error_status, is_retryable_status,
  default_classify_response, slash, starts_with_slash, ends_with_slash, join_url, build_url, c_str,
}

-- A status that another attempt may change: 408, 429 and those from 500 to 599 but 501, 505 and 508.
abbrev pub IsTransient : ℕ → Type 0
IsTransient c = (c ≡ 408) ⊎ (c ≡ 429) ⊎ ((500 ≤ c) × (c < 600) × (c ≢ 501) × (c ≢ 505) × (c ≢ 508))

abbrev pub IsClass : Response → SendDecision → Type 0
IsClass r sent = (is_no_error r.error ≡ true) × (200 ≤ r.status_code) × (r.status_code < 300)
IsClass r retry_later = (is_no_error r.error ≡ false) ⊎ IsTransient r.status_code
IsClass r SendDecision.drop =
    (is_no_error r.error ≡ true)
    × ((r.status_code < 200) ⊎ (300 ≤ r.status_code))
    × ¬ IsTransient r.status_code

is_retryable_status-IsTransient : (c : ℕ) → is_retryable_status c ≡ true → IsTransient c
unfolding is_retryable_status is_permanent_error_status
is_retryable_status-IsTransient c e = elim (Bool-cases (c == 408)) [
  | inl a ↦ inl (ground (arith, a))
  | inr a ↦ elim (Bool-cases (c == 429)) [
    | inl b ↦ inr (inl (ground (arith, b)))
    | inr b ↦ inr (
        inr (
          ground (arith, a, b, e),
          ground (arith, a, b, e),
          λ x. ground (arith, x, e),
          λ x. ground (arith, x, e),
          λ x. ground (arith, x, e),
        ))
  ]
]

not-IsTransient : (c : ℕ) → is_retryable_status c ≡ false → ¬ IsTransient c
unfolding is_retryable_status is_permanent_error_status
not-IsTransient c e (inl x) = absurd (ground (arith, x, e))
not-IsTransient c e (inr (inl x)) = absurd (ground (arith, x, e))
not-IsTransient c e (inr (inr (low, high, a, b, d))) = elim (Bool-cases (c == 501)) [
  | inl k ↦ a (ground (arith, k))
  | inr k ↦ elim (Bool-cases (c == 505)) [
    | inl l ↦ b (ground (arith, l))
    | inr l ↦ elim (Bool-cases (c == 508)) [
      | inl n ↦ d (ground (arith, n))
      | inr n ↦ absurd (ground (arith, k, l, n, low, high, e))
    ]
  ]
]

outside : (c : ℕ) → is_successful_status c ≡ false → (c < 200) ⊎ (300 ≤ c)
unfolding is_successful_status
outside c e = elim (Bool-cases (ltb c 200)) [
  | inl k ↦ inl (ground (arith, k))
  | inr k ↦ inr (ground (arith, k, e))
]

pub default_classify_response-IsClass : (r : Response) → IsClass r (default_classify_response r)
unfolding default_classify_response
default_classify_response-IsClass r = elim (Bool-cases (is_no_error r.error)) [
  | inr e ↦ rw e (inl e)
  | inl e ↦ rw e (elim (Bool-cases (is_successful_status r.status_code)) [
    | inl s ↦ rw s (
      e,
      (unfold is_successful_status in ground (arith, s)),
      (unfold is_successful_status in ground (arith, s)),
    )
    | inr s ↦ rw s (elim (Bool-cases (is_retryable_status r.status_code)) [
      | inl t ↦ rw t (inr (is_retryable_status-IsTransient r.status_code t))
      | inr t ↦ rw t (e, outside r.status_code s, not-IsTransient r.status_code t)
    ])
  ])
]

abbrev pub without_last_slash : Bytes → Bytes
without_last_slash [] = []
without_last_slash (b ∷ []) = if b == slash then [] else b ∷ []
without_last_slash (b ∷ b' ∷ bs) = b ∷ without_last_slash (b' ∷ bs)

abbrev pub without_first_slash : Bytes → Bytes
without_first_slash [] = []
without_first_slash (b ∷ bs) = if b == slash then bs else b ∷ bs

-- The base and the path with one slash between them, whether either has it or both or none.
abbrev pub url_of : Bytes → Bytes → Bytes
url_of [] path = path
url_of (b ∷ bs) [] = b ∷ bs
url_of (b ∷ bs) (p ∷ ps) = without_last_slash (b ∷ bs) ++ (slash ∷ without_first_slash (p ∷ ps))

last_slash :
    (b : ℕ) (bs : Bytes)
    → ends_with_slash (b ∷ bs) ≡ true
    → b ∷ bs ≡ without_last_slash (b ∷ bs) ++ (slash ∷ [])
unfolding ends_with_slash
last_slash b [] e = let is : b ≡ slash = ground (arith, e) in rw e (ap (λ x. x ∷ []) is)
last_slash b (b' ∷ bs) e = ap (λ t. b ∷ t) (last_slash b' bs e)

no_last_slash :
    (b : ℕ) (bs : Bytes) → ends_with_slash (b ∷ bs) ≡ false → without_last_slash (b ∷ bs) ≡ b ∷ bs
unfolding ends_with_slash
no_last_slash b [] e = rw e refl
no_last_slash b (b' ∷ bs) e = ap (λ t. b ∷ t) (no_last_slash b' bs e)

pub build_url-url_of : (base path : Bytes) → build_url base path ≡ url_of base path
unfolding build_url join_url starts_with_slash
build_url-url_of [] path = refl
build_url-url_of (b ∷ bs) [] = refl
build_url-url_of (b ∷ bs) (p ∷ ps) = elim (Bool-cases (ends_with_slash (b ∷ bs))) [
  | inl e ↦
      let split = last_slash b bs e in
      elim (Bool-cases (p == slash)) [
        | inl f ↦
            rw (e, f)
              (ap (λ t. t ++ ps) split ∙ append_assoc (without_last_slash (b ∷ bs)) (slash ∷ []) ps)
        | inr f ↦
            rw (e, f)
              (ap (λ t. t ++ (p ∷ ps)) split
                ∙ append_assoc (without_last_slash (b ∷ bs)) (slash ∷ []) (p ∷ ps))
      ]
  | inr e ↦
      let same = no_last_slash b bs e in
      elim (Bool-cases (p == slash)) [
        | inl f ↦
            let is : p ≡ slash = ground (arith, f) in
            rw (e, f)
              (ap (λ t. t ++ (p ∷ ps)) (sym same)
                ∙ ap (λ x. without_last_slash (b ∷ bs) ++ (x ∷ ps)) is)
        | inr f ↦ rw (e, f) (ap (λ t. t ++ (slash ∷ (p ∷ ps))) (sym same))
      ]
]

-- A string as it is read up to its first 0.
abbrev pub IsCString : Bytes → Bytes → Type 0
IsCString whole read =
    All (λ b. b ≢ 0) read × ((read ≡ whole) ⊎ ((rest : Bytes) × (whole ≡ read ++ (0 ∷ rest))))

pub c_str-IsCString : (whole : Bytes) → IsCString whole (c_str whole)
unfolding c_str
c_str-IsCString [] = (tt, inl refl)
c_str-IsCString (b ∷ bs) = elim (Bool-cases (b == 0)) [
  | inl e ↦ rw e (tt, inr (bs, ap (λ x. x ∷ bs) (ground (arith, e))))
  | inr e ↦ rw e (extend (c_str-IsCString bs) (λ z. ground (arith, z, e)))
]
  where
    extend : IsCString bs (c_str bs) → b ≢ 0 → IsCString (b ∷ bs) (b ∷ c_str bs)
    extend (free, inl same) d = ((d, free), inl (ap (λ t. b ∷ t) same))
    extend (free, inr (rest, split)) d = ((d, free), inr (rest, ap (λ t. b ∷ t) split))
