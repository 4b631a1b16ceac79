-- ===== src/Errors/Wire.antt =====
-- An error that crosses the wire: what `to_dict` writes and `error_from_payload` reads.
use istos.Prelude.{
  ◌≡◌, refl, inl, inr, true, false, none, some, String, if◌then◌else◌, subst, sym, ap, ◌∙◌,
  text_key, number_key, ◌==◌, Bool-cases,
}
use istos.Json.{Json, null, boolean, number, text, array, object, find, get_or, truthy}
use istos.Errors.{
  IstosError, reply_decode, not_found, unauthorized, forbidden, conflict, rate_limit, new_error,
  construct, code_to_error, code_to_status, application, by_status, is_retryable, ErrorResponse,
  with_details, to_dict, by_marker, is_error_payload, plain, rebuild, error_from_payload,
  from_istos_error,
}

details-back : (d : Json) → get_or "details" null (with_details d) ≡ d
unfolding get_or find with_details
details-back null = refl
details-back (boolean b) = refl
details-back (number z) = refl
details-back (text s) = refl
details-back (array l) = refl
details-back (object o) = refl

no_correlation : (d : Json) → get_or "correlation_id" null (with_details d) ≡ null
unfolding get_or find with_details
no_correlation null = refl
no_correlation (boolean b) = refl
no_correlation (number z) = refl
no_correlation (text s) = refl
no_correlation (array l) = refl
no_correlation (object o) = refl

-- What the reader makes of a payload that `to_dict` wrote.
error_from_payload-to_dict :
    (r : ErrorResponse) (default_code : String)
    → (is_error_payload (object (to_dict r)) ≡ true)
      × (error_from_payload (to_dict r) default_code
          ≡ rebuild r.code r.message r.details
              (if truthy r.correlation_id then r.correlation_id else null))
unfolding to_dict is_error_payload by_marker error_from_payload get_or find
error_from_payload-to_dict r default_code = elim (Bool-cases (truthy r.correlation_id)) [
  | inl e ↦ (refl, rw (e, details-back r.details) refl)
  | inr e ↦ (refl, rw (e, details-back r.details, no_correlation r.details) refl)
]

-- The error of a code has the code and its status, and no rule of its own for a retry.
abbrev pub IsOf : String → Json → Json → Json → IstosError → Type 0
IsOf s m d c b =
    (b.code ≡ text s)
    × (b.status ≡ code_to_status s)
    × (b.retryable ≡ none)
    × (b.message ≡ m)
    × (b.details ≡ d)
    × (b.correlation_id ≡ c)

abbrev Rebuilt : Json → Json → Json → IstosError → String → Type 0
Rebuilt m d c b s = (rebuild (text s) m d c ≡ some b) × IsOf s m d c b

by_code :
    (s code : String) (m d c : Json) (b : IstosError)
    → (s == code) ≡ true
    → Rebuilt m d c b code
    → Rebuilt m d c b s
by_code s code m d c b same = subst (Rebuilt m d c b) (sym ((text_key.same_iff s code).0 same))

no_class :
    (s : String)
    → (s == "not_found") ≡ false
    → (s == "unauthorized") ≡ false
    → (s == "forbidden") ≡ false
    → (s == "conflict") ≡ false
    → (s == "rate_limit_exceeded") ≡ false
    → code_to_error s ≡ none
unfolding code_to_error
no_class s e f g h k = rw (e, f, g, h, k) refl

rebuild-plain :
    (s : String) (m d c : Json)
    → code_to_error s ≡ none
    → Rebuilt m d c (plain (text s) (code_to_status s) m d c) s
unfolding rebuild plain
rebuild-plain s m d c h = (rw (rebuild, h) refl, (refl, refl, refl, refl, refl, refl))

rebuild-IsOf : (s : String) (m d c : Json) → (b : IstosError) × Rebuilt m d c b s
unfolding rebuild construct new_error plain code_to_error code_to_status
rebuild-IsOf s m d c = elim (Bool-cases (s == "not_found")) [
  | inl e ↦ (
    construct not_found m d c,
    by_code s "not_found" m d c _ e (refl, (refl, refl, refl, refl, refl, refl)),
  )
  | inr e ↦ elim (Bool-cases (s == "unauthorized")) [
    | inl f ↦ (
      construct unauthorized m d c,
      by_code s "unauthorized" m d c _ f (refl, (refl, refl, refl, refl, refl, refl)),
    )
    | inr f ↦ elim (Bool-cases (s == "forbidden")) [
      | inl g ↦ (
        construct forbidden m d c,
        by_code s "forbidden" m d c _ g (refl, (refl, refl, refl, refl, refl, refl)),
      )
      | inr g ↦ elim (Bool-cases (s == "conflict")) [
        | inl h ↦ (
          construct conflict m d c,
          by_code s "conflict" m d c _ h (refl, (refl, refl, refl, refl, refl, refl)),
        )
        | inr h ↦ elim (Bool-cases (s == "rate_limit_exceeded")) [
          | inl k ↦ (
            construct rate_limit m d c,
            by_code s "rate_limit_exceeded" m d c _ k (refl, (refl, refl, refl, refl, refl, refl)),
          )
          | inr k ↦ (
            plain (text s) (code_to_status s) m d c,
            rebuild-plain s m d c (no_class s e f g h k),
          )
        ]
      ]
    ]
  ]
]

-- The payload of an error response counts as one, and if the code is a text, the reader makes an error
-- of it that has this code, the status of the code, the message and the details of the response, its
-- correlation id unless that counts as false, and no rule of its own for a retry.
pub error_response_crosses :
    (r : ErrorResponse) (s default_code : String)
    → r.code ≡ text s
    → (is_error_payload (object (to_dict r)) ≡ true)
      × (b : IstosError) × (error_from_payload (to_dict r) default_code ≡ some b)
      × IsOf s r.message r.details (if truthy r.correlation_id then r.correlation_id else null) b
error_response_crosses r s default_code code =
    let c = if truthy r.correlation_id then r.correlation_id else null in
    let (b, (made, same)) = rebuild-IsOf s r.message r.details c in
    let (marked, wire) = error_from_payload-to_dict r default_code in
    (marked, b, wire ∙ ap (λ (j : Json). rebuild j r.message r.details c) code ∙ made, same)

same_rule :
    (a b : IstosError)
    → a.retryable ≡ none
    → b.retryable ≡ none
    → a.status ≡ b.status
    → is_retryable (application a) ≡ is_retryable (application b)
unfolding is_retryable
same_rule a b p q status = rw (is_retryable, p, q, status) refl

-- An error whose status is that of its code, and whose class sets no rule for a retry, comes back
-- from the responder's default handler with its code, status, message and details, and is to be
-- retried on the caller's side exactly when it was on the responder's.
pub retry_rule_crosses :
    (e : IstosError) (s default_code : String)
    → e.code ≡ text s
    → e.status ≡ code_to_status s
    → e.retryable ≡ none
    → (b : IstosError) × (error_from_payload (to_dict (from_istos_error e)) default_code ≡ some b)
      × (b.code ≡ e.code)
      × (b.status ≡ e.status)
      × (b.message ≡ e.message)
      × (b.details ≡ e.details)
      × (is_retryable (application b) ≡ is_retryable (application e))
unfolding from_istos_error is_retryable truthy
retry_rule_crosses e s default_code code status rule =
    let (b, (made, same)) = rebuild-IsOf s e.message e.details null in
    let wire = (error_from_payload-to_dict (from_istos_error e) default_code).1 in
    (
      b,
      wire ∙ ap (λ (j : Json). rebuild j e.message e.details null) code ∙ made,
      same.0 ∙ sym code,
      same.1 ∙ sym status,
      same.3,
      same.4,
      same_rule b e same.2 rule (same.1 ∙ sym status),
    )

-- A reply that could not be decoded is not to be retried, but once a responder has passed that
-- error on, the caller is told to retry.
pub decode_error_crosses :
    (m d c : Json) (default_code : String)
    → let e = construct reply_decode m d c in
      (is_retryable (application e) ≡ false)
      × ((b : IstosError) × (error_from_payload (to_dict (from_istos_error e)) default_code
            ≡ some b)
          × (is_retryable (application b) ≡ true))
unfolding from_istos_error is_retryable truthy construct new_error rebuild plain code_to_error
    code_to_status by_status
decode_error_crosses m d c default_code =
    let wire =
      (error_from_payload-to_dict (from_istos_error (construct reply_decode m d c))
        default_code).1 in
    (refl, (plain (text "decode_error") 500 m d null, wire, refl))
