-- ===== src/Advisor/Recorded.antt =====
-- internal/advisor/service.go: the records that the audit keeps of answers and errors.
use family_finance_os.Prelude.{
  ◌≡◌, ◌⊎◌, inl, inr, refl, sym, ap, arith, Bool, true, false, not, String, ℕ, List, ◌∷◌, Option,
  none, some, Result, ok, err, Error, return_if, or_err, or_err-ok, return_if_ok, bind_ok,
  ok-injective, Bool-cases, All,
}
use mathlib.Core.Path.{subst}
use family_finance_os.Prelude.Text.{is_empty, trim_space}
use family_finance_os.Advisor.{ToolResult, AdviceRequest, LlmRequest, LlmResponse}
use family_finance_os.Advisor.Audit.{AdviceStatus, ToolExecution, AdviceRecord, validate_record}
use family_finance_os.Advisor.Tools.{is_allowed}
use family_finance_os.Advisor.Policy.{no_results, review_request}
use family_finance_os.Advisor.Service.{
  AdviceResult, BlockReason, AuditLog, Advised, Advisor, hash_advice_result, record_of,
  record_with_advice_hash, after_record, record_result, after_error, finish_error, no_calls,
  apply_review, reviewed_if, conclude,
}

abbrev pub status_by : Option BlockReason → AdviceStatus
status_by none = AdviceStatus.success
status_by (some _) = AdviceStatus.blocked

abbrev pub status_of : AdviceResult → AdviceStatus
status_of r = status_by r.block_reason

abbrev pub IsAllowed : ToolResult → Type 0
IsAllowed r = is_allowed r.name ≡ true

pub from_not : (b : Bool) → not b ≡ false → b ≡ true
from_not b h = ground arith

module _ (A : Advisor) where
  open A use {encoding, respond, accepts}

  -- The answer of a model that was asked to review a text with results, without calling a tool.
  pub record IsReview (request : AdviceRequest) (results : List ToolResult) (text review : String)
      : Type 0 where
    pub turn : ℕ
    pub asked : LlmRequest
    pub response : LlmResponse
    pub asks : review_request encoding request (trim_space text) results ≡ ok asked
    pub answers : respond turn asked ≡ some response
    pub calls_none : no_calls A response ≡ true
    pub not_blank : is_empty (trim_space response.text) ≡ false
    pub review_is : review ≡ trim_space response.text

  -- What an advice that is not blocked rests on.
  pub record Grounded (request : AdviceRequest) (r : AdviceResult) : Type 0 where
    pub tools_called : request.require_tool ≡ true → no_results r.tool_results ≡ false
    pub tools_allowed : All IsAllowed r.tool_results
    pub reviewed : r.reviewed ≡ request.require_review
    pub review : request.require_review ≡ true → IsReview request r.tool_results r.text r.review
    pub no_review : request.require_review ≡ false → r.review ≡ ""

  abbrev pub WhenGiven : AdviceRequest → AdviceResult → Type 0
  WhenGiven request r = r.block_reason ≡ none → Grounded request r

  -- An answer adds one record with its hash and status; an error adds one with the status of an
  -- error, or none.
  abbrev pub Sound : AdviceRequest → AuditLog → Advised → Type 0
  Sound request log (ok r, log') =
      (rec : AdviceRecord) × (log' ≡ rec ∷ log)
      × (rec.advice_sha256 ≡ hash_advice_result A r)
      × (rec.status ≡ status_of r)
      × WhenGiven request r
  Sound request log (err e, log') =
      (log' ≡ log) ⊎ ((rec : AdviceRecord) × (log' ≡ rec ∷ log) × (rec.status ≡ AdviceStatus.error))

  recorded :
      (request : AdviceRequest) (h a : String) (status : AdviceStatus) (tools : List ToolExecution)
      (reviewed : Bool) (log log' : AuditLog)
      → record_with_advice_hash A request h a status tools reviewed log ≡ ok log'
      → log' ≡ record_of A request h a status tools reviewed ∷ log
  unfolding record_with_advice_hash
  recorded request h a status tools reviewed log log' q =
      bind_ok (validate_record (record_of A request h a status tools reviewed)) _ q λ _ _ q1.
        bind_ok
          (return_if (not (accepts (record_of A request h a status tools reviewed)))
            Error.record_failed)
          _ q1 λ _ _ q2. sym (ok-injective q2)

  after_record-Sound :
      (request : AdviceRequest) (result : AdviceResult) (log : AuditLog) (rec : AdviceRecord)
      (r : Result AuditLog)
      → ((log' : AuditLog) → r ≡ ok log' → log' ≡ rec ∷ log)
      → rec.advice_sha256 ≡ hash_advice_result A result
      → rec.status ≡ status_of result
      → WhenGiven request result
      → Sound request log (after_record A result log r)
  after_record-Sound request result log rec (err e) f h s g = inl refl
  after_record-Sound request result log rec (ok log') f h s g = (rec, f log' refl, h, s, g)

  pub record_result-Sound :
      (request : AdviceRequest) (h : String) (status : AdviceStatus) (tools : List ToolExecution)
      (log : AuditLog) (result : AdviceResult)
      → status ≡ status_of result
      → WhenGiven request result
      → Sound request log (record_result A request h status tools log result)
  unfolding record_result
  record_result-Sound request h status tools log result s g =
      after_record-Sound request result log
        (record_of A request h (hash_advice_result A result) status tools result.reviewed)
        (record_with_advice_hash A request h (hash_advice_result A result) status tools
          result.reviewed log)
        (λ log' q.
          recorded request h (hash_advice_result A result) status tools result.reviewed log log' q)
        refl s g

  after_error-Sound :
      (request : AdviceRequest) (cause : Error) (log : AuditLog) (rec : AdviceRecord)
      (r : Result AuditLog)
      → ((log' : AuditLog) → r ≡ ok log' → log' ≡ rec ∷ log)
      → rec.status ≡ AdviceStatus.error
      → Sound request log (after_error A cause log r)
  after_error-Sound request cause log rec (err e) f s = inl refl
  after_error-Sound request cause log rec (ok log') f s = inr (rec, f log' refl, s)

  pub finish_error-Sound :
      (request : AdviceRequest) (h : String) (tools : List ToolExecution) (attempted : Bool)
      (code : String) (cause : Error) (log : AuditLog)
      → Sound request log (finish_error A request h tools attempted code cause log)
  unfolding finish_error
  finish_error-Sound request h tools attempted code cause log =
      after_error-Sound request cause log _
        (record_with_advice_hash A request h (A.sha256_hex code) AdviceStatus.error tools attempted
          log)
        (λ log' q.
          recorded request h (A.sha256_hex code) AdviceStatus.error tools attempted log log' q)
        refl

  -- A review adds its text only.
  abbrev pub Reviewed : AdviceRequest → AdviceResult → AdviceResult → Type 0
  Reviewed request result x =
      (x.tool_results ≡ result.tool_results)
      × (x.block_reason ≡ result.block_reason)
      × (x.reviewed ≡ request.require_review)
      × (request.require_review ≡ true → IsReview request result.tool_results x.text x.review)
      × (request.require_review ≡ false → x.review ≡ "")

  apply_review-Reviewed :
      (n : ℕ) (request : AdviceRequest) (results : List ToolResult) (result x : AdviceResult)
      → request.require_review ≡ true
      → result.tool_results ≡ results
      → apply_review A n request results result ≡ ok x
      → Reviewed request result x
  unfolding apply_review
  apply_review-Reviewed n request results result x wanted same q =
      bind_ok (return_if (is_empty (trim_space result.text)) Error.advisor_response) _ q λ _ _ q1.
        bind_ok (review_request encoding request (trim_space result.text) results) _ q1
          λ asked a q2.
            bind_ok (or_err Error.provider_failed (respond n asked)) _ q2 λ response b q3.
              bind_ok (return_if (not (no_calls A response)) Error.advisor_response) _ q3 λ u c q4.
                bind_ok (return_if (is_empty (trim_space response.text)) Error.advisor_response) _
                  q4
                  λ v d q5.
                    subst (λ (y : AdviceResult). Reviewed request result y) (ok-injective q5)
                      (
                        refl,
                        refl,
                        sym wanted,
                        λ _. record {
                          turn = n;
                          asked = asked;
                          response = response;
                          asks = rw same a;
                          answers = or_err-ok Error.provider_failed (respond n asked) response b;
                          calls_none =
                              from_not (no_calls A response)
                                (return_if_ok _ Error.advisor_response u c);
                          not_blank = return_if_ok _ Error.advisor_response v d;
                          review_is = refl;
                        },
                        λ unwanted. absurd (cc (wanted, unwanted)),
                      )

  pub reviewed_if-Reviewed :
      (n : ℕ) (request : AdviceRequest) (results : List ToolResult) (result x : AdviceResult)
      → result.reviewed ≡ false
      → result.review ≡ ""
      → result.tool_results ≡ results
      → reviewed_if A n request results result ≡ ok x
      → Reviewed request result x
  unfolding apply_review
  reviewed_if-Reviewed n request results result x fresh empty from q =
      elim (Bool-cases request.require_review) [
        | inl wanted ↦ apply_review-Reviewed n request results result x wanted from (rw wanted at q)
        | inr unwanted ↦
            let same = ok-injective (rw unwanted at q) in
            subst (λ (y : AdviceResult). Reviewed request result y) same
              (
                refl,
                refl,
                rw (fresh, unwanted),
                λ wanted. absurd (cc (wanted, unwanted)),
                λ _. empty,
              )
      ]

  pub conclude-Sound :
      (request : AdviceRequest) (h : String) (tools : List ToolExecution) (log : AuditLog)
      (r : Result AdviceResult)
      → ((x : AdviceResult) → r ≡ ok x → (x.block_reason ≡ none) × Grounded request x)
      → Sound request log (conclude A request h tools log r)
  conclude-Sound request h tools log (err e) f =
      finish_error-Sound request h tools true "review_failed" e log
  conclude-Sound request h tools log (ok x) f =
      record_result-Sound request h AdviceStatus.success tools log x
        (sym (ap status_by (f x refl).0)) (λ _. (f x refl).1)
