-- ===== src/Advisor/Service.antt =====
-- internal/advisor/service.go: an advice, from the question to the record of the audit.
use family_finance_os.Prelude.{
  Bool, true, false, not, String, ℕ, suc, List, [], ◌∷◌, ◌++◌, Option, none, some, Result, ok, err,
  Error, ◌>>=◌, ◌>>◌, return_if, or_err, if◌then◌else◌,
}
use family_finance_os.Prelude.Int.{pos}
use family_finance_os.Prelude.Time.{Time}
use family_finance_os.Prelude.Text.{is_empty, trim_space, append}
use family_finance_os.Analytics.Quality.{QualityLevel}
use family_finance_os.Advisor.{
  ModelRole, ToolCall, LlmRequest, LlmResponse, AdviceLevel, AdviceQuality, ToolResult,
  AdviceRequest,
}
use family_finance_os.Advisor.Audit.{
  AdviceStatus, ToolExecution, AdviceRecord, new_tool_execution, new_failed_tool_execution,
  validate_record,
}
use family_finance_os.Advisor.Tools.{Registry, invoke, definitions}
use family_finance_os.Advisor.Policy.{
  Encoding, quality_notice, initial_request, explanation_request, review_request,
}

pub data BlockReason : Type 0 where
  required_tool_not_called tool_execution_failed unexpected_tool_call : BlockReason

pub record AdviceResult : Type 0 where
  pub text : String
  pub review : String
  pub reviewed : Bool
  pub tool_results : List ToolResult
  pub block_reason : Option BlockReason  -- none if it is not blocked

abbrev pub AuditLog : Type 0
AuditLog = List AdviceRecord

-- An answer, and the log after it.
abbrev pub Advised : Type 0
Advised = Result AdviceResult × AuditLog

abbrev pub reason_text : BlockReason → String
reason_text BlockReason.required_tool_not_called = "required_tool_not_called"
reason_text BlockReason.tool_execution_failed = "tool_execution_failed"
reason_text BlockReason.unexpected_tool_call = "unexpected_tool_call"

abbrev pub blocked_by : BlockReason → List ToolResult → AdviceResult
blocked_by reason results = record {
  text = "";
  review = "";
  reviewed = false;
  tool_results = results;
  block_reason = some reason;
}

unfoldable pub quality_level_string : AdviceQuality → String
quality_level_string q = elim q.level [
  | AdviceLevel.level_of level ↦ elim level [
    | QualityLevel.good ↦ "good"
    | QualityLevel.partial ↦ "partial"
    | QualityLevel.stale ↦ "stale"
  ]
  | _ ↦ "unknown"
]

unfoldable pub prefix_quality_notice : String → String → String
unfolding trim_space append
prefix_quality_notice notice text =
    if is_empty (trim_space notice)
    then trim_space text
    else if is_empty (trim_space text)
    then trim_space notice
    else append (trim_space notice) (append "\n\n" (trim_space text))

-- The model: the answer to the nth request of an advice.
pub record Advisor : Type 0 where
  pub registry : Registry
  pub encoding : Encoding
  pub respond : ℕ → LlmRequest → Option LlmResponse
  pub sha256_hex : String → String
  pub accepts : AdviceRecord → Bool  -- whether the recorder stores a record
  pub template_version : String
  pub now : Time

-- What the tools have answered so far: the results, and the executions for the audit. A failure of
-- a tool ends the loop.
pub data Outcome : Type 0 where
  answered : List ToolResult → List ToolExecution → Outcome
  failed : List ToolExecution → Outcome

module _ (A : Advisor) where
  open A use {registry, encoding, respond, sha256_hex, accepts, template_version, now}

  abbrev pub hash_advice_result : AdviceResult → String
  hash_advice_result r = elim r.block_reason [
    | none ↦ sha256_hex (append r.text (append "\nreview:" r.review))
    | some reason ↦ sha256_hex (append "blocked:" (reason_text reason))
  ]

  abbrev pub record_of :
      AdviceRequest → String → String → AdviceStatus → List ToolExecution → Bool → AdviceRecord
  record_of request request_hash advice_hash status tools reviewed = record {
    created_at = now;
    model_role = request.role;
    reviewer_role = if reviewed then some ModelRole.reviewer else none;
    data_as_of = request.data_quality.as_of;
    prompt_template_version = template_version;
    request_sha256 = request_hash;
    advice_sha256 = advice_hash;
    quality_level = quality_level_string request.data_quality;
    status = status;
    tools = tools;
  }

  unfoldable pub record_with_advice_hash :
      AdviceRequest
      → String
      → String
      → AdviceStatus
      → List ToolExecution
      → Bool
      → AuditLog
      → Result AuditLog
  unfolding validate_record quality_level_string
  record_with_advice_hash request request_hash advice_hash status tools reviewed log = do
    validate_record (record_of request request_hash advice_hash status tools reviewed)
    return_if (not (accepts (record_of request request_hash advice_hash status tools reviewed)))
        Error.record_failed
    ok (record_of request request_hash advice_hash status tools reviewed ∷ log)

  -- `if err := s.record(...); err != nil { return AdviceResult{}, err }; return result, nil`
  abbrev pub after_record : AdviceResult → AuditLog → Result AuditLog → Advised
  after_record result log (err e) = (err e, log)
  after_record result log (ok log') = (ok result, log')

  unfoldable pub record_result :
      AdviceRequest → String → AdviceStatus → List ToolExecution → AuditLog → AdviceResult → Advised
  unfolding record_with_advice_hash append
  record_result request request_hash status tools log result = after_record result log (
      record_with_advice_hash request request_hash (hash_advice_result result) status tools
        result.reviewed log)

  -- `finishError`: the cause, if the audit took its record.
  abbrev pub after_error : Error → AuditLog → Result AuditLog → Advised
  after_error cause log (err e) = (err e, log)
  after_error cause log (ok log') = (err cause, log')

  unfoldable pub finish_error :
      AdviceRequest → String → List ToolExecution → Bool → String → Error → AuditLog → Advised
  unfolding record_with_advice_hash
  finish_error request request_hash tools reviewer_attempted error_code cause log =
      after_error cause log (
        record_with_advice_hash request request_hash (sha256_hex error_code) AdviceStatus.error
          tools reviewer_attempted log)

  abbrev pub no_calls : LlmResponse → Bool
  no_calls response = elim response.tool_calls [ [] ↦ true | _ ∷ _ ↦ false ]

  unfoldable pub apply_review :
      ℕ → AdviceRequest → List ToolResult → AdviceResult → Result AdviceResult
  unfolding review_request trim_space
  apply_review n request results result = do
    return_if (is_empty (trim_space result.text)) Error.advisor_response
    review_request' ← review_request encoding request (trim_space result.text) results
    response ← or_err Error.provider_failed (respond n review_request')
    return_if (not (no_calls response)) Error.advisor_response
    return_if (is_empty (trim_space response.text)) Error.advisor_response
    ok (record result { reviewed = true; review = trim_space response.text })

  abbrev pub reviewed_if : ℕ → AdviceRequest → List ToolResult → AdviceResult → Result AdviceResult
  reviewed_if n request results result =
      let reviewed = apply_review n request results result in
      if request.require_review then reviewed else ok result

  -- The record of a success, or of a review that failed.
  abbrev pub conclude :
      AdviceRequest → String → List ToolExecution → AuditLog → Result AdviceResult → Advised
  conclude request request_hash tools log (err e) =
      finish_error request request_hash tools true "review_failed" e log
  conclude request request_hash tools log (ok result) =
      record_result request request_hash AdviceStatus.success tools log result

  abbrev pub advice_of : AdviceRequest → String → List ToolResult → AdviceResult
  advice_of request candidate results = record {
    text = prefix_quality_notice (quality_notice request.data_quality) candidate;
    review = "";
    reviewed = false;
    tool_results = results;
    block_reason = none;
  }

  -- The model called no tool.
  unfoldable pub answer_directly : AdviceRequest → String → AuditLog → LlmResponse → Advised
  unfolding trim_space quality_notice prefix_quality_notice apply_review record_result finish_error
  answer_directly request request_hash log response =
      if request.require_tool
      then record_result request request_hash AdviceStatus.blocked [] log
          (blocked_by BlockReason.required_tool_not_called [])
      else if is_empty (trim_space response.text)
      then finish_error request request_hash [] false "provider_empty_response"
          Error.advisor_response log
      else conclude request request_hash [] log
          (reviewed_if 1 request [] (advice_of request (trim_space response.text) []))

  -- The loop over the tool calls, from the ith on.
  abbrev pub next_call :
      ℕ
      → ToolCall
      → Result String
      → (List ToolResult → List ToolExecution → Outcome)
      → List ToolResult
      → List ToolExecution
      → Outcome
  next_call i call (err e) next results executions = failed (
      executions
      ++ new_failed_tool_execution sha256_hex (pos i) call.name call.arguments
          "tool_execution_failed"
        ∷ [])
  next_call i call (ok output) next results executions =
      next (results ++ record { name = call.name; result = output } ∷ []) (
        executions ++ new_tool_execution sha256_hex (pos i) call.name call.arguments output "" ∷ [])

  unfoldable pub call_tools : ℕ → List ToolCall → List ToolResult → List ToolExecution → Outcome
  unfolding invoke new_tool_execution new_failed_tool_execution
  call_tools i [] results executions = answered results executions
  call_tools i (call ∷ calls) results executions =
      next_call i call (invoke registry i call.name call.arguments) (call_tools (suc i) calls)
        results executions

  -- The explanation of the tools' answers.
  unfoldable pub explain :
      AdviceRequest
      → String
      → List ToolResult
      → List ToolExecution
      → AuditLog
      → LlmResponse
      → Advised
  unfolding trim_space quality_notice prefix_quality_notice apply_review record_result finish_error
  explain request request_hash results executions log response =
      if not (no_calls response)
      then record_result request request_hash AdviceStatus.blocked executions log
          (blocked_by BlockReason.unexpected_tool_call results)
      else if is_empty (trim_space response.text)
      then finish_error request request_hash executions false "provider_empty_explanation"
          Error.advisor_response log
      else conclude request request_hash executions log
          (reviewed_if 2 request results (advice_of request (trim_space response.text) results))

  abbrev pub respond_to : ℕ → Error → LlmRequest → Result LlmResponse
  respond_to n e request = or_err e (respond n request)

  abbrev pub after_explanation :
      AdviceRequest
      → String
      → List ToolResult
      → List ToolExecution
      → AuditLog
      → Result LlmResponse
      → Advised
  after_explanation request request_hash results executions log (err e) =
      finish_error request request_hash executions false "provider_explanation_failed" e log
  after_explanation request request_hash results executions log (ok response) =
      explain request request_hash results executions log response

  abbrev pub ask_explanation :
      AdviceRequest
      → String
      → List ToolResult
      → List ToolExecution
      → AuditLog
      → Result LlmRequest
      → Advised
  ask_explanation request request_hash results executions log (err e) =
      finish_error request request_hash executions false "explanation_policy_failed" e log
  ask_explanation request request_hash results executions log (ok explanation) =
      after_explanation request request_hash results executions log
        (respond_to 1 Error.provider_failed explanation)

  unfoldable pub after_tools : AdviceRequest → String → AuditLog → Outcome → Advised
  unfolding explain record_result finish_error explanation_request
  after_tools request request_hash log (failed executions) =
      record_result request request_hash AdviceStatus.blocked executions log
        (blocked_by BlockReason.tool_execution_failed [])
  after_tools request request_hash log (answered results executions) =
      ask_explanation request request_hash results executions log
        (explanation_request encoding request results)

  abbrev pub after_initial : AdviceRequest → String → AuditLog → Result LlmResponse → Advised
  after_initial request request_hash log (err e) =
      finish_error request request_hash [] false "provider_initial_failed" e log
  after_initial request request_hash log (ok response) =
      if no_calls response
      then answer_directly request request_hash log response
      else after_tools request request_hash log (call_tools 0 response.tool_calls [] [])

  -- The request and the hash of the advice request, before the model is asked.
  abbrev pub prepared : AdviceRequest → Result (LlmRequest × String)
  prepared request = do
    initial ← initial_request encoding request (definitions registry)
    encoded ← or_err Error.encoding (encoding.request request)
    ok (initial, sha256_hex encoded)

  abbrev pub advise_prepared : AdviceRequest → AuditLog → Result (LlmRequest × String) → Advised
  advise_prepared request log (err e) = (err e, log)
  advise_prepared request log (ok (initial, request_hash)) =
      after_initial request request_hash log (respond_to 0 Error.provider_failed initial)

  unfoldable pub advise : AdviceRequest → AuditLog → Advised
  unfolding initial_request answer_directly call_tools after_tools finish_error
  advise request log = advise_prepared request log (prepared request)
