-- ===== src/Advisor/Audit.antt =====
-- internal/audit/advice.go: the record that is kept of an advice.
use family_finance_os.Prelude.{
  Bool, true, false, not, ◌&&◌, ◌||◌, String, ℕ, leb, ◌==◌, List, [], ◌∷◌, Option, none, some,
  Result, ok, Error, ◌>>◌, return_if, if◌then◌else◌,
}
use family_finance_os.Prelude.Int.{ℤ, pos, ltb_ℤ}
use family_finance_os.Prelude.Time.{Time}
use family_finance_os.Prelude.Text.{str_eq, is_empty, trim_space, all_chars, char_count}
use family_finance_os.Advisor.{ModelRole}

pub data AdviceStatus : Type 0 where
  success blocked error : AdviceStatus

pub record ToolExecution : Type 0 where
  pub sequence : ℤ
  pub tool_name : String
  pub input_sha256 : String
  pub result_sha256 : String
  pub success : Bool
  pub error_code : String

pub record AdviceRecord : Type 0 where
  pub created_at : Time
  pub model_role : ModelRole
  pub reviewer_role : Option ModelRole
  pub data_as_of : Time
  pub prompt_template_version : String
  pub request_sha256 : String
  pub advice_sha256 : String
  pub quality_level : String
  pub status : AdviceStatus
  pub tools : List ToolExecution

-- The hash is a parameter.
unfoldable pub new_tool_execution :
    (String → String) → ℤ → String → String → String → String → ToolExecution
unfolding trim_space
new_tool_execution sha256_hex sequence tool_name input result error_code = record {
  sequence = sequence;
  tool_name = trim_space tool_name;
  input_sha256 = sha256_hex input;
  result_sha256 = if is_empty (trim_space error_code) then sha256_hex result else "";
  success = is_empty (trim_space error_code);
  error_code = trim_space error_code;
}

unfoldable pub new_failed_tool_execution :
    (String → String) → ℤ → String → String → String → ToolExecution
unfolding new_tool_execution
new_failed_tool_execution sha256_hex sequence tool_name input error_code =
    new_tool_execution sha256_hex sequence tool_name input "" error_code

abbrev pub is_hex : ℕ → Bool
is_hex c = (leb 48 c && leb c 57) || ((leb 97 c && leb c 102) || (leb 65 c && leb c 70))

unfoldable pub valid_sha256 : String → Bool
unfolding char_count all_chars
valid_sha256 value = char_count value == 64 && all_chars is_hex value

abbrev pub valid_model_role : ModelRole → Bool
valid_model_role (ModelRole.other_role _) = false
valid_model_role _ = true

abbrev pub valid_reviewer : Option ModelRole → Bool
valid_reviewer none = true
valid_reviewer (some ModelRole.reviewer) = true
valid_reviewer (some _) = false

abbrev pub valid_quality_level : String → Bool
valid_quality_level level =
    str_eq level "good"
    || (str_eq level "partial" || (str_eq level "stale" || str_eq level "unknown"))

unfoldable pub validate_execution : ToolExecution → Result (Unit {0})
unfolding valid_sha256 trim_space
validate_execution e = do
  return_if
      (ltb_ℤ e.sequence (pos 0)
        || (is_empty (trim_space e.tool_name) || not (valid_sha256 e.input_sha256)))
      Error.invalid_advice_audit
  return_if
      (if e.success
        then not (valid_sha256 e.result_sha256) || not (is_empty e.error_code)
        else not (is_empty e.result_sha256) || is_empty (trim_space e.error_code))
      Error.invalid_advice_audit

unfoldable pub validate_executions : List ToolExecution → Result (Unit {0})
unfolding validate_execution
validate_executions [] = ok tt
validate_executions (e ∷ es) = do validate_execution e; validate_executions es

-- The status of a record is one of the three in this model.
unfoldable pub validate_record : AdviceRecord → Result (Unit {0})
unfolding validate_executions trim_space valid_sha256
validate_record r = do
  return_if (is_empty (trim_space r.prompt_template_version)) Error.invalid_advice_audit
  return_if (not (valid_model_role r.model_role)) Error.invalid_advice_audit
  return_if (not (valid_reviewer r.reviewer_role)) Error.invalid_advice_audit
  return_if (not (valid_sha256 r.request_sha256) || not (valid_sha256 r.advice_sha256))
      Error.invalid_advice_audit
  return_if (not (valid_quality_level r.quality_level)) Error.invalid_advice_audit
  validate_executions r.tools
