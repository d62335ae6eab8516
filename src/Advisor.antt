-- ===== src/Advisor.antt =====
-- internal/advisor, internal/audit/advice.go and internal/llm/provider.go: advice from a language
-- model that may only explain what the tools answered, and the record that is kept of it. The
-- model, the tools and encoding/json are parameters.
pub mod Audit
pub mod Tools
pub mod Policy
pub mod Service
pub mod Recorded
pub mod Answers
use family_finance_os.Prelude.{String, List, Bool, Option}
use family_finance_os.Prelude.Int.{ℤ}
use family_finance_os.Prelude.Time.{Time}
use family_finance_os.Money.{Money}
use family_finance_os.Analytics.Quality.{QualityLevel}

pub data ModelRole : Type 0 where
  fast planner reviewer : ModelRole
  other_role : String → ModelRole

pub record ToolDefinition : Type 0 where
  pub name : String
  pub description : String
  pub parameters : String
  pub strict : Bool

pub record ToolCall : Type 0 where
  pub id : String
  pub name : String
  pub arguments : String

pub record LlmRequest : Type 0 where
  pub role : ModelRole
  pub instructions : String
  pub input : String
  pub tools : List ToolDefinition

pub record LlmResponse : Type 0 where
  pub id : String
  pub text : String
  pub tool_calls : List ToolCall

-- A level of the quality of data; it is an integer in the code, and zero if it was not set.
pub data AdviceLevel : Type 0 where
  unset : AdviceLevel
  level_of : QualityLevel → AdviceLevel
  out_of_range : ℤ → AdviceLevel

-- The quality of the data that an advice is about.
pub record AdviceQuality : Type 0 where
  pub as_of : Time
  pub ledger_synced_at : Time
  pub unknown_amount : Money
  pub level : AdviceLevel

pub record UntrustedDatum : Type 0 where
  pub source : String
  pub content : String

pub record ToolResult : Type 0 where
  pub name : String
  pub result : String

pub record AdviceRequest : Type 0 where
  pub question : String
  pub role : ModelRole
  pub data_quality : AdviceQuality
  pub untrusted_data : List UntrustedDatum
  pub require_tool : Bool
  pub require_review : Bool
