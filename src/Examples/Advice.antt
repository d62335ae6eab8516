-- ===== src/Examples/Advice.antt =====
-- An advice on an overview, with a review. The hash of this example is the same for all texts.
use family_finance_os.Prelude.{
  ◌≡◌, refl, true, String, ℕ, zero, suc, [], ◌∷◌, Option, none, some, Result, ok,
}
use family_finance_os.Prelude.Int.{pos}
use family_finance_os.Analytics.Quality.{QualityLevel}
use family_finance_os.Advisor.{ModelRole, LlmRequest, LlmResponse, AdviceLevel, AdviceRequest}
use family_finance_os.Advisor.Tools.{Tool, Registry, new_registry}
use family_finance_os.Advisor.Policy.{Encoding}
use family_finance_os.Advisor.Service.{AdviceResult, Advisor, advise}

abbrev answer_of : ℕ → String → Result String
answer_of i arguments = ok "{\"total\":1}"

abbrev overview : Tool
overview = record {
  name = "get_overview";
  description = "overview";
  parameters = "{}";
  handler = some answer_of;
}

abbrev tools : Registry
tools = ("get_overview", overview) ∷ []

registered : new_registry (λ _. true) (some overview ∷ []) ≡ ok tools
unfolding new_registry
registered = refl

abbrev plain : Encoding
plain = record {
  json_valid = λ _. true;
  initial = λ e. some e.question;
  explanation = λ e. some e.question;
  review = λ e. some e.candidate_advice;
  request = λ r. some r.question;
}

abbrev reply : ℕ → LlmRequest → Option LlmResponse
reply zero _ = some (record {
  id = "1";
  text = "";
  tool_calls = record { id = "c"; name = "get_overview"; arguments = "{}" } ∷ [];
})
reply (suc zero) _ = some (record { id = "2"; text = " You have 1. "; tool_calls = [] })
reply (suc (suc n)) _ = some (record { id = "3"; text = "Supported."; tool_calls = [] })

abbrev advisor : Advisor
advisor = record {
  registry = tools;
  encoding = plain;
  respond = reply;
  sha256_hex = λ _. "0123456789abcdef0123456789abcdef0123456789abcdef0123456789abcdef";
  accepts = λ _. true;
  template_version = "finance-advisor-v1";
  now = pos 1;
}

abbrev question : AdviceRequest
question = record {
  question = "How much is there?";
  role = ModelRole.fast;
  data_quality = record {
    as_of = pos 1;
    ledger_synced_at = pos 1;
    unknown_amount = record { minor = pos 0; currency = "CNY" };
    level = AdviceLevel.level_of QualityLevel.good;
  };
  untrusted_data = [];
  require_tool = true;
  require_review = true;
}

abbrev advice : AdviceResult
advice = record {
  text = "You have 1.";
  review = "Supported.";
  reviewed = true;
  tool_results = record { name = "get_overview"; result = "{\"total\":1}" } ∷ [];
  block_reason = none;
}

advised : (advise advisor question []).0 ≡ ok advice
unfolding advise
advised = refl
