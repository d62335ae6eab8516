-- ===== src/Advisor/Tools.antt =====
-- internal/advisor/tools.go: the tools that are allowed, and the registry of those that are there.
use family_finance_os.Prelude.{
  Bool, true, false, not, ◌||◌, String, ℕ, List, [], ◌∷◌, Option, none, some, Result, ok, err,
  Error, ◌>>=◌, ◌>>◌, return_if, or_err, if◌then◌else◌,
}
use family_finance_os.Prelude.Text.{str_eq, is_empty}
use family_finance_os.Prelude.Eq.{Dict, lookup, insert, string_eq}
use family_finance_os.Prelude.Sort.{sort, str_less}
use family_finance_os.Advisor.{ToolDefinition}

abbrev pub allowed_tool_names : List String
allowed_tool_names =
    "get_overview" ∷ "get_cashflow" ∷ "get_budget_status" ∷ "get_debt_plan" ∷ "get_goal_status"
    ∷ "get_portfolio_allocation" ∷ "simulate_purchase" ∷ "simulate_debt_payment"
    ∷ "simulate_budget_change" ∷ "simulate_savings_change" ∷ "simulate_income_drop"
    ∷ "simulate_goal" ∷ []

unfoldable pub is_among : String → List String → Bool
is_among name [] = false
is_among name (x ∷ xs) = let rest = is_among name xs in if str_eq name x then true else rest

abbrev pub is_allowed : String → Bool
is_allowed name = is_among name allowed_tool_names

-- A typed tool. Its handler decodes the arguments, which are one JSON value without unknown fields,
-- computes and encodes its answer; the number is that of the call.
pub record Tool : Type 0 where
  pub name : String
  pub description : String
  pub parameters : String
  pub handler : Option (ℕ → String → Result String)

abbrev pub has_handler : Option (ℕ → String → Result String) → Bool
has_handler none = false
has_handler (some _) = true

abbrev pub definition : Tool → ToolDefinition
definition t = record {
  name = t.name;
  description = t.description;
  parameters = t.parameters;
  strict = true;
}

abbrev pub Registry : Type 0
Registry = Dict String Tool

abbrev pub is_registered : Option Tool → Bool
is_registered none = false
is_registered (some _) = true

module _ (json_valid : String → Bool) where
  unfoldable pub valid_tool : Tool → Result (Unit {0})
  unfolding is_among
  valid_tool t = do
    return_if (not (is_allowed t.name)) Error.tool_not_allowed
    return_if
        (not (has_handler t.handler) || (is_empty t.parameters || not (json_valid t.parameters)))
        Error.invalid_tool_definition

  abbrev pub checked : Option Tool → Result Tool
  checked none = err Error.invalid_tool_definition
  checked (some t) = valid_tool t >> ok t

  unfoldable pub register : List (Option Tool) → Registry → Result Registry
  unfolding valid_tool
  register [] r = ok r
  register (tool ∷ tools) r = do
    t ← checked tool
    return_if (is_registered (lookup t.name r)) Error.duplicate_tool
    register tools (insert t.name t r)

  unfoldable pub new_registry : List (Option Tool) → Result Registry
  unfolding register
  new_registry tools = register tools []

abbrev pub handle : Option (ℕ → String → Result String) → ℕ → String → Result String
handle none i arguments = err Error.invalid_tool_definition
handle (some handler) i arguments = handler i arguments

unfoldable pub invoke_tool : Tool → ℕ → String → Result String
invoke_tool t i arguments = do
  return_if (is_empty arguments) Error.invalid_tool_input
  handle t.handler i arguments

unfoldable pub invoke : Registry → ℕ → String → String → Result String
unfolding invoke_tool
invoke r i name arguments = do
  t ← or_err Error.tool_not_found (lookup name r)
  invoke_tool t i arguments

abbrev pub names_of : Registry → List String
names_of [] = []
names_of ((name, t) ∷ r) = name ∷ names_of r

abbrev pub definition_of : Option Tool → List ToolDefinition → List ToolDefinition
definition_of none ds = ds
definition_of (some t) ds = definition t ∷ ds

abbrev pub definitions_of : Registry → List String → List ToolDefinition
definitions_of r [] = []
definitions_of r (name ∷ names) = definition_of (lookup name r) (definitions_of r names)

abbrev pub definitions : Registry → List ToolDefinition
definitions r = definitions_of r (sort str_less (names_of r))
