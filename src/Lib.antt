-- ===== src/Lib.antt =====
-- Family Finance OS keeps the finances of a household: it reads accounts and transactions from an
-- external ledger, computes reports and plans from them, and serves them to the members of the
-- household. The calculations are pure functions on amounts in minor units; the rest stores
-- records in PostgreSQL and answers requests.
--
-- The modules and the code they model:
--
--   Prelude      The integers, Go's int64 with its wrap-around, texts, times in nanoseconds, maps as
--                association lists, and errors. An error is the sentinel that errors.Is finds; the
--                wrapping by fmt.Errorf is left out.
--   Money        pkg/money/money.go: `add` and `sub` are the methods Add and Sub.
--   Ledger       internal/ledger/models.go: the records of the ledger.
--   Analytics    internal/analytics: transactions as cashflow events (normalization.go), and with
--                Cashflow, NetWorth, Spending and Quality the file of the same name.
--   Debt         internal/debt: Decimal is decimal.go, Validation validation.go, Amortization
--                amortization.go, Simulator simulator.go and Strategy strategy.go. Month, Schedule,
--                Payoff, Order and Plan prove.
--   Goals        internal/goals/models.go and service.go.
--   Budget       internal/budget/safe_to_spend.go and emergency.go, and in Lines the figures of a
--                budget line of service.go and models.go.
--   Scenario     internal/scenario: models.go, helpers.go and service.go. Changes and Purchase prove.
--   Scheduler    internal/scheduler/postgres.go with db/queries/job_runs.sql, and scheduler.go in Jobs.
--                Claims and Claimed prove.
--   Advisor      internal/advisor, with internal/audit/advice.go (Audit) and the types of
--                internal/llm/provider.go: Tools is tools.go, Policy policy.go and Service service.go.
--                Recorded and Answers prove.
--   Portfolio    internal/portfolio/models.go and service.go, where the record Valuation is Holding, and
--                snapshot.go (Snapshot).
--   DataQuality  internal/dataquality/analyzer.go: the issues, and in Duplicates the groups of
--                duplicates and the report. Clean, Signatures and Groups
--                prove.
--   Throttle     internal/server/login_throttle.go: a call of a method is a step on the table.
--   Auth         internal/auth/role.go, and the tables of users, sessions, challenges and recovery
--                codes. Members is rbac_store.go and rbac_service.go; Sessions and Challenges are
--                postgres_store.go, Totp is totp.go, RecoveryCodes, Login and Identity are service.go,
--                and Maintenance maintenance.go. Requests are the requests to manage members one
--                after the other, Operations the calls of the store that the server makes. Owners,
--                Authenticated, Revocation, Evolution, Completions, Membership, Runs, SingleUse, Replay and
--                Challenged prove.
--   Household    internal/household: models.go, validation.go and, in Service, service.go with the
--                statements of db/queries/household.sql. Amounts and Histories prove.
--   Examples     The theorems at concrete inputs.
--
-- All but Throttle, Auth and Scheduler use Money; Analytics and DataQuality use Ledger; Goals,
-- Budget and Portfolio use the decimals of Debt; Scenario composes Analytics, Budget, Debt and
-- Goals.
--
-- Decimals are those of the package apd, which is not in the repository: `Debt.Decimal.Decimals` is
-- a record of its operations in the contexts that the code sets up, `Laws` what the theorems assume
-- of them (the range of a conversion to int64, and signs), `Debt.Order.CmpLaws` that a swapped
-- comparison has the opposite sign, and Examples.Decimals an instance with four places. Lower and
-- upper case, the length of a text in bytes, hashes, the box that seals secrets, HMAC and random
-- values are parameters too (`Auth.Login.Crypto`, `Random` and `Auth.Totp.TotpCodes`), and so are
-- the schedule of a job, which computes in a time zone, the households that a run may name, and for
-- an advice the answers of the language model, of the tools and of encoding/json
-- (`Advisor.Service.Advisor`, `Advisor.Policy.Encoding`).
--
-- The loop of a simulation counts months up to the term or to 1200: it is recursion on the months
-- left, which is the loop's own bound, so no fuel is added. The loop of the scheduler runs over the
-- turns of its timer until it is stopped. All other loops are recursion on lists.
--
-- A claim of a run is an error where the row violates a constraint of
-- db/migrations/00006_job_runs.sql, and the instants of its table are cut to microseconds, as
-- TIMESTAMPTZ stores them.
--
-- A method under a mutex, and a transaction or a statement of the database, are one step. The rows
-- of a table are found by their primary key, and its generated IDs are parameters: rows of
-- households are listed in the order in which they came. Not modelled are the network, the storage
-- of the other records, JSON and HTML, the client of the language model, the interface for agents,
-- and the start-up.
pub mod Prelude
pub mod Money
pub mod Ledger
pub mod Analytics
pub mod Debt
pub mod Budget
pub mod Scenario
pub mod Scheduler
pub mod Advisor
pub mod Goals
pub mod Household
pub mod Throttle
pub mod Auth
pub mod Examples
pub mod DataQuality
pub mod Portfolio
