-- ===== src/Advisor/Answers.antt =====
-- internal/advisor/service.go: what an advice rests on, and its record.
use family_finance_os.Advisor.Service.{Advisor}
