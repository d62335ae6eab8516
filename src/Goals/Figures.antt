-- ===== src/Goals/Figures.antt =====
-- service.go: the months, the required payment and the gap that a projection shows.
use family_finance_os.Prelude.{
  ◌≡◌, String, refl, sym, ◌∙◌, arith, ℕ, ◌+◌, ◌*◌, ◌≤◌, ◌<◌, ok, if◌then◌else◌, Bool-cases, inl,
  inr, bind_ok, ok-injective,
}
use mathlib.Core.Path.{subst}
use family_finance_os.Prelude.Int.{ℤ, pos, int_laws, ◌+ℤ◌, ◌-ℤ◌, ltb_ℤ, leb_ℤ}
use family_finance_os.Money.{Money, zero_money, add, sub}
use family_finance_os.Money.Exact.{add-Gives, sub-Gives}
use family_finance_os.Goals.{
  FinancialGoal, GoalProjection, GoalStatus, judge, multiply_money, project_open, required_minor,
}
use family_finance_os.Goals.Required.{required_minor_least, multiply_money-pos}
use family_finance_os.Goals.Meaning.{IsFactual}

-- What is missing at the target date, or nothing.
abbrev pub missing : ℤ → ℤ
missing z = if ltb_ℤ z (pos 0) then pos 0 else z

-- With months left: the required payment is the least that closes the gap to the target in them, and
-- the gap at the target date is what the contributions leave of it.
abbrev pub OpenFigures : FinancialGoal → GoalProjection → Type 0
OpenFigures goal p =
    (months required gap contribution : ℕ) × (p.months_remaining ≡ pos months)
    × (0 < months)
    × (goal.target.minor ≡ goal.funded.minor +ℤ pos gap)
    × (goal.monthly_contribution.minor ≡ pos contribution)
    × (p.required_monthly.minor ≡ pos required)
    × (gap ≤ required * months)
    × ((s : ℕ) → gap ≤ s * months → required ≤ s)
    × (p.projected_funded.minor ≡ goal.funded.minor +ℤ pos (contribution * months))
    × (p.gap_at_target.minor ≡ missing (goal.target.minor -ℤ p.projected_funded.minor))

-- What a projection shows for each status.
abbrev pub Figures : GoalStatus → FinancialGoal → GoalProjection → Type 0
Figures GoalStatus.completed goal p =
    (p.required_monthly.minor ≡ pos 0) × (p.gap_at_target.minor ≡ pos 0)
Figures GoalStatus.infeasible goal p =
    (p.required_monthly.minor ≡ pos 0)
    × (p.gap_at_target.minor ≡ goal.target.minor -ℤ goal.funded.minor)
Figures GoalStatus.on_track goal p = OpenFigures goal p
Figures GoalStatus.conflicting goal p = OpenFigures goal p
Figures GoalStatus.behind goal p = OpenFigures goal p

judge-Figures :
    (goal : FinancialGoal) (available : Money) (p0 p : GoalProjection)
    → p0.status ≡ GoalStatus.behind
    → OpenFigures goal p0
    → judge goal available p0 ≡ ok p
    → Figures p.status goal p
unfolding judge
judge-Figures goal available p0 p b h q =
    elim (Bool-cases (ltb_ℤ available.minor p0.required_monthly.minor)) [
      | inl short ↦
          bind_ok (sub p0.required_monthly available) _ (rw short at q)
            λ s q1 q2. subst (λ (x : GoalProjection). Figures x.status goal x) (ok-injective q2) h
      | inr enough ↦
          elim (Bool-cases (leb_ℤ p0.required_monthly.minor goal.monthly_contribution.minor)) [
            | inl on ↦
                subst (λ (x : GoalProjection). Figures x.status goal x)
                  (ok-injective (rw (enough, on) at q)) h
            | inr off ↦
                subst (λ (x : GoalProjection). Figures x.status goal x)
                  (ok-injective (rw (enough, off) at q))
                  (subst (λ (s : GoalStatus). Figures s goal p0) (sym b) h)
          ]
    ]

missing-zero_money :
    (z : ℤ) (m : Money) (c : String)
    → m.minor ≡ z
    → (if ltb_ℤ m.minor (pos 0) then zero_money c else m).minor ≡ missing z
missing-zero_money z m c h = elim (Bool-cases (ltb_ℤ m.minor (pos 0))) [
  | inl e ↦ rw (e, rw h at e) refl
  | inr e ↦ rw (e, rw h at e) h
]

gap_over :
    (target funded : ℤ) (t f g : ℕ)
    → target ≡ pos t
    → funded ≡ pos f
    → g + f ≡ t
    → target ≡ funded +ℤ pos g
gap_over target funded t f g h k e = rw (h, k) (omega (int_laws, e))

pub project_open-Figures :
    (goal : FinancialGoal) (available : Money) (m g : ℕ) (gap : Money) (p : GoalProjection)
    → (f : IsFactual goal) → 0 < m
    → gap.minor ≡ pos g
    → g + f.funded ≡ f.target
    → project_open goal available (pos m) gap ≡ ok p
    → Figures p.status goal p
unfolding project_open
project_open-Figures goal available m g gap p f hm eg split q =
    bind_ok (multiply_money goal.monthly_contribution (pos m)) _ q λ ct q1 q2.
      bind_ok (add goal.funded ct) _ q2 λ pf q3 q4. bind_ok (sub goal.target pf) _ q4 λ pg q5 q6.
        let (r, er, covers, least) =
          required_minor_least g m (omega (arith, split, f.target_range)) hm in
        let t =
          multiply_money-pos goal.monthly_contribution f.contribution m ct f.contribution_is
            f.contribution_range q1 in
        let gf =
          add-Gives goal.funded ct pf (rw f.funded_is (omega (arith, f.funded_range)))
            (rw t.0 (omega (arith, t.2))) q3 in
        let gg =
          sub-Gives goal.target pf pg (rw f.target_is (omega (arith, f.target_range))) gf.bounded
            q5 in
        let e : required_minor gap.minor (pos m) ≡ pos r = rw eg er in
        judge-Figures goal available
          (record {
            months_remaining = pos m;
            required_monthly = record {
              minor = required_minor gap.minor (pos m);
              currency = goal.target.currency;
            };
            projected_funded = pf;
            gap_at_target = if ltb_ℤ pg.minor (pos 0) then zero_money goal.target.currency else pg;
            capacity_shortfall = zero_money goal.target.currency;
            status = GoalStatus.behind;
          })
          p refl
          (
            m,
            r,
            g,
            f.contribution,
            refl,
            hm,
            gap_over goal.target.minor goal.funded.minor f.target f.funded g f.target_is f.funded_is
                split,
            f.contribution_is,
            e,
            covers,
            least,
            gf.minor ∙ rw t.0 refl,
            missing-zero_money (goal.target.minor -ℤ pf.minor) pg goal.target.currency gg.minor,
          )
          q6
