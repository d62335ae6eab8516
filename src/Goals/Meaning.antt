-- ===== src/Goals/Meaning.antt =====
-- service.go: what each status says, and why it holds once the months and the gap are known.
use family_finance_os.Prelude.{
  ◌≡◌, refl, arith, ℕ, ◌+◌, ◌*◌, ◌≤◌, ◌<◌, ◌^◌, String, ok, if◌then◌else◌, Bool-cases, inl, inr,
  bind_ok, ok-injective,
}
use mathlib.Core.Path.{subst}
use native.Mathlib.Nat.{le-mul_of_pos_right, mul-le-mul_right}
use family_finance_os.Prelude.Int.{
  ℤ, pos, ◌+ℤ◌, ◌-ℤ◌, ◌≤ℤ◌, ◌<ℤ◌, ltb_ℤ, leb_ℤ, int_laws, eq_of_parts,
}
use family_finance_os.Prelude.Word.{IsInt64}
use family_finance_os.Money.{Money, zero_money, add, sub}
use family_finance_os.Money.Exact.{add-Gives, sub-Gives}
use family_finance_os.Goals.{
  FinancialGoal, GoalProjection, GoalStatus, judge, multiply_money, project_open, required_minor,
}
use family_finance_os.Goals.Required.{required_minor_least, multiply_money-pos}

-- What each status says of the goal, the money available each month and the projection.
abbrev pub Means : GoalStatus → FinancialGoal → Money → GoalProjection → Type 0
Means GoalStatus.completed goal available p = goal.target.minor ≤ℤ goal.funded.minor
Means GoalStatus.infeasible goal available p =
    (goal.funded.minor <ℤ goal.target.minor) × (p.months_remaining ≡ pos 0)
Means GoalStatus.on_track goal available p =
    (p.required_monthly.minor ≤ℤ available.minor)
    × (p.required_monthly.minor ≤ℤ goal.monthly_contribution.minor)
    × (goal.target.minor ≤ℤ p.projected_funded.minor)
    × (p.gap_at_target.minor ≡ pos 0)
Means GoalStatus.conflicting goal available p =
    (available.minor <ℤ p.required_monthly.minor)
    × (p.capacity_shortfall.minor ≡ p.required_monthly.minor -ℤ available.minor)
Means GoalStatus.behind goal available p =
    (goal.monthly_contribution.minor <ℤ p.required_monthly.minor)
    × (p.required_monthly.minor ≤ℤ available.minor)

-- The amounts of a goal that has passed the checks.
pub record IsFactual (goal : FinancialGoal) : Type 0 where
  pub target : ℕ
  pub funded : ℕ
  pub contribution : ℕ
  pub target_is : goal.target.minor ≡ pos target
  pub funded_is : goal.funded.minor ≡ pos funded
  pub contribution_is : goal.monthly_contribution.minor ≡ pos contribution
  pub target_range : target < 2 ^ 63
  pub funded_range : funded < 2 ^ 63
  pub contribution_range : contribution < 2 ^ 63

judge-Means :
    (goal : FinancialGoal) (available : Money) (p0 p : GoalProjection)
    → IsInt64 available.minor
    → IsInt64 p0.required_monthly.minor
    → p0.status ≡ GoalStatus.behind
    → (p0.required_monthly.minor ≤ℤ goal.monthly_contribution.minor
        → (goal.target.minor ≤ℤ p0.projected_funded.minor) × (p0.gap_at_target.minor ≡ pos 0))
    → judge goal available p0 ≡ ok p
    → Means p.status goal available p × (p.required_monthly ≡ p0.required_monthly)
unfolding judge
judge-Means goal available p0 p ha hr b done q =
    elim (Bool-cases (ltb_ℤ available.minor p0.required_monthly.minor)) [
      | inl short ↦ bind_ok (sub p0.required_monthly available) _ (rw short at q) λ s q1 q2.
          let g = sub-Gives p0.required_monthly available s hr ha q1 in
          subst
            (λ (x : GoalProjection).
              Means x.status goal available x × (x.required_monthly ≡ p0.required_monthly))
            (ok-injective q2) ((ground arith, g.minor), refl)
      | inr enough ↦
          elim (Bool-cases (leb_ℤ p0.required_monthly.minor goal.monthly_contribution.minor)) [
            | inl on ↦
                subst
                  (λ (x : GoalProjection).
                    Means x.status goal available x × (x.required_monthly ≡ p0.required_monthly))
                  (ok-injective (rw (enough, on) at q))
                  (
                    (ground arith, ground arith, (done (ground arith)).0, (done (ground arith)).1),
                    refl,
                  )
            | inr off ↦
                subst
                  (λ (x : GoalProjection).
                    Means x.status goal available x × (x.required_monthly ≡ p0.required_monthly))
                  (ok-injective (rw (enough, off) at q)) (rw b (ground arith, ground arith), refl)
          ]
    ]

-- What the contributions reach, if they are at least the required payment.
pub reaches :
    (target funded c m r g : ℕ) → g + funded ≡ target → g ≤ r * m → r ≤ c → target ≤ funded + c * m
reaches target funded c m r g e h k = omega (arith, mul-le-mul_right m k)

r_range : (r g m : ℕ) → 0 < m → r ≤ g → g < 2 ^ 63 → IsInt64 (pos r)
r_range r g m h k l = omega arith

pub within : (r c : ℕ) (a b : ℤ) → a ≡ pos r → b ≡ pos c → a ≤ℤ b → r ≤ c
within r c a b h k l = ground arith

funded_enough :
    (target funded ct pf : ℤ) (t f c m r g : ℕ)
    → target ≡ pos t
    → funded ≡ pos f
    → ct ≡ pos (c * m)
    → pf ≡ funded +ℤ ct
    → g + f ≡ t
    → g ≤ r * m
    → r ≤ c
    → target ≤ℤ pf
funded_enough target funded ct pf t f c m r g h1 h2 h3 h4 h5 h6 h7 =
    rw (h1, h4, h2, h3) (omega (int_laws, reaches t f c m r g h5 h6 h7))

closed_gap : (t p g : ℤ) → g ≡ t -ℤ p → t ≤ℤ p → pos 0 ≤ℤ g → g ≡ pos 0
closed_gap t p g h k l = rw h (eq_of_parts _ _ (omega (int_laws, rw h at l)))

no_gap :
    (target pf : ℤ) (pg : Money) (c : String)
    → pg.minor ≡ target -ℤ pf
    → target ≤ℤ pf
    → (if ltb_ℤ pg.minor (pos 0) then zero_money c else pg).minor ≡ pos 0
no_gap target pf pg c h k = elim (Bool-cases (ltb_ℤ pg.minor (pos 0))) [
  | inl e ↦ rw e
  | inr e ↦ rw e (closed_gap target pf pg.minor h k (ground arith))
]

pub project_open-Means :
    (goal : FinancialGoal) (available : Money) (m g : ℕ) (gap : Money) (p : GoalProjection)
    → (f : IsFactual goal) → IsInt64 available.minor
    → 0 < m
    → gap.minor ≡ pos g
    → g + f.funded ≡ f.target
    → project_open goal available (pos m) gap ≡ ok p
    → Means p.status goal available p
unfolding project_open
project_open-Means goal available m g gap p f ha hm eg split q =
    bind_ok (multiply_money goal.monthly_contribution (pos m)) _ q λ ct q1 q2.
      bind_ok (add goal.funded ct) _ q2 λ pf q3 q4. bind_ok (sub goal.target pf) _ q4 λ pg q5 q6.
        let (r, er, covers, least) =
          required_minor_least g m (omega (arith, split, f.target_range)) hm in
        let t =
          multiply_money-pos goal.monthly_contribution f.contribution m ct f.contribution_is
            f.contribution_range q1 in
        let gf =
          add-Gives goal.funded ct pf (rw f.funded_is (omega (arith, f.funded_range)))
            (rw t.0 (omega (arith, t.2))) q3 in
        let gg =
          sub-Gives goal.target pf pg (rw f.target_is (omega (arith, f.target_range))) gf.bounded
            q5 in
        let e : required_minor gap.minor (pos m) ≡ pos r = rw eg er in
        (judge-Means goal available
          (record {
            months_remaining = pos m;
            required_monthly = record {
              minor = required_minor gap.minor (pos m);
              currency = goal.target.currency;
            };
            projected_funded = pf;
            gap_at_target = if ltb_ℤ pg.minor (pos 0) then zero_money goal.target.currency else pg;
            capacity_shortfall = zero_money goal.target.currency;
            status = GoalStatus.behind;
          })
          p ha
          (rw e (
            r_range r g m hm (least g (le-mul_of_pos_right g hm))
              (omega (arith, split, f.target_range))))
          refl
          (λ le.
            let s =
              funded_enough goal.target.minor goal.funded.minor ct.minor pf.minor f.target f.funded
                f.contribution m r g f.target_is f.funded_is t.0 gf.minor split covers
                (within r f.contribution _ _ e f.contribution_is le) in
            (s, no_gap goal.target.minor pf.minor pg goal.target.currency gg.minor s))
          q6).0
