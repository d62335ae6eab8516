-- ===== src/Auth/Requests.antt =====
-- internal/auth/rbac_service.go: sequences of requests on the members of the households, in the
-- order in which their transactions commit.
use family_finance_os.Prelude.{
  ◌≡◌, refl, String, ℕ, Option, List, [], ◌∷◌, Result, ok, err, bind_ok, return_if, or_err,
  invalid_member_input, ◌||◌, not, leb,
}
use family_finance_os.Prelude.Int.{ℤ, pos, leb_ℤ}
use family_finance_os.Prelude.Text.{is_empty, trim_space}
use family_finance_os.Prelude.Time.{Time}
use family_finance_os.Auth.{AuthStore, HouseholdMember, parse_role}
use family_finance_os.Auth.Members.{
  service_create_household_member, service_update_household_member_role, disable_household_member,
  enable_household_member,
}
use family_finance_os.Auth.Owners.{
  HasOwner, update_role-keeps, disable-keeps, enable-keeps, create-keeps,
}

pub data Request : Type 0 where
  create : ℤ → Time → ℤ → String → String → String → Request
  update_role : ℤ → ℤ → String → Time → Request
  disable : ℤ → ℤ → Time → Request
  enable : ℤ → ℤ → Time → Request

-- A failed request leaves the tables as they were.
abbrev pub committed : AuthStore → Result (HouseholdMember × AuthStore) → AuthStore
committed s (ok (m, t)) = t
committed s (err e) = s

module _ (to_lower : String → String) (hash_password : String → Option String)
    (byte_length : String → ℕ) where
  unfoldable pub answer : Request → AuthStore → Result (HouseholdMember × AuthStore)
  answer (create id now h username password raw_role) s =
      service_create_household_member to_lower hash_password byte_length id now h username password
        raw_role s
  answer (update_role h id raw_role now) s =
      service_update_household_member_role to_lower hash_password byte_length h id raw_role now s
  answer (disable h id now) s = disable_household_member h id now s
  answer (enable h id now) s = enable_household_member h id now s

  unfoldable pub serve : List Request → AuthStore → AuthStore
  serve [] s = s
  serve (r ∷ rs) s = serve rs (committed s (answer r s))

  service_update-keeps :
      (h id : ℤ) (raw : String) (now : Time) (s t : AuthStore) (m : HouseholdMember) (k : ℤ)
      → service_update_household_member_role to_lower hash_password byte_length h id raw now s
        ≡ ok (m, t)
      → HasOwner k s
      → HasOwner k t
  unfolding service_update_household_member_role
  service_update-keeps h id raw now s t m k q has =
      bind_ok (or_err invalid_member_input (parse_role to_lower raw)) _ q
        λ role c0 q0. update_role-keeps h id role now s t m k q0 has

  service_create-keeps :
      (id : ℤ) (now : Time) (h : ℤ) (username password raw : String) (s t : AuthStore)
      (m : HouseholdMember) (k : ℤ)
      → service_create_household_member to_lower hash_password byte_length id now h username
          password raw s
        ≡ ok (m, t)
      → HasOwner k s
      → HasOwner k t
  unfolding service_create_household_member
  service_create-keeps id now h username password raw s t m k q has =
      let user = to_lower (trim_space (trim_space username)) in
      bind_ok
        (return_if (leb_ℤ h (pos 0) || (is_empty user || not (leb (byte_length user) 128)))
          invalid_member_input)
        _ q
        λ _ c0 q0.
          bind_ok (or_err invalid_member_input (parse_role to_lower raw)) _ q0 λ role c1 q1.
            bind_ok (or_err invalid_member_input (hash_password password)) _ q1 λ hash c2 q2.
              create-keeps id now h (trim_space username) user hash role s t m k q2 has

  answer-keeps :
      (r : Request) (s t : AuthStore) (m : HouseholdMember) (k : ℤ)
      → answer r s ≡ ok (m, t)
      → HasOwner k s
      → HasOwner k t
  unfolding answer
  answer-keeps (create id now h username password raw) s t m k q has =
      service_create-keeps id now h username password raw s t m k q has
  answer-keeps (update_role h id raw now) s t m k q has =
      service_update-keeps h id raw now s t m k q has
  answer-keeps (disable h id now) s t m k q has = disable-keeps h id now s t m k q has
  answer-keeps (enable h id now) s t m k q has = enable-keeps h id now s t m k q has

  committed-keeps :
      (a : Result (HouseholdMember × AuthStore)) (r : Request) (s : AuthStore) (k : ℤ)
      → answer r s ≡ a
      → HasOwner k s
      → HasOwner k (committed s a)
  committed-keeps (ok (m, t)) r s k q has = answer-keeps r s t m k q has
  committed-keeps (err e) r s k q has = has

  -- A household that has an active owner still has one after any requests to create members, to
  -- change their roles, and to disable and enable them, of this household and of others, in any
  -- order, with any arguments, whether they succeed or fail.
  pub serve-keeps_owner :
      (k : ℤ) (rs : List Request) (s : AuthStore) → HasOwner k s → HasOwner k (serve rs s)
  unfolding serve
  serve-keeps_owner k [] s has = has
  serve-keeps_owner k (r ∷ rs) s has =
      serve-keeps_owner k rs (committed s (answer r s))
        (committed-keeps (answer r s) r s k refl has)
