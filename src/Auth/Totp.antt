-- ===== src/Auth/Totp.antt =====
-- internal/auth/totp.go and the recovery codes of service.go.
use family_finance_os.Prelude.{
  ◌≡◌, inl, inr, arith, Bool, not, ◌&&◌, ◌||◌, String, ℕ, leb, ◌==◌, Option, some, List, [], ◌∷◌,
  Result, ok, err, ◌>>=◌, ◌>>◌, return_if, or_err, if◌then◌else◌, invalid_totp, Bool-cases, bind_ok,
  or_err-ok, All, ok-injective,
}
use mathlib.Core.Path.{subst}
use family_finance_os.Prelude.Int.{ℤ, pos, ◌+ℤ◌, ◌-ℤ◌, ◌≤ℤ◌, ◌<ℤ◌, ltb_ℤ, leb_ℤ, quot_ℤ, int_laws}
use family_finance_os.Prelude.Time.{Time, unix}
use family_finance_os.Prelude.Text.{str_eq, eq_iff, all_chars, char_count}

abbrev pub is_digit : ℕ → Bool
is_digit c = leb 48 c && leb c 57

-- HMAC-SHA1 of a counter, cut to six digits, and base32 are parameters: a secret is decoded to the
-- key that the codes are made with.
pub record TotpCodes : Type 1 where
  pub Key : Type 0
  pub decode_secret : String → Option Key
  pub code_for : Key → ℤ → String

module _ (T : TotpCodes) where
  open T use {Key, decode_secret, code_for}

  -- The loop over the offsets; a candidate is skipped if it is below zero or not newer.
  unfoldable pub try_counters : Key → String → ℤ → List ℤ → Result ℤ
  try_counters key attempt last [] = err invalid_totp
  try_counters key attempt last (counter ∷ counters) =
      let rest = try_counters key attempt last counters in
      if ltb_ℤ counter (pos 0) || leb_ℤ counter last
      then rest
      else if str_eq (code_for key counter) attempt
      then ok counter
      else rest

  abbrev pub candidates : ℤ → List ℤ
  candidates current = current ∷ (current -ℤ pos 1) ∷ (current +ℤ pos 1) ∷ []

  unfoldable pub verify_totp : String → String → Time → ℤ → Result ℤ
  unfolding all_chars char_count try_counters quot_ℤ
  verify_totp secret attempt at last = do
    return_if (ltb_ℤ (unix at) (pos 0) || not (char_count attempt == 6)) invalid_totp
    return_if (not (all_chars is_digit attempt)) invalid_totp
    key ← or_err invalid_totp (decode_secret secret)
    try_counters key attempt last (candidates (quot_ℤ (unix at) (pos 30)))

  -- What an accepted counter is.
  pub record Accepted (secret attempt : String) (at : Time) (last counter : ℤ) : Type 0 where
    pub key : Key
    pub decoded : decode_secret secret ≡ some key
    pub matches : code_for key counter ≡ attempt
    pub newer : last <ℤ counter
    pub nonneg : pos 0 ≤ℤ counter
    pub near :
        (quot_ℤ (unix at) (pos 30) -ℤ pos 1 ≤ℤ counter)
        × (counter ≤ℤ quot_ℤ (unix at) (pos 30) +ℤ pos 1)

  abbrev Fits : Key → String → ℤ → ℤ → ℤ → Type 0
  Fits key attempt last current counter =
      (code_for key counter ≡ attempt)
      × (last <ℤ counter)
      × (pos 0 ≤ℤ counter)
      × (current -ℤ pos 1 ≤ℤ counter)
      × (counter ≤ℤ current +ℤ pos 1)

  abbrev Near : ℤ → ℤ → Type 0
  Near current counter = (current -ℤ pos 1 ≤ℤ counter) × (counter ≤ℤ current +ℤ pos 1)

  try_one :
      (key : Key) (attempt : String) (last current counter z : ℤ) (rest : Result ℤ)
      → Near current counter
      → (rest ≡ ok z → Fits key attempt last current z)
      → (if ltb_ℤ counter (pos 0) || leb_ℤ counter last
          then rest
          else if str_eq (code_for key counter) attempt
          then ok counter
          else rest)
        ≡ ok z
      → Fits key attempt last current z
  try_one key attempt last current counter z rest near later q =
      elim (Bool-cases (ltb_ℤ counter (pos 0) || leb_ℤ counter last)) [
        | inl skipped ↦ later (rw skipped at q)
        | inr kept ↦ elim (Bool-cases (str_eq (code_for key counter) attempt)) [
          | inl same ↦ subst (Fits key attempt last current) (ok-injective (rw (kept, same) at q)) (
            (eq_iff (code_for key counter) attempt).0 same,
            ground (arith, kept),
            ground (arith, kept),
            near.0,
            near.1,
          )
          | inr differs ↦ later (rw (kept, differs) at q)
        ]
      ]

  try_each :
      (key : Key) (attempt : String) (last current z : ℤ) (counters : List ℤ)
      → All (Near current) counters
      → try_counters key attempt last counters ≡ ok z
      → Fits key attempt last current z
  unfolding try_counters
  try_each key attempt last current z [] h q = cc
  try_each key attempt last current z (c ∷ cs) h q =
      try_one key attempt last current c z (try_counters key attempt last cs) h.0
        (try_each key attempt last current z cs h.1) q

  -- A code that is accepted is the code of a counter that is newer than the last one used, at most
  -- one step of thirty seconds from the current one, and not below zero.
  pub verify_totp-Accepted :
      (secret attempt : String) (at : Time) (last counter : ℤ)
      → verify_totp secret attempt at last ≡ ok counter
      → Accepted secret attempt at last counter
  unfolding verify_totp
  verify_totp-Accepted secret attempt at last counter q =
      let current = quot_ℤ (unix at) (pos 30) in
      bind_ok (return_if (ltb_ℤ (unix at) (pos 0) || not (char_count attempt == 6)) invalid_totp) _
        q
        λ _ _ q1. bind_ok (return_if (not (all_chars is_digit attempt)) invalid_totp) _ q1 λ _ _ q2.
          bind_ok (or_err invalid_totp (decode_secret secret)) _ q2 λ key e q3.
            let f =
              try_each key attempt last current counter (candidates current)
                (
                  (omega int_laws, omega int_laws),
                  ((omega int_laws, omega int_laws), ((omega int_laws, omega int_laws), tt)),
                )
                q3 in
            record {
              key = key;
              decoded = or_err-ok invalid_totp (decode_secret secret) key e;
              matches = f.0;
              newer = f.1;
              nonneg = f.2;
              near = (f.3, f.4);
            }
