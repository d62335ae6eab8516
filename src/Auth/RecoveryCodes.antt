-- ===== src/Auth/RecoveryCodes.antt =====
-- internal/auth/service.go: how recovery codes are shown, and read back.
use family_finance_os.Prelude.{
  ◌≡◌, ◌∙◌, refl, sym, ap, arith, Bool, true, not, ◌&&◌, ◌||◌, String, ℕ, zero, suc, leb, ◌==◌, ◌+◌,
  ◌≤◌, ◌⊎◌, Option, none, some, if◌then◌else◌,
}
use Prim.Native.Char.{code}
use family_finance_os.Prelude.Text.{
  append, all_chars, char_count, remove_char, take_chars, drop_chars, is_space, trim_left,
  trim_right, trim_space,
}

abbrev pub is_base32 : ℕ → Bool
is_base32 c = (leb 65 c && leb c 90) || (leb 50 c && leb c 55)

-- Groups of four with a dash between them.
unfoldable pub recovery_code : String → String
unfolding append take_chars drop_chars
recovery_code s = append (take_chars 4 s) (
    append "-" (
      append (take_chars 4 (drop_chars 4 s))
        (append "-" (append (take_chars 4 (drop_chars 8 s)) (append "-" (drop_chars 12 s))))))

unfoldable pub normalize_recovery_code : (String → String) → String → Option String
unfolding remove_char all_chars char_count
normalize_recovery_code to_upper raw =
    let s = remove_char 32 (remove_char 45 (to_upper (trim_space raw))) in
    if not (char_count s == 16) then none else if not (all_chars is_base32 s) then none else some s

remove_char-absent :
    (d : ℕ) (s : String) → all_chars (λ c. not (c == d)) s ≡ true → remove_char d s ≡ s
unfolding remove_char all_chars
remove_char-absent d String.[] h = refl
remove_char-absent d (String.◌∷◌ c s) h = ground (arith, remove_char-absent d s)

remove_char-append :
    (d : ℕ) (s t : String) → remove_char d (append s t) ≡ append (remove_char d s) (remove_char d t)
unfolding remove_char append
remove_char-append d String.[] t = refl
remove_char-append d (String.◌∷◌ c s) t = ground (arith, remove_char-append d s t)

append-take-drop : (n : ℕ) (s : String) → append (take_chars n s) (drop_chars n s) ≡ s
unfolding append take_chars drop_chars
append-take-drop zero s = refl
append-take-drop (suc n) String.[] = refl
append-take-drop (suc n) (String.◌∷◌ c s) = ap (String.◌∷◌ c) (append-take-drop n s)

drop-empty : (n : ℕ) → drop_chars n String.[] ≡ String.[]
unfolding drop_chars
drop-empty zero = refl
drop-empty (suc n) = refl

drop-drop : (m n : ℕ) (s : String) → drop_chars m (drop_chars n s) ≡ drop_chars (n + m) s
unfolding drop_chars
drop-drop m zero s = ap (λ k. drop_chars k s) (omega arith)
drop-drop m (suc n) String.[] = drop-empty m ∙ sym (drop-empty (suc n + m))
drop-drop m (suc n) (String.◌∷◌ c s) =
    let e : suc (n + m) ≡ suc n + m = omega arith in
    drop-drop m n s ∙ ap (λ k. drop_chars k (String.◌∷◌ c s)) e

all_chars-append :
    (test : ℕ → Bool) (s t : String)
    → all_chars test (append s t) ≡ (all_chars test s && all_chars test t)
unfolding all_chars append
all_chars-append test String.[] t = refl
all_chars-append test (String.◌∷◌ c s) t = ground (arith, all_chars-append test s t)

all_chars-weaken :
    (test wider : ℕ → Bool) (s : String)
    → ((c : ℕ) → test c ≡ true → wider c ≡ true)
    → all_chars test s ≡ true
    → all_chars wider s ≡ true
unfolding all_chars
all_chars-weaken test wider String.[] h q = refl
all_chars-weaken test wider (String.◌∷◌ c s) h q =
    ground (arith, h (code c), all_chars-weaken test wider s h)

trim_right-solid : (s : String) → all_chars (λ c. not (is_space c)) s ≡ true → trim_right s ≡ s
unfolding all_chars trim_right
trim_right-solid String.[] h = refl
trim_right-solid (String.◌∷◌ c s) h = ground (arith, trim_right-solid s)

trim_space-solid : (s : String) → all_chars (λ c. not (is_space c)) s ≡ true → trim_space s ≡ s
unfolding all_chars trim_left trim_space
trim_space-solid String.[] h = refl
trim_space-solid (String.◌∷◌ c s) h = ground (arith, trim_right-solid (String.◌∷◌ c s))

abbrev solid : ℕ → Bool
solid c = not (is_space c)

-- The characters of a shown code: those of the code and dashes.
abbrev shown : ℕ → Bool
shown c = is_base32 c || c == 45

append-weaken :
    (s t : String)
    → all_chars shown s ≡ true
    → all_chars shown t ≡ true
    → all_chars shown (append s t) ≡ true
append-weaken s t h k = all_chars-append shown s t ∙ ground (arith, h, k)

all_chars-take :
    (test : ℕ → Bool) (n : ℕ) (s : String)
    → all_chars test s ≡ true
    → all_chars test (take_chars n s) ≡ true
unfolding all_chars take_chars
all_chars-take test zero s h = refl
all_chars-take test (suc n) String.[] h = refl
all_chars-take test (suc n) (String.◌∷◌ c s) h = ground (arith, all_chars-take test n s)

all_chars-drop :
    (test : ℕ → Bool) (n : ℕ) (s : String)
    → all_chars test s ≡ true
    → all_chars test (drop_chars n s) ≡ true
unfolding all_chars drop_chars
all_chars-drop test zero s h = h
all_chars-drop test (suc n) String.[] h = refl
all_chars-drop test (suc n) (String.◌∷◌ c s) h = ground (arith, all_chars-drop test n s)

dash_shown : all_chars shown "-" ≡ true
unfolding all_chars
dash_shown = refl

recovery_code-shown :
    (s : String) → all_chars is_base32 s ≡ true → all_chars shown (recovery_code s) ≡ true
unfolding recovery_code
recovery_code-shown s h =
    let w = all_chars-weaken is_base32 shown s (λ c e. ground arith) h in
    let g = λ (n : ℕ). all_chars-take shown 4 (drop_chars n s) (all_chars-drop shown n s w) in
    append-weaken _ _ (all_chars-take shown 4 s w) (
      append-weaken _ _ dash_shown (
        append-weaken _ _ (g 4) (
          append-weaken _ _ dash_shown (
            append-weaken _ _ (g 8) (append-weaken _ _ dash_shown (all_chars-drop shown 12 s w))))))

-- Removing the first dash.
cut :
    (s t : String)
    → all_chars is_base32 s ≡ true
    → remove_char 45 (append s (append "-" t)) ≡ append s (remove_char 45 t)
unfolding remove_char append
cut s t h =
    remove_char-append 45 s (append "-" t)
    ∙ ap (λ r. append r (remove_char 45 t))
        (remove_char-absent 45 s (all_chars-weaken is_base32 _ s (λ c e. ground arith) h))

join :
    (m n : ℕ) (s : String)
    → append (take_chars m (drop_chars n s)) (drop_chars (n + m) s) ≡ drop_chars n s
join m n s =
    ap (append (take_chars m (drop_chars n s))) (sym (drop-drop m n s))
    ∙ append-take-drop m (drop_chars n s)

-- Without its dashes a shown code is the code.
recovery_code-dashes :
    (s : String) → all_chars is_base32 s ≡ true → remove_char 45 (recovery_code s) ≡ s
unfolding recovery_code
recovery_code-dashes s h =
    let g =
      λ (n : ℕ). all_chars-take is_base32 4 (drop_chars n s) (all_chars-drop is_base32 n s h) in
    cut (take_chars 4 s) _ (all_chars-take is_base32 4 s h)
    ∙ ap (append (take_chars 4 s)) (
        cut (take_chars 4 (drop_chars 4 s)) _ (g 4)
        ∙ ap (append (take_chars 4 (drop_chars 4 s))) (
            cut (take_chars 4 (drop_chars 8 s)) _ (g 8)
            ∙ ap (append (take_chars 4 (drop_chars 8 s))) (
                remove_char-absent 45 (drop_chars 12 s) (
                  all_chars-weaken is_base32 _ _ (λ c e. ground arith)
                    (all_chars-drop is_base32 12 s h)))
            ∙ join 4 8 s)
        ∙ join 4 4 s)
    ∙ append-take-drop 4 s

-- The letters A to Z and the digits 2 to 7, which the encoder of base32 writes.
abbrev IsLetter : ℕ → Type 0
IsLetter c = (65 ≤ c) × (c ≤ 90) ⊎ (50 ≤ c) × (c ≤ 55)

abbrev pub IsBase32 : String → Type 0
IsBase32 String.[] = Unit
IsBase32 (String.◌∷◌ c s) = IsLetter (code c) × IsBase32 s

letter_accepted : (c : ℕ) → IsLetter c → is_base32 c ≡ true
letter_accepted c h = ground arith

IsBase32-accepted : (s : String) → IsBase32 s → all_chars is_base32 s ≡ true
unfolding all_chars
IsBase32-accepted String.[] h = refl
IsBase32-accepted (String.◌∷◌ c s) h =
    rw (letter_accepted (code c) h.0, IsBase32-accepted s h.1) refl

-- A recovery code of sixteen letters from A to Z and digits from 2 to 7 is read back from the form in which it is shown,
-- where the upper case of that form is the form itself.
pub normalize-recovery_code :
    (to_upper : String → String) (s : String)
    → IsBase32 s
    → char_count s ≡ 16
    → to_upper (recovery_code s) ≡ recovery_code s
    → normalize_recovery_code to_upper (recovery_code s) ≡ some s
unfolding normalize_recovery_code
normalize-recovery_code to_upper s letters n upper =
    let h = IsBase32-accepted s letters in
    let trimmed : trim_space (recovery_code s) ≡ recovery_code s =
      trim_space-solid (recovery_code s) (
        all_chars-weaken shown solid (recovery_code s) (λ c e. ground arith)
          (recovery_code-shown s h)) in
    let kept : remove_char 32 s ≡ s =
      remove_char-absent 32 s
        (all_chars-weaken is_base32 (λ c. not (c == 32)) s (λ c e. ground arith) h) in
    rw (trimmed, upper, recovery_code-dashes s h, kept, n, h) refl
