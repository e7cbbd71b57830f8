-- ===== src/Http/Validators.antt =====
-- internal/adapters/http/utils/validators.go, on the fields of dto.RegisteredUser: a text, and a
-- slice of texts. The regular expressions there are classes of one character.
use notification_server.Base.{
  ℕ, ◌≤◌, ◌≡◌, refl, String, Bool, true, false, not, ◌||◌, ◌↔◌, ◌⊎◌, List, [], ◌∷◌, ◌==◌, nat_eq,
  ltb, length, All, arith, if◌then◌else◌,
}
use Prim.Native.String.{len}
use notification_server.Http.Text.{
  codes, between, is_space, trim_left, trim_right, trim_space, keep,
}

abbrev any : (ℕ → Bool) → List ℕ → Bool
any p [] = false
any p (c ∷ cs) = p c || any p cs

abbrev pub is_lower : ℕ → Bool
is_lower c = between 97 122 c

abbrev pub is_upper : ℕ → Bool
is_upper c = between 65 90 c

abbrev pub is_digit : ℕ → Bool
is_digit c = between 48 57 c

-- `[@$!%*?&]`
abbrev pub is_special : ℕ → Bool
is_special c = c == 64 || (c == 36 || (c == 33 || (c == 37 || (c == 42 || (c == 63 || c == 38)))))

unfoldable pub password_validator : String → Bool
password_validator password =
    if not (any is_lower (codes password))
    then false
    else if not (any is_upper (codes password))
    then false
    else if not (any is_digit (codes password))
    then false
    else if not (any is_special (codes password))
    then false
    else true

-- The loop over the items.
unfoldable pub items_valid : List String → Bool
items_valid [] = true
items_valid (p ∷ ps) =
    let rest = items_valid ps in
    if ltb 20 (len p) then false else if length (trim_space (codes p)) == 0 then false else rest

unfoldable pub user_preferences_validation : List String → Bool
unfolding items_valid
user_preferences_validation field = if ltb 5 (length field) then false else items_valid field

-- Some character of the class is in the text.
abbrev pub Has : (ℕ → Bool) → List ℕ → Type 0
Has p [] = ⊥
Has p (c ∷ cs) = (p c ≡ true) ⊎ Has p cs

any_iff : (p : ℕ → Bool) (cs : List ℕ) → (any p cs ≡ true) ↔ Has p cs
any_iff p [] = ground arith
any_iff p (c ∷ cs) = ground (arith, any_iff p cs)

-- A password is accepted exactly when it has a lower-case letter, an upper-case letter, a digit and
-- one of the special characters.
pub password_validator_iff :
    (password : String)
    → (password_validator password ≡ true) ↔ (
        Has is_lower (codes password)
        × Has is_upper (codes password)
        × Has is_digit (codes password)
        × Has is_special (codes password))
unfolding password_validator
password_validator_iff password =
    let l = any_iff is_lower (codes password) in
    let u = any_iff is_upper (codes password) in
    let d = any_iff is_digit (codes password) in
    let s = any_iff is_special (codes password) in ground arith

abbrev pub is_ink : ℕ → Bool
is_ink c = not (is_space c)

ink-trim_left : (cs : List ℕ) → any is_ink (trim_left cs) ≡ any is_ink cs
ink-trim_left [] = refl
ink-trim_left (c ∷ cs) = ground (arith, ink-trim_left cs)

ink-keep :
    (c : ℕ) (ds : List ℕ) (b : Bool)
    → (length ds == 0) ≡ not b
    → (length (keep c ds) == 0) ≡ not (is_ink c || b)
ink-keep c [] b h = ground arith
ink-keep c (d ∷ ds) b h = ground arith

ink-trim_right : (cs : List ℕ) → (length (trim_right cs) == 0) ≡ not (any is_ink cs)
ink-trim_right [] = refl
ink-trim_right (c ∷ cs) = ink-keep c (trim_right cs) (any is_ink cs) (ink-trim_right cs)

blank_iff : (cs : List ℕ) → ((length (trim_space cs) == 0) ≡ false) ↔ Has is_ink cs
blank_iff cs =
    let h = any_iff is_ink cs in
    let l = ink-trim_left cs in let r = ink-trim_right (trim_left cs) in ground arith

-- An item of at most 20 bytes that is not blank.
abbrev pub IsItem : String → Type 0
IsItem p = (len p ≤ 20) × Has is_ink (codes p)

items_valid_iff : (ps : List String) → (items_valid ps ≡ true) ↔ All IsItem ps
unfolding items_valid
items_valid_iff [] = ground arith
items_valid_iff (p ∷ ps) =
    let b = blank_iff (codes p) in let rest = items_valid_iff ps in ground arith

-- Preferences are accepted exactly when they are at most five, each of at most 20 bytes and with a
-- character that is not white space.
pub user_preferences_validation_iff :
    (field : List String)
    → (user_preferences_validation field ≡ true) ↔ ((length field ≤ 5) × All IsItem field)
unfolding user_preferences_validation
user_preferences_validation_iff field = let items = items_valid_iff field in ground arith
