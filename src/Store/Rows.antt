-- ===== src/Store/Rows.antt =====
-- Laws of the statements on lists of rows.
use notification_server.Base.{
  ◌≡◌, refl, inl, inr, Bool, true, Option, none, some, List, [], ◌∷◌, arith, All, Bool-cases,
  if◌then◌else◌,
}
use mathlib.Core.Path.{subst}
use notification_server.Store.Tables.{row, scan, select, update_where, delete_where}

module _ {A : Type 0} where
  pub scanned : (o : Option A) (x : A) → scan o ≡ row x → o ≡ some x
  scanned none x h = cc
  scanned (some y) x h = ground arith

  pub select_found : (p : A → Bool) (xs : List A) (x : A) → select p xs ≡ some x → p x ≡ true
  unfolding select
  select_found p [] x h = cc
  select_found p (y ∷ xs) x h = ground (arith, select_found p xs x)

  pub select-delete_where : (p : A → Bool) (xs : List A) → select p (delete_where p xs) ≡ none
  unfolding select delete_where
  select-delete_where p [] = refl
  select-delete_where p (x ∷ xs) = ground (arith, select-delete_where p xs)

  -- What the condition of an update picks satisfies what the update makes true.
  pub update_where-All :
      (p : A → Bool) (f : A → A) (P Q : A → Type 0) (xs : List A)
      → ((x : A) → P x → p x ≡ true)
      → ((x : A) → Q (f x))
      → All (λ x. P x → Q x) (update_where p f xs)
  unfolding update_where
  update_where-All p f P Q [] found h = tt
  update_where-All p f P Q (x ∷ xs) found h = (here, update_where-All p f P Q xs found h)
    where
      here : P (if p x then f x else x) → Q (if p x then f x else x)
      here = elim (Bool-cases (p x)) [
        | inl e ↦ rw e (λ _. h x)
        | inr e ↦ rw e (λ q. absurd (cc (e, found x q)))
      ]

  pub select-All :
      (P : A → Type 0) (p : A → Bool) (xs : List A) (x : A) → All P xs → select p xs ≡ some x → P x
  unfolding select
  select-All P p [] x h e = cc
  select-All P p (y ∷ xs) x (h, hs) e = elim (Bool-cases (p y)) [
    | inl t ↦ subst P (ground arith) h
    | inr f ↦ select-All P p xs x hs (ground arith)
  ]

  pub delete_where_keeps_All :
      (P : A → Type 0) (p : A → Bool) (xs : List A) → All P xs → All P (delete_where p xs)
  unfolding delete_where
  delete_where_keeps_All P p [] h = tt
  delete_where_keeps_All P p (x ∷ xs) (h, hs) = elim (Bool-cases (p x)) [
    | inl e ↦ rw e (delete_where_keeps_All P p xs hs)
    | inr e ↦ rw e (h, delete_where_keeps_All P p xs hs)
  ]

  pub update_where_keeps_All :
      (P : A → Type 0) (p : A → Bool) (f : A → A) (xs : List A)
      → ((x : A) → P x → P (f x))
      → All P xs
      → All P (update_where p f xs)
  unfolding update_where
  update_where_keeps_All P p f [] keep h = tt
  update_where_keeps_All P p f (x ∷ xs) keep (h, hs) = elim (Bool-cases (p x)) [
    | inl e ↦ rw e (keep x h, update_where_keeps_All P p f xs keep hs)
    | inr e ↦ rw e (h, update_where_keeps_All P p f xs keep hs)
  ]
