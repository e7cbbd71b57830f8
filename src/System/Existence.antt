-- ===== src/System/Existence.antt =====
-- What the statements on a list of rows do to the existence of a row.
use notification_server.Base.{
  ◌≡◌, Bool-cases, inl, inr, List, [], ◌∷◌, All, string_eq, nat_eq, Bool, true, false, arith,
}
use notification_server.Store.Tables.{select, update_where, delete_where}
use notification_server.Repository.Stories.{exists}

module _ {A : Type 0} where
  pub All-map : {P Q : A → Type 0} (xs : List A) → ((x : A) → P x → Q x) → All P xs → All Q xs
  All-map [] f h = tt
  All-map (x ∷ xs) f (h, hs) = (f x h, All-map xs f hs)

  pub exists_later :
      (p : A → Bool) (x : A) (xs : List A) → exists p xs ≡ true → exists p (x ∷ xs) ≡ true
  unfolding select
  exists_later p x xs h = ground (arith, h)

  pub exists_kept :
      (p q : A → Bool) (xs : List A)
      → ((x : A) → p x ≡ true → q x ≡ false)
      → exists p xs ≡ true
      → exists p (delete_where q xs) ≡ true
  unfolding select delete_where
  exists_kept p q [] apart h = h
  exists_kept p q (x ∷ xs) apart h = elim (Bool-cases (p x)) [
    | inl e ↦ ground (arith, apart x e, e)
    | inr e ↦ elim (Bool-cases (q x)) [
      | inl d ↦ rw d (exists_kept p q xs apart (ground (arith, h, e)))
      | inr d ↦ rw d (exists_later p x _ (exists_kept p q xs apart (ground (arith, h, e))))
    ]
  ]

  pub exists_updated :
      (p q : A → Bool) (f : A → A) (xs : List A)
      → ((x : A) → p (f x) ≡ p x)
      → exists p xs ≡ true
      → exists p (update_where q f xs) ≡ true
  unfolding select update_where
  exists_updated p q f [] same h = h
  exists_updated p q f (x ∷ xs) same h = ground (arith, h, same x, exists_updated p q f xs same)

  -- What a deletion leaves does not fit its condition.
  pub delete_where_leaves :
      (P : A → Type 0) (q : A → Bool) (xs : List A)
      → All P xs
      → All (λ x. (q x ≡ false) × P x) (delete_where q xs)
  unfolding delete_where
  delete_where_leaves P q [] h = tt
  delete_where_leaves P q (x ∷ xs) (h, hs) = elim (Bool-cases (q x)) [
    | inl e ↦ rw e (delete_where_leaves P q xs hs)
    | inr e ↦ rw e ((e, h), delete_where_leaves P q xs hs)
  ]
