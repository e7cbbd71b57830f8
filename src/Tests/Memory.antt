-- ===== src/Tests/Memory.antt =====
-- Redis streams and sorted sets in memory: the laws of the interface can hold together.
use notification_server.Base.{
  ℕ, zero, suc, String, ◌≤◌, ◌≡◌, refl, Bool, true, false, ◌&&◌, not, Option, none, some, List, [],
  ◌∷◌, ◌==◌, nat_eq, string_eq, if◌then◌else◌, length, All, Any, ◌<◌, arith, eq_iff, nat_beq_iff,
  ltb, leb, ◌⊎◌, inl, inr, Bool-cases,
}
use notification_server.Store.Broker.{Broker}

-- `find k i` is read only below the next id.
pub record Memory : Type 0 where
  pub find : String → ℕ → Option String
  pub waits : String → String → ℕ → Bool
  pub members : List (String × (String × ℕ))
  pub next_id : ℕ

abbrev pub empty_memory : Memory
empty_memory = record { find = λ k i. none; waits = λ k g i. false; members = []; next_id = 1 }

abbrev pub entry : Memory → String → ℕ → Option String
entry s k i = if ltb i s.next_id then s.find k i else none

abbrev pub score_in : List (String × (String × ℕ)) → String → String → Option ℕ
score_in [] q m = none
score_in ((p, (n, t)) ∷ rest) q m = if p == q && n == m then some t else score_in rest q m

abbrev pub is_some : Option String → Bool
is_some none = false
is_some (some v) = true

-- The first entry that the group has not seen, among the ids below a bound.
abbrev pub first_new : Memory → String → String → ℕ → Option ℕ
first_new s k g zero = none
first_new s k g (suc n) =
    let rest = first_new s k g n in
    elim rest [
      | some i ↦ some i
      | none ↦ if is_some (entry s k n) && not (s.waits k g n) then some n else none
    ]

abbrev pub mark : String → String → ℕ → Bool → Memory → Memory
mark k g i b s = record s {
  waits = λ k' g' i'. if k == k' && (g == g' && i == i') then b else s.waits k' g' i';
}

abbrev pub deliver : Memory → String → String → Option ℕ → Option (ℕ × Option String) × Memory
deliver s k g none = (none, s)
deliver s k g (some i) = (some (i, entry s k i), mark k g i true s)

abbrev pub without : String → String → List (String × (String × ℕ)) → List (String × (String × ℕ))
without q m [] = []
without q m ((p, (n, t)) ∷ rest) =
    let kept = without q m rest in if p == q && n == m then kept else (p, (n, t)) ∷ kept

abbrev pub is_due : Option ℕ → ℕ → Bool
is_due none t = false
is_due (some u) t = leb u t

abbrev pub due : Memory → String → ℕ → List (String × (String × ℕ)) → ℕ → List String
due s q t xs zero = []
due s q t [] (suc n) = []
due s q t ((p, (m, u)) ∷ rest) (suc n) =
    let more = due s q t rest n in
    let others = due s q t rest (suc n) in
    if p == q && is_due (score_in s.members q m) t then m ∷ more else others

abbrev pub put : String → ℕ → Option String → Memory → Memory
put k i v s = record s { find = λ k' i'. if k == k' && i == i' then v else s.find k' i' }

abbrev pub add_entry : String → String → Memory → ℕ × Memory
add_entry k v s = (
  s.next_id,
  record s {
    find = λ k' i'. if k == k' && s.next_id == i' then some v else entry s k' i';
    next_id = suc s.next_id;
  },
)

pub score-without :
    (q m : String) (xs : List (String × (String × ℕ))) (q' m' : String)
    → score_in (without q m xs) q' m' ≡ (if q == q' && m == m' then none else score_in xs q' m')
score-without q m [] q' m' = ground arith
score-without q m ((p, (n, t)) ∷ xs) q' m' = ground (
  arith,
  score-without q m xs q' m',
  eq_iff p q,
  eq_iff n m,
  eq_iff p q',
  eq_iff n m',
  eq_iff q q',
  eq_iff m m',
)

is_due-score : (o : Option ℕ) (t : ℕ) → is_due o t ≡ true → (u : ℕ) × (o ≡ some u) × (u ≤ t)
is_due-score none t h = cc
is_due-score (some u) t h = (u, refl, ground arith)

pub due-All :
    (s : Memory) (q : String) (t : ℕ) (xs : List (String × (String × ℕ))) (n : ℕ)
    → All (λ m. (u : ℕ) × (score_in s.members q m ≡ some u) × (u ≤ t)) (due s q t xs n)
due-All s q t xs zero = tt
due-All s q t [] (suc n) = tt
due-All s q t ((p, (m, u)) ∷ rest) (suc n) =
    elim (Bool-cases (p == q && is_due (score_in s.members q m) t)) [
      | inl e ↦ rw e (is_due-score (score_in s.members q m) t (ground arith), due-All s q t rest n)
      | inr e ↦ rw e (due-All s q t rest (suc n))
    ]

pub length-due :
    (s : Memory) (q : String) (t : ℕ) (xs : List (String × (String × ℕ))) (n : ℕ)
    → length (due s q t xs n) ≤ n
length-due s q t xs zero = ground arith
length-due s q t [] (suc n) = ground arith
length-due s q t ((p, (m, u)) ∷ rest) (suc n) =
    ground (arith, length-due s q t rest n, length-due s q t rest (suc n))

pub entry-deliver : (s : Memory) (k g : String) (o : Option ℕ) → entry (deliver s k g o).1 ≡ entry s
entry-deliver s k g none = refl
entry-deliver s k g (some i) = refl

pub members-deliver :
    (s : Memory) (k g : String) (o : Option ℕ) → (deliver s k g o).1.members ≡ s.members
members-deliver s k g none = refl
members-deliver s k g (some i) = refl

pub deliver-some :
    (s : Memory) (k g : String) (o : Option ℕ) (i : ℕ) (v : String)
    → (deliver s k g o).0 ≡ some (i, some v)
    → (entry s k i ≡ some v) × ((deliver s k g o).1.waits k g i ≡ true)
deliver-some s k g none i v h = cc
deliver-some s k g (some j) i v h =
    ground (arith, eq_iff k k, eq_iff g g, nat_beq_iff i i, nat_beq_iff j i)

pub listed :
    (s : Memory) (q : String) (t : ℕ) (xs : List (String × (String × ℕ))) (n : ℕ) (m : String)
    (u : ℕ)
    → is_due (score_in s.members q m) t ≡ true
    → score_in xs q m ≡ some u
    → length (due s q t xs n) < n
    → Any (λ b. b ≡ m) (due s q t xs n)
listed s q t xs zero m u ready there short = absurd (omega arith)
listed s q t [] (suc n) m u ready there short = cc
listed s q t ((p, (m', u')) ∷ rest) (suc n) m u ready there short =
    elim (Bool-cases (p == q && is_due (score_in s.members q m') t)) [
      | inl e ↦ rw e (here e (Bool-cases (m' == m)) (λ x y. listed s q t rest n m u ready x y))
      | inr e ↦ rw e (listed s q t rest (suc n) m u ready (beyond e) (ground arith))
    ]
  where
    beyond : (p == q && is_due (score_in s.members q m') t) ≡ false → score_in rest q m ≡ some u
    beyond e = ground (arith, eq_iff m' m)

    here :
        (p == q && is_due (score_in s.members q m') t) ≡ true
        → ((m' == m) ≡ true) ⊎ ((m' == m) ≡ false)
        → (score_in rest q m ≡ some u
            → length (due s q t rest n) < n
            → Any (λ b. b ≡ m) (due s q t rest n))
        → Any (λ b. b ≡ m) (m' ∷ due s q t rest n)
    here e (inl same) more = inl ((eq_iff m' m).0 same)
    here e (inr other) more = inr (more (ground arith) (ground arith))

first_new_waits :
    (s : Memory) (k g : String) (n i : ℕ) → first_new s k g n ≡ some i → s.waits k g i ≡ false
first_new_waits s k g zero i h = cc
first_new_waits s k g (suc n) i h = go (first_new s k g n) (first_new_waits s k g n i) h
  where
    go :
        (o : Option ℕ)
        → (o ≡ some i → s.waits k g i ≡ false)
        → (elim o as (λ _. Option ℕ) [
          | some j ↦ some j
          | none ↦ if is_some (entry s k n) && not (s.waits k g n) then some n else none
        ])
          ≡ some i
        → s.waits k g i ≡ false
    go (some j) before e = before e
    go none before e = ground (arith, nat_beq_iff n i)

pub deliver_new :
    (s : Memory) (k g : String) (n i : ℕ) (v : Option String)
    → (deliver s k g (first_new s k g n)).0 ≡ some (i, v)
    → s.waits k g i ≡ false
deliver_new s k g n i v h = go (first_new s k g n) refl h
  where
    go :
        (o : Option ℕ)
        → first_new s k g n ≡ o
        → (deliver s k g o).0 ≡ some (i, v)
        → s.waits k g i ≡ false
    go none e q = cc
    go (some j) e q = first_new_waits s k g n i (cc (e, q))

pub waits-deliver :
    (s : Memory) (k g : String) (o : Option ℕ) (k' g' : String) (i' : ℕ)
    → s.waits k' g' i' ≡ true
    → (deliver s k g o).1.waits k' g' i' ≡ true
waits-deliver s k g none k' g' i' h = h
waits-deliver s k g (some i) k' g' i' h = ground arith

abbrev pub memory : Broker
memory = record {
  State = Memory;
  entry = entry;
  pending = λ s. s.waits;
  score = λ s. score_in s.members;
  xgroup_create = λ k g s. (true, s);
  xadd = add_entry;
  xreadgroup = λ k g c s. deliver s k g (first_new s k g s.next_id);
  xack = λ k g i s. mark k g i false s;
  xdel = λ k i s. put k i none s;
  zadd = λ q t m s. record s { members = (q, (m, t)) ∷ without q m s.members };
  zrangebyscore = λ q t n s. due s q t s.members n;
  zrem = λ q m s. record s { members = without q m s.members };
  xadd_fresh = λ k v s. ground arith;
  entry-xadd = λ k v s j i. ground (arith, eq_iff k j, nat_beq_iff s.next_id i);
  score-xadd = λ k v s. refl;
  pending-xadd = λ k v s. refl;
  entry-xreadgroup = λ k g c s. entry-deliver s k g (first_new s k g s.next_id);
  score-xreadgroup = λ k g c s. rw (members-deliver s k g (first_new s k g s.next_id)) refl;
  xreadgroup_some = λ k g c s i v h. deliver-some s k g (first_new s k g s.next_id) i v h;
  entry-xack = λ k g i s. refl;
  score-xack = λ k g i s. refl;
  pending-xack = λ k g i s k' g' i'. refl;
  entry-xdel = λ k i s k' i'. ground (arith, eq_iff k k', nat_beq_iff i i');
  score-xdel = λ k i s. refl;
  pending-xdel = λ k i s. refl;
  entry-zadd = λ q t m s. refl;
  pending-zadd = λ q t m s. refl;
  score-zadd = λ q t m s q' m'. ground (arith, score-without q m s.members q' m');
  entry-zrem = λ q m s. refl;
  score-zrem = λ q m s q' m'. score-without q m s.members q' m';
  zrangebyscore_due = λ q t n s. due-All s q t s.members n;
  zrangebyscore_limit = λ q t n s. length-due s q t s.members n;
  zrangebyscore_all = λ q t n s m u there ready short.
      listed s q t s.members n m u (rw there (ground arith)) there short;
  xreadgroup_new = λ k g c s i v h. deliver_new s k g s.next_id i v h;
  pending-xreadgroup =
      λ k g c s k' g' i' h. waits-deliver s k g (first_new s k g s.next_id) k' g' i' h;
  pending-zrem = λ q m s. refl;
}
