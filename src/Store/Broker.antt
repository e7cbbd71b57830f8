-- ===== src/Store/Broker.antt =====
-- Redis streams and sorted sets, which the queue relies on. Redis is not part of the program: its
-- commands are a parameter, with their documented behaviour as laws over what can be observed.
use notification_server.Base.{
  ℕ, String, ◌≤◌, ◌≡◌, Bool, true, false, ◌&&◌, Option, none, some, List, ◌==◌, nat_eq, string_eq,
  if◌then◌else◌, length, All, Any, ◌<◌,
}

pub record Broker : Type 1 where
  pub State : Type 0
  -- stream, id ↦ the value under the key "payload"
  pub entry : State → String → ℕ → Option String
  -- stream, group, id: delivered to a consumer of the group and not acknowledged
  pub pending : State → String → String → ℕ → Bool
  -- sorted set, member ↦ its score
  pub score : State → String → String → Option ℕ
  -- `false` stands for the error BUSYGROUP
  pub xgroup_create : String → String → State → Bool × State
  pub xadd : String → String → State → ℕ × State
  -- stream, group, and the number in the consumer's name "workerId:%d"; an entry may lack the key "payload"
  pub xreadgroup : String → String → ℕ → State → Option (ℕ × Option String) × State
  pub xack : String → String → ℕ → State → State
  pub xdel : String → ℕ → State → State
  -- sorted set, score, member
  pub zadd : String → ℕ → String → State → State
  -- sorted set, greatest score, greatest number of members
  pub zrangebyscore : String → ℕ → ℕ → State → List String
  pub zrem : String → String → State → State
  -- XADD with the id `*` makes a new id.
  pub xadd_fresh : (k v : String) (s : State) → entry s k (xadd k v s).0 ≡ none
  pub entry-xadd :
      (k v : String) (s : State) (j : String) (i : ℕ)
      → entry (xadd k v s).1 j i ≡ (if k == j && (xadd k v s).0 == i then some v else entry s j i)
  pub score-xadd : (k v : String) (s : State) → score (xadd k v s).1 ≡ score s
  pub pending-xadd : (k v : String) (s : State) → pending (xadd k v s).1 ≡ pending s
  -- XREADGROUP leaves the stream as it is, and what it delivers is pending.
  pub entry-xreadgroup : (k g : String) (c : ℕ) (s : State) → entry (xreadgroup k g c s).1 ≡ entry s
  pub score-xreadgroup : (k g : String) (c : ℕ) (s : State) → score (xreadgroup k g c s).1 ≡ score s
  pub xreadgroup_some :
      (k g : String) (c : ℕ) (s : State) (i : ℕ) (v : String)
      → (xreadgroup k g c s).0 ≡ some (i, some v)
      → (entry s k i ≡ some v) × (pending (xreadgroup k g c s).1 k g i ≡ true)
  pub entry-xack : (k g : String) (i : ℕ) (s : State) → entry (xack k g i s) ≡ entry s
  pub score-xack : (k g : String) (i : ℕ) (s : State) → score (xack k g i s) ≡ score s
  pub pending-xack :
      (k g : String) (i : ℕ) (s : State) (k' g' : String) (i' : ℕ)
      → pending (xack k g i s) k' g' i'
        ≡ (if k == k' && (g == g' && i == i') then false else pending s k' g' i')
  pub entry-xdel :
      (k : String) (i : ℕ) (s : State) (k' : String) (i' : ℕ)
      → entry (xdel k i s) k' i' ≡ (if k == k' && i == i' then none else entry s k' i')
  pub score-xdel : (k : String) (i : ℕ) (s : State) → score (xdel k i s) ≡ score s
  pub pending-xdel : (k : String) (i : ℕ) (s : State) → pending (xdel k i s) ≡ pending s
  pub entry-zadd : (q : String) (t : ℕ) (m : String) (s : State) → entry (zadd q t m s) ≡ entry s
  pub pending-zadd :
      (q : String) (t : ℕ) (m : String) (s : State) → pending (zadd q t m s) ≡ pending s
  pub score-zadd :
      (q : String) (t : ℕ) (m : String) (s : State) (q' m' : String)
      → score (zadd q t m s) q' m' ≡ (if q == q' && m == m' then some t else score s q' m')
  pub entry-zrem : (q m : String) (s : State) → entry (zrem q m s) ≡ entry s
  pub score-zrem :
      (q m : String) (s : State) (q' m' : String)
      → score (zrem q m s) q' m' ≡ (if q == q' && m == m' then none else score s q' m')
  pub zrangebyscore_due :
      (q : String) (t n : ℕ) (s : State)
      → All (λ m. (u : ℕ) × (score s q m ≡ some u) × (u ≤ t)) (zrangebyscore q t n s)
  pub zrangebyscore_limit : (q : String) (t n : ℕ) (s : State) → length (zrangebyscore q t n s) ≤ n
  -- Where fewer come back than were asked for, they are all that there are.
  pub zrangebyscore_all :
      (q : String) (t n : ℕ) (s : State) (m : String) (u : ℕ)
      → score s q m ≡ some u
      → u ≤ t
      → length (zrangebyscore q t n s) < n
      → Any (λ b. b ≡ m) (zrangebyscore q t n s)
  -- The id ">" asks for what was not delivered to the group yet, and what waits for its
  -- acknowledgement goes on to wait.
  pub xreadgroup_new :
      (k g : String) (c : ℕ) (s : State) (i : ℕ) (v : Option String)
      → (xreadgroup k g c s).0 ≡ some (i, v)
      → pending s k g i ≡ false
  pub pending-xreadgroup :
      (k g : String) (c : ℕ) (s : State) (k' g' : String) (i' : ℕ)
      → pending s k' g' i' ≡ true
      → pending (xreadgroup k g c s).1 k' g' i' ≡ true
  pub pending-zrem : (q m : String) (s : State) → pending (zrem q m s) ≡ pending s
