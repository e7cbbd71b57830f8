-- ===== src/Store/Hashes.antt =====
-- Redis hashes, which hold the one-time passwords: a parameter with its documented behaviour.
use notification_server.Base.{
  ℕ, String, ◌+◌, ◌≡◌, ◌&&◌, Option, none, some, List, [], ◌∷◌, ◌==◌, string_eq, if◌then◌else◌,
}

-- A value that was written as a number is text for Redis, and `Atoi` reads it back.
pub data Value : Type 0 where
  string : String → Value
  number : ℕ → Value

abbrev pub lookup_field : String → List (String × Value) → Option Value → Option Value
lookup_field f [] d = d
lookup_field f ((g, v) ∷ rest) d = if g == f then some v else lookup_field f rest d

pub record Hashes : Type 1 where
  pub State : Type 0
  pub get : State → String → String → Option Value
  pub hset : String → List (String × Value) → State → State
  -- key, seconds, fields
  pub hexpire : String → ℕ → List String → State → State
  pub hgetall : String → State → List (String × Value)
  pub hincrby : String → String → ℕ → State → State
  pub del : String → State → State
  pub get-hset :
      (k : String) (fs : List (String × Value)) (s : State) (k' f : String)
      → get (hset k fs s) k' f ≡ (if k == k' then lookup_field f fs (get s k' f) else get s k' f)
  -- fields that will expire are still there
  pub get-hexpire :
      (k : String) (t : ℕ) (fs : List String) (s : State) → get (hexpire k t fs s) ≡ get s
  pub get-hgetall :
      (k : String) (s : State) (f : String) → lookup_field f (hgetall k s) none ≡ get s k f
  pub get-hincrby :
      (k f : String) (n c : ℕ) (s : State) (k' f' : String)
      → get s k f ≡ some (number c)
      → get (hincrby k f n s) k' f'
        ≡ (if k == k' && f == f' then some (number (c + n)) else get s k' f')
  pub get-del :
      (k : String) (s : State) (k' f : String)
      → get (del k s) k' f ≡ (if k == k' then none else get s k' f)
