-- ===== src/Tests/Otps.antt =====
-- Redis hashes in memory, and a hasher, that keep the laws of their interfaces.
use notification_server.Base.{
  ℕ, String, ◌+◌, ◌≡◌, refl, Bool, ◌&&◌, ◌||◌, true, Option, none, some, List, [], ◌∷◌, ◌==◌,
  string_eq, if◌then◌else◌, arith, eq_iff,
}
use Prim.Native.String.{◌++◌}
use notification_server.Store.Hashes.{Hashes, Value, number, lookup_field}
use notification_server.Security.Hash.{Crypto, matches, mismatch, Comparison}

abbrev pub Cells : Type 0
Cells = List (String × (String × Value))

abbrev pub get : Cells → String → String → Option Value
get [] k f = none
get ((j, (g, v)) ∷ rest) k f = if j == k && g == f then some v else get rest k f

abbrev pub write : String → List (String × Value) → Cells → Cells
write k [] s = s
write k ((f, v) ∷ fs) s = (k, (f, v)) ∷ write k fs s

abbrev pub fields_of : String → Cells → List (String × Value)
fields_of k [] = []
fields_of k ((j, fv) ∷ rest) = let more = fields_of k rest in if j == k then fv ∷ more else more

abbrev pub without_key : String → Cells → Cells
without_key k [] = []
without_key k ((j, fv) ∷ rest) =
    let kept = without_key k rest in if j == k then kept else (j, fv) ∷ kept

abbrev pub raised : String → String → ℕ → Option Value → Cells → Cells
raised k f n (some (number c)) s = (k, (f, number (c + n))) ∷ s
raised k f n _ s = (k, (f, number n)) ∷ s

pub get-write :
    (k : String) (fs : List (String × Value)) (s : Cells) (k' f : String)
    → get (write k fs s) k' f ≡ (if k == k' then lookup_field f fs (get s k' f) else get s k' f)
get-write k [] s k' f = ground arith
get-write k ((g, v) ∷ fs) s k' f = ground (arith, get-write k fs s k' f)

pub lookup-fields_of :
    (k : String) (s : Cells) (f : String) → lookup_field f (fields_of k s) none ≡ get s k f
lookup-fields_of k [] f = refl
lookup-fields_of k ((j, (g, v)) ∷ rest) f = ground (arith, lookup-fields_of k rest f)

pub get-without_key :
    (k : String) (s : Cells) (k' f : String)
    → get (without_key k s) k' f ≡ (if k == k' then none else get s k' f)
get-without_key k [] k' f = ground arith
get-without_key k ((j, (g, v)) ∷ rest) k' f =
    ground (arith, get-without_key k rest k' f, eq_iff j k, eq_iff j k', eq_iff k k')

abbrev pub otps : Hashes
otps = record {
  State = Cells;
  get = get;
  hset = write;
  hexpire = λ k t fs s. s;
  hgetall = fields_of;
  hincrby = λ k f n s. raised k f n (get s k f) s;
  del = without_key;
  get-hset = get-write;
  get-hexpire = λ k t fs s. refl;
  get-hgetall = lookup-fields_of;
  get-hincrby = λ k f n c s k' f' h. rw h refl;
  get-del = get-without_key;
}

abbrev pub compared_as_text : Bool → Comparison
compared_as_text true = matches
compared_as_text _ = mismatch

-- It hashes by a prefix, and takes a text without the prefix for a hash too.
abbrev pub crypto : Crypto
crypto = record {
  generate_from_password = λ cost salt p. some ("salted:" ++ p);
  compare_hash_and_password = λ h p. compared_as_text (h == p || h == ("salted:" ++ p));
  sum256 = λ p. p;
  compare-generate = λ cost salt p h made. ground (arith, eq_iff h ("salted:" ++ p));
}
