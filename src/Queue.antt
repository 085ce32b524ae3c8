-- ===== src/Queue.antt =====
-- src/queue: the values of Redis replies that the queue reads, and the text in them. What Redis and
-- the UTF-8 decoder do is a parameter (`Codec`).
pub mod Streams
pub mod Worker
pub mod DeadLetter
use klass_mobile_backend.Prelude.{ℕ, String, ◌≡◌, Option, none, some, List, [], ◌∷◌}
use klass_mobile_backend.Prelude.Int.{ℤ}
use klass_mobile_backend.Prelude.Decimal.{show_int}

-- The decoder of bytes into text, and the bytes in which text travels: decoding gives it back.
pub record Codec : Type 0 where
  pub from_utf8_lossy : List ℕ → String
  pub bytes : String → List ℕ
  pub from_utf8_lossy-bytes : (s : String) → from_utf8_lossy (bytes s) ≡ s

-- `redis::Value`, with `other` for the cases that the code does not tell apart.
mutual
  pub data Value : Type 0 where
    array : Values → Value
    bulk_string : List ℕ → Value
    simple_string : String → Value
    int : ℤ → Value
    other : Value

  pub data Values : Type 0 where
    nil : Values
    cons : Value → Values → Values

module _ (C : Codec) where
  unfoldable pub value_to_str : Value → Option String
  value_to_str (bulk_string d) = some (C.from_utf8_lossy d)
  value_to_str (simple_string s) = some s
  value_to_str (int i) = some (show_int i)
  value_to_str _ = none

-- The fields of a stream entry, in order; the last of a name counts.
abbrev pub Fields : Type 0
Fields = List (String × String)
