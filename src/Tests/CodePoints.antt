-- ===== src/Tests/CodePoints.antt =====
-- A codec for the tests: a text travels as its code points, and a number that is no code point is
-- decoded to U+0000.
use Prim.Native.Nat.{ℕ, compare, Ordering}
use Prim.Native.Char.{Char, char, code, nul, IsLt}
use Prim.Native.String.{String, [], ◌∷◌}
use mathlib.Core.Path.{◌≡◌, refl, ap₂}
use mathlib.Core.List
use text.Mathlib.TextEquality.{Char-path}
use klass_mobile_backend.Prelude.Decimal.{codes}
use klass_mobile_backend.Queue.{Codec}

abbrev pub Both : Ordering → Ordering → Type 0
Both Ordering.lt o = IsLt o
Both Ordering.eq _ = ⊥
Both Ordering.gt _ = ⊥

abbrev pub Table : Ordering → Ordering → Ordering → Type 0
Table Ordering.lt _ _ = Unit
Table Ordering.eq o p = Both o p
Table Ordering.gt o p = Both o p

abbrev pub pick : (n : ℕ) (a b c : Ordering) → (Table a b c → Char) → Char
pick n Ordering.lt b c make = make tt
pick n Ordering.eq Ordering.lt Ordering.lt make = make tt
pick n Ordering.gt Ordering.lt Ordering.lt make = make tt
pick n _ _ _ make = nul

abbrev pub of_code : ℕ → Char
of_code n = pick n (compare n 55296) (compare 57343 n) (compare n 1114112) (char n)

code-pick :
    (n : ℕ) (a b c : Ordering) (make : Table a b c → Char)
    → ((t : Table a b c) → code (make t) ≡ n)
    → Table a b c
    → code (pick n a b c make) ≡ n
code-pick n Ordering.lt b c make h t = h tt
code-pick n Ordering.eq Ordering.lt Ordering.lt make h t = h tt
code-pick n Ordering.gt Ordering.lt Ordering.lt make h t = h tt
code-pick n Ordering.eq Ordering.lt Ordering.eq make h t = absurd t
code-pick n Ordering.eq Ordering.lt Ordering.gt make h t = absurd t
code-pick n Ordering.eq Ordering.eq c make h t = absurd t
code-pick n Ordering.eq Ordering.gt c make h t = absurd t
code-pick n Ordering.gt Ordering.lt Ordering.eq make h t = absurd t
code-pick n Ordering.gt Ordering.lt Ordering.gt make h t = absurd t
code-pick n Ordering.gt Ordering.eq c make h t = absurd t
code-pick n Ordering.gt Ordering.gt c make h t = absurd t

of_code-code : (c : Char) → of_code (code c) ≡ c
of_code-code (char n p) =
    Char-path _ _
      (code-pick n (compare n 55296) (compare 57343 n) (compare n 1114112) (char n) (λ t. refl) p)

abbrev pub decode : List.List ℕ → String
decode List.[] = []
decode (List.◌∷◌ n ns) = of_code n ∷ decode ns

pub decode-codes : (s : String) → decode (codes s) ≡ s
decode-codes [] = refl
decode-codes (c ∷ s) = ap₂ ◌∷◌ (of_code-code c) (decode-codes s)

abbrev pub code_points : Codec
code_points = record {
  from_utf8_lossy = decode;
  bytes = codes;
  from_utf8_lossy-bytes = decode-codes;
}
