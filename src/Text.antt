-- ===== src/Text.antt =====
-- The streams of text of the C++ library, as far as the printing functions use them: a text is the
-- list of its characters, and a stream keeps the base, the fill and the width of what comes next.
pub mod Digits
pub mod Splits
pub mod Determines
use libstreetpass.Prelude.{
  ℕ, zero, suc, ◌+◌, ◌-◌, ◌/◌, ◌%◌, List, [], ◌∷◌, ◌++◌, Bool, true, false, ltb, length, replicate,
  if◌then◌else◌,
}
use Prim.Native.Char.{code}
use Prim.Native.String.{String}

-- The characters of a text; `String` has its own `[]` and `∷`.
abbrev pub codes : String → List ℕ
codes String.[] = []
codes (String.◌∷◌ c s) = code c ∷ codes s

pub record Stream : Type 0 where
  pub text : List ℕ
  pub base : ℕ
  pub fill : ℕ
  pub width : ℕ

-- std::stringstream, and std::cout before anything is set.
abbrev pub new_stream : Stream
new_stream = record { text = []; base = 10; fill = b' '; width = 0 }

abbrev pub set_hex : Stream → Stream
set_hex s = record s { base = 16 }

abbrev pub set_fill : ℕ → Stream → Stream
set_fill c s = record s { fill = c }

abbrev pub set_width : ℕ → Stream → Stream
set_width n s = record s { width = n }

-- A formatted output: filled up on the left to the width, which is then 0 again.
unfoldable pub put_text : List ℕ → Stream → Stream
put_text cs s = record s {
  text = s.text ++ (replicate (s.width - length cs) s.fill ++ cs);
  width = 0;
}

abbrev pub put : String → Stream → Stream
put literal s = put_text (codes literal) s

-- std::endl, which is not formatted.
abbrev pub end_line : Stream → Stream
end_line s = record s { text = s.text ++ b'\n' ∷ [] }

abbrev pub digit : ℕ → ℕ
digit k = if ltb k 10 then b'0' + k else b'a' - 10 + k

unfoldable pub digits : ℕ → ℕ → ℕ → List ℕ
digits zero base n = []
digits (suc fuel) base n = elim (ltb n base) [
  | true ↦ digit n ∷ []
  | false ↦ digits fuel base (n / base) ++ digit (n % base) ∷ []
]

-- A number of 32 bits has ten digits at most.
unfoldable pub put_number : ℕ → Stream → Stream
unfolding put_text
put_number n s = put_text (digits 10 s.base n) s
