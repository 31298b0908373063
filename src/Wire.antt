-- ===== src/Wire.antt =====
-- The byte image of a packed struct, as `std::memcpy` reads and writes it on the little-endian
-- targets of include/core/arch.hpp: a layout is the list of the struct's members in order.
pub mod RoundTrip
pub mod Struct
pub mod Fits
use mpmc_with_memory_managem.Base.{
  ℕ, zero, suc, ◌+◌, ◌*◌, ◌/◌, ◌%◌, ◌^◌, ◌<◌, ◌≡◌, List, [], ◌∷◌, ◌++◌, All, length, take, drop,
  replicate,
}

abbrev pub IsByte : ℕ → Type 0
IsByte b = b < 256

-- An integer of `w` bytes (a signed one by its two's complement pattern, a double by its IEEE
-- pattern), a `char` array, or the padding that the compiler adds for alignment.
pub data Field : Type 0 where
  int : ℕ → Field
  chars : ℕ → Field
  pad : ℕ → Field

pub data Value : Type 0 where
  num : ℕ → Value
  text : List ℕ → Value

abbrev pub width : Field → ℕ
width (int w) = w
width (chars n) = n
width (pad n) = n

-- `sizeof` of a struct with this layout.
abbrev pub size : List Field → ℕ
size [] = 0
size (f ∷ fs) = width f + size fs

-- The `w` lowest bytes of `n`, lowest first.
unfoldable pub to_le : ℕ → ℕ → List ℕ
to_le zero n = []
to_le (suc w) n = n % 256 ∷ to_le w (n / 256)

unfoldable pub of_le : List ℕ → ℕ
of_le [] = 0
of_le (b ∷ bs) = b + 256 * of_le bs

-- The bytes of an object. Padding takes no value, and is written as zeros.
unfoldable pub encode : List Field → List Value → List ℕ
unfolding to_le
encode (pad n ∷ fs) vs = replicate n 0 ++ encode fs vs
encode (int w ∷ fs) (num n ∷ vs) = to_le w n ++ encode fs vs
encode (chars k ∷ fs) (text cs ∷ vs) = cs ++ encode fs vs
encode _ _ = []

-- The member values that the bytes stand for; what follows them is not read.
unfoldable pub decode : List Field → List ℕ → List Value
unfolding of_le
decode [] bs = []
decode (int w ∷ fs) bs = num (of_le (take w bs)) ∷ decode fs (drop w bs)
decode (chars n ∷ fs) bs = text (take n bs) ∷ decode fs (drop n bs)
decode (pad n ∷ fs) bs = decode fs (drop n bs)

-- The value of member `i`.
abbrev pub int_at : ℕ → List Value → ℕ
int_at i [] = 0
int_at zero (num n ∷ vs) = n
int_at zero (text cs ∷ vs) = 0
int_at (suc i) (v ∷ vs) = int_at i vs

abbrev pub text_at : ℕ → List Value → List ℕ
text_at i [] = []
text_at zero (num n ∷ vs) = []
text_at zero (text cs ∷ vs) = cs
text_at (suc i) (v ∷ vs) = text_at i vs

-- The values are those of an object of the struct: integers in range, arrays of their length.
abbrev pub Fits : List Field → List Value → Type 0
Fits [] [] = Unit
Fits (int w ∷ fs) (num n ∷ vs) = (n < 256 ^ w) × Fits fs vs
Fits (chars k ∷ fs) (text cs ∷ vs) = (length cs ≡ k) × All IsByte cs × Fits fs vs
Fits (pad k ∷ fs) vs = Fits fs vs
Fits _ _ = ⊥
