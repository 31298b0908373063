-- ===== src/Wire/Fits.antt =====
-- A test of the ranges of an object's members.
use mpmc_with_memory_managem.Base.{
  ℕ, ◌^◌, ◌≡◌, refl, arith, Bool, true, false, ◌&&◌, List, [], ◌∷◌, All, length, ltb, ◌==◌,
}
use mpmc_with_memory_managem.Wire.{IsByte, Field, int, chars, pad, Value, num, text, Fits}
use mpmc_with_memory_managem.Wire.Struct.{Struct, IsObject}

abbrev pub are_bytes : List ℕ → Bool
are_bytes [] = true
are_bytes (b ∷ bs) = ltb b 256 && are_bytes bs

abbrev pub fits : List Field → List Value → Bool
fits [] [] = true
fits (int w ∷ fs) (num n ∷ vs) = ltb n (256 ^ w) && fits fs vs
fits (chars k ∷ fs) (text cs ∷ vs) = (length cs == k) && (are_bytes cs && fits fs vs)
fits (pad k ∷ fs) vs = fits fs vs
fits _ _ = false

first : (a b : Bool) → (a && b) ≡ true → a ≡ true
first true b h = refl
first false b h = h

second : (a b : Bool) → (a && b) ≡ true → b ≡ true
second true b h = h
second false b h = absurd cc

are_bytes-IsByte : (bs : List ℕ) → are_bytes bs ≡ true → All IsByte bs
are_bytes-IsByte [] h = tt
are_bytes-IsByte (b ∷ bs) h =
    let byte = first (ltb b 256) (are_bytes bs) h in
    (ground arith, are_bytes-IsByte bs (second (ltb b 256) (are_bytes bs) h))

fits-Fits : (fs : List Field) (vs : List Value) → fits fs vs ≡ true → Fits fs vs
fits-Fits [] [] h = tt
fits-Fits [] (v ∷ vs) h = absurd cc
fits-Fits (int w ∷ fs) [] h = absurd cc
fits-Fits (int w ∷ fs) (num n ∷ vs) h =
    let small = first (ltb n (256 ^ w)) (fits fs vs) h in
    (ground arith, fits-Fits fs vs (second (ltb n (256 ^ w)) (fits fs vs) h))
fits-Fits (int w ∷ fs) (text cs ∷ vs) h = absurd cc
fits-Fits (chars k ∷ fs) [] h = absurd cc
fits-Fits (chars k ∷ fs) (num n ∷ vs) h = absurd cc
fits-Fits (chars k ∷ fs) (text cs ∷ vs) h =
    let size = first (length cs == k) (are_bytes cs && fits fs vs) h in
    let rest = second (length cs == k) (are_bytes cs && fits fs vs) h in
    (
      ground arith,
      are_bytes-IsByte cs (first (are_bytes cs) (fits fs vs) rest),
      fits-Fits fs vs (second (are_bytes cs) (fits fs vs) rest),
    )
fits-Fits (pad k ∷ fs) vs h = fits-Fits fs vs h

-- An object whose members pass the test is in range.
pub checked :
    {A : Type 0} ⦃r : Struct A⦄ (s : A) → fits r.layout (r.to_values s) ≡ true → IsObject s
checked ⦃r⦄ s h = fits-Fits r.layout (r.to_values s) h
