-- ===== src/Wire/RoundTrip.antt =====
-- A struct's values and its byte image determine one another.
use mathlib.Core.List.{append_assoc}
use native.Mathlib.Nat.{pow-suc}
use Prim.Native.Nat.add
use mpmc_with_memory_managem.Base.{
  ℕ, zero, suc, ◌+◌, ◌*◌, ◌/◌, ◌%◌, ◌^◌, ◌<◌, ◌≡◌, refl, ap, List, [], ◌∷◌, ◌++◌, All, length, take,
  drop, replicate, arith, length-append, length-replicate, take_all, drop_all, All-append, All-take,
  All-drop, length-take, length-drop, ◌≤◌,
}
use mpmc_with_memory_managem.Wire.{
  IsByte, Field, int, chars, pad, Value, num, text, size, to_le, of_le, encode, decode, Fits,
}

pub length-to_le : (w n : ℕ) → length (to_le w n) ≡ w
unfolding to_le
length-to_le zero n = refl
length-to_le (suc w) n = ap suc (length-to_le w (n / 256))

to_le-IsByte : (w n : ℕ) → All IsByte (to_le w n)
unfolding to_le
to_le-IsByte zero n = tt
to_le-IsByte (suc w) n = (omega arith, to_le-IsByte w (n / 256))

zeros-IsByte : (k : ℕ) → All IsByte (replicate k 0)
zeros-IsByte zero = tt
zeros-IsByte (suc k) = (omega arith, zeros-IsByte k)

take-nil : {A : Type 0} (n : ℕ) → take {A = A} n [] ≡ []
take-nil zero = refl
take-nil (suc n) = refl

take-add : {A : Type 0} (m n : ℕ) (xs : List A) → take (m + n) xs ≡ take m xs ++ take n (drop m xs)
take-add zero n xs = rw add.zero
take-add (suc m) n [] = rw (add.suc, take-nil n)
take-add (suc m) n (x ∷ xs) = rw (add.suc, take-add m n xs)

pub of_le-to_le : (w n : ℕ) → n < 256 ^ w → of_le (to_le w n) ≡ n
unfolding to_le of_le
of_le-to_le zero n h = omega arith
of_le-to_le (suc w) n h = omega (arith, of_le-to_le w (n / 256) (omega (arith, pow-suc 256 w)))

low_digit : (x y : ℕ) → x < 256 → (x + 256 * y) % 256 ≡ x
low_digit x y h = omega arith

high_digits : (x y : ℕ) → x < 256 → (x + 256 * y) / 256 ≡ y
high_digits x y h = omega arith

pub to_le-of_le : (w : ℕ) (bs : List ℕ) → length bs ≡ w → All IsByte bs → to_le w (of_le bs) ≡ bs
unfolding to_le of_le
to_le-of_le zero [] h b = refl
to_le-of_le zero (x ∷ bs) h b = absurd (omega arith)
to_le-of_le (suc w) [] h b = absurd (omega arith)
to_le-of_le (suc w) (x ∷ bs) h b =
    rw
      (low_digit x (of_le bs) b.0, high_digits x (of_le bs) b.0, to_le-of_le w bs (omega arith) b.1)

pub of_le-lt : (bs : List ℕ) → All IsByte bs → of_le bs < 256 ^ length bs
unfolding of_le
of_le-lt [] b = omega arith
of_le-lt (x ∷ bs) b = omega (arith, of_le-lt bs b.1, pow-suc 256 (length bs))

-- Reading back what was written gives the values, whatever bytes follow.
pub decode-encode :
    (fs : List Field) (vs : List Value) (rest : List ℕ)
    → Fits fs vs
    → decode fs (encode fs vs ++ rest) ≡ vs
unfolding decode encode
decode-encode [] [] rest h = refl
decode-encode [] (v ∷ vs) rest h = absurd h
decode-encode (int w ∷ fs) [] rest h = absurd h
decode-encode (int w ∷ fs) (num n ∷ vs) rest h = rw (
  append_assoc,
  take_all (to_le w n) (encode fs vs ++ rest) w (length-to_le w n),
  drop_all (to_le w n) (encode fs vs ++ rest) w (length-to_le w n),
  of_le-to_le w n h.0,
  decode-encode fs vs rest h.1,
)
decode-encode (int w ∷ fs) (text cs ∷ vs) rest h = absurd h
decode-encode (chars k ∷ fs) [] rest h = absurd h
decode-encode (chars k ∷ fs) (num n ∷ vs) rest h = absurd h
decode-encode (chars k ∷ fs) (text cs ∷ vs) rest h = rw (
  append_assoc,
  take_all cs (encode fs vs ++ rest) k h.0,
  drop_all cs (encode fs vs ++ rest) k h.0,
  decode-encode fs vs rest h.2,
)
decode-encode (pad k ∷ fs) vs rest h = rw (
  append_assoc,
  drop_all (replicate k 0) (encode fs vs ++ rest) k (length-replicate k 0),
  decode-encode fs vs rest h,
)

-- An object's image has the size of its layout, and is made of bytes.
pub length-encode :
    (fs : List Field) (vs : List Value) → Fits fs vs → length (encode fs vs) ≡ size fs
unfolding encode
length-encode [] [] h = refl
length-encode [] (v ∷ vs) h = absurd h
length-encode (int w ∷ fs) [] h = absurd h
length-encode (int w ∷ fs) (num n ∷ vs) h =
    omega
      (arith, length-append (to_le w n) (encode fs vs), length-to_le w n, length-encode fs vs h.1)
length-encode (int w ∷ fs) (text cs ∷ vs) h = absurd h
length-encode (chars k ∷ fs) [] h = absurd h
length-encode (chars k ∷ fs) (num n ∷ vs) h = absurd h
length-encode (chars k ∷ fs) (text cs ∷ vs) h =
    omega (arith, length-append cs (encode fs vs), h.0, length-encode fs vs h.2)
length-encode (pad k ∷ fs) vs h = omega (
  arith,
  length-append (replicate k 0) (encode fs vs),
  length-replicate {A = ℕ} k 0,
  length-encode fs vs h,
)

of_le-take-lt : (w : ℕ) (bs : List ℕ) → w ≤ length bs → All IsByte bs → of_le (take w bs) < 256 ^ w
of_le-take-lt w bs h b =
    let e : length (take w bs) ≡ w = omega (arith, length-take w bs) in
    rw e at (of_le-lt (take w bs) (All-take IsByte w bs b))

-- Of enough bytes every layout reads an object's values.
pub decode-Fits :
    (fs : List Field) (bs : List ℕ) → size fs ≤ length bs → All IsByte bs → Fits fs (decode fs bs)
unfolding decode
decode-Fits [] bs h b = tt
decode-Fits (int w ∷ fs) bs h b = (
  of_le-take-lt w bs (omega arith) b,
  decode-Fits fs (drop w bs) (omega (arith, length-drop w bs)) (All-drop IsByte w bs b),
)
decode-Fits (chars k ∷ fs) bs h b = (
  omega (arith, length-take k bs),
  All-take IsByte k bs b,
  decode-Fits fs (drop k bs) (omega (arith, length-drop k bs)) (All-drop IsByte k bs b),
)
decode-Fits (pad k ∷ fs) bs h b =
    decode-Fits fs (drop k bs) (omega (arith, length-drop k bs)) (All-drop IsByte k bs b)

-- What an object's image is made of.
pub encode-IsByte : (fs : List Field) (vs : List Value) → Fits fs vs → All IsByte (encode fs vs)
unfolding encode
encode-IsByte [] [] h = tt
encode-IsByte [] (v ∷ vs) h = absurd h
encode-IsByte (int w ∷ fs) [] h = absurd h
encode-IsByte (int w ∷ fs) (num n ∷ vs) h =
    All-append IsByte (to_le w n) (encode fs vs) (to_le-IsByte w n) (encode-IsByte fs vs h.1)
encode-IsByte (int w ∷ fs) (text cs ∷ vs) h = absurd h
encode-IsByte (chars k ∷ fs) [] h = absurd h
encode-IsByte (chars k ∷ fs) (num n ∷ vs) h = absurd h
encode-IsByte (chars k ∷ fs) (text cs ∷ vs) h =
    All-append IsByte cs (encode fs vs) h.1 (encode-IsByte fs vs h.2)
encode-IsByte (pad k ∷ fs) vs h =
    All-append IsByte (replicate k 0) (encode fs vs) (zeros-IsByte k) (encode-IsByte fs vs h)

-- A layout with no padding.
abbrev pub Packed : List Field → Type 0
Packed [] = Unit
Packed (pad k ∷ fs) = ⊥
Packed (int w ∷ fs) = Packed fs
Packed (chars k ∷ fs) = Packed fs

-- Writing back what a packed layout read gives the bytes that it read.
pub encode-decode :
    (fs : List Field) (bs : List ℕ)
    → Packed fs
    → size fs ≤ length bs
    → All IsByte bs
    → encode fs (decode fs bs) ≡ take (size fs) bs
unfolding encode decode
encode-decode [] bs p h b = refl
encode-decode (int w ∷ fs) bs p h b = rw (
  to_le-of_le w (take w bs) (omega (arith, length-take w bs)) (All-take IsByte w bs b),
  encode-decode fs (drop w bs) p (omega (arith, length-drop w bs)) (All-drop IsByte w bs b),
  take-add w (size fs) bs,
)
encode-decode (chars k ∷ fs) bs p h b = rw (
  encode-decode fs (drop k bs) p (omega (arith, length-drop k bs)) (All-drop IsByte k bs b),
  take-add k (size fs) bs,
)
encode-decode (pad k ∷ fs) bs p h b = absurd p
