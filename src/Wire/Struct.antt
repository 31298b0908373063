-- ===== src/Wire/Struct.antt =====
-- `std::memcpy` between an object and its bytes, for any struct that is described by its layout.
use mpmc_with_memory_managem.Base.{ℕ, List, ◌++◌, ◌≡◌, All, length, ap, ◌∙◌}
use mpmc_with_memory_managem.Wire.{Field, Value, IsByte, size, encode, decode, Fits}
use mpmc_with_memory_managem.Wire.RoundTrip.{decode-encode, length-encode, encode-IsByte}

-- How a struct's members are laid out, and how its objects are made of their values.
pub record Struct (A : Type 0) : Type 0 where
  pub layout : List Field
  pub to_values : A → List Value
  pub of_values : List Value → A
  pub of_values-to_values : (s : A) → of_values (to_values s) ≡ s

-- `sizeof(A)`
abbrev pub size_of : (A : Type 0) ⦃r : Struct A⦄ → ℕ
size_of A ⦃r⦄ = size r.layout

module _ {A : Type 0} ⦃r : Struct A⦄ where
  -- The object's members are in range.
  abbrev pub IsObject : A → Type 0
  IsObject s = Fits r.layout (r.to_values s)

  -- `memcpy(dst, &s, sizeof(s))`
  unfoldable pub store : A → List ℕ
  store s = encode r.layout (r.to_values s)

  -- `memcpy(&s, src, sizeof(s))`
  unfoldable pub load : List ℕ → A
  load bs = r.of_values (decode r.layout bs)

  pub load-store : (s : A) (rest : List ℕ) → IsObject s → load (store s ++ rest) ≡ s
  unfolding load store
  load-store s rest h =
      ap r.of_values (decode-encode r.layout (r.to_values s) rest h) ∙ r.of_values-to_values s

  pub length-store : (s : A) → IsObject s → length (store s) ≡ size r.layout
  unfolding store
  length-store s h = length-encode r.layout (r.to_values s) h

  pub store-IsByte : (s : A) → IsObject s → All IsByte (store s)
  unfolding store
  store-IsByte s h = encode-IsByte r.layout (r.to_values s) h
