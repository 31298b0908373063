-- ===== src/Codec/Copy.antt =====
-- A codec that copies: it meets what is asked of LZ4.
use mathlib.Core.List.{append-nil}
use mpmc_with_memory_managem.Base.{
  ℕ, suc, ◌≤◌, ◌≡◌, sym, ap, ◌∙◌, arith, true, inl, inr, Bool-cases, List, [], length, take,
  take_all, leb, if◌then◌else◌,
}
use mpmc_with_memory_managem.Base.Int.{ℤ, pos, negsuc}
use mpmc_with_memory_managem.Codec.{Call}
use mpmc_with_memory_managem.Codec.RoundTrip.{IsLz4}

unfoldable pub copy : Call
copy source size (pos capacity) =
    if leb (length source) capacity then (pos (length source), source) else (negsuc 0, [])
copy source size (negsuc n) = (negsuc 0, [])

copies :
    (source out : List ℕ) (capacity n : ℕ) (size : ℤ)
    → copy source size (pos capacity) ≡ (pos (suc n), out)
    → (length source ≤ capacity) × (length source ≡ suc n) × (source ≡ out)
unfolding copy
copies source out capacity n size e = elim (Bool-cases (leb (length source) capacity)) [
  | inl fits ↦
      let e' : ◌≡◌ {A = ℤ × List ℕ} (pos (length source), source) (pos (suc n), out) =
        rw fits at e in
      (ground (arith, fits), ground (arith, e'), ground (arith, e'))
  | inr big ↦
      let e' : ◌≡◌ {A = ℤ × List ℕ} (negsuc 0, []) (pos (suc n), out) = rw big at e in
      absurd (ground (arith, e'))
]

copy_back :
    (source : List ℕ) (size : ℤ) (room : ℕ)
    → length source ≤ room
    → copy source size (pos room) ≡ (pos (length source), source)
unfolding copy
copy_back source size room h =
    let fits : leb (length source) room ≡ true = ground arith in rw (fits, copy)

took_all : (xs : List ℕ) (n : ℕ) → length xs ≡ n → take n xs ≡ xs
took_all xs n e = ap (take n) (sym (append-nil xs)) ∙ take_all xs [] n e

pub copy-IsLz4 : IsLz4 copy copy
copy-IsLz4 = record {
  fits = λ source capacity n out e.
      let (within, size, same) = copies source out capacity n _ e in omega (arith, within, size);
  written = λ source capacity n out e.
      let (within, size, same) = copies source out capacity n _ e in
      ap length (took_all out (suc n) (ap length (sym same) ∙ size)) ∙ ap length (sym same) ∙ size;
  inverse = λ source capacity n out e room enough.
      let (within, size, same) = copies source out capacity n _ e in
      (
        [],
        ap (λ xs. copy xs (pos (suc n)) (pos room))
              (took_all out (suc n) (ap length (sym same) ∙ size) ∙ sym same)
            ∙ copy_back source (pos (suc n)) room enough
            ∙ ap (λ xs. (pos (length source), xs)) (sym (append-nil source)),
      );
}
