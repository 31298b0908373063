-- ===== src/Proto/ItchDecode/Framing.antt =====
-- A frame of length-prefixed messages is split into those messages; any frame is split within its
-- length.
use mpmc_with_memory_managem.Base.{
  ℕ, zero, suc, ◌+◌, ◌*◌, ◌/◌, ◌%◌, ◌^◌, ◌≤◌, ◌<◌, ◌≡◌, refl, ap, ◌∙◌, arith, Bool, true, false,
  ◌||◌, inl, inr, Bool-cases, Option, some, List, [], ◌∷◌, ◌++◌, All, length, length-append,
  length-drop, take_all, drop_all, take, drop, ltb, ◌==◌,
}
use mpmc_with_memory_managem.Proto.Frame.{Stats, stats_init, count}
use mpmc_with_memory_managem.Proto.ItchDecode.{itch_read_be16, itch_loop, split_itch_frame}

-- `[BE16 length][body]`
abbrev pub itch_message : List ℕ → List ℕ
itch_message body = length body / 256 ∷ length body % 256 ∷ body

abbrev pub itch_frame : List (List ℕ) → List ℕ
itch_frame [] = []
itch_frame (body ∷ bodies) = itch_message body ++ itch_frame bodies

abbrev pub IsBody : List ℕ → Type 0
IsBody body = (1 ≤ length body) × (length body < 2 ^ 16)

module _ {S : Type 0} (on_message : S → List ℕ → Bool × S) where
  -- The handler on one message after the other, and its answers counted.
  abbrev pub deliver : List (List ℕ) → Stats → S → Stats × S
  deliver [] stats s = (stats, s)
  deliver (body ∷ bodies) stats s =
      let r = on_message s body in deliver bodies (count r.0 stats) r.1

  -- `r` with this `consumed`.
  abbrev consuming : ℕ → Stats × S → Stats × S
  consuming n r = (record (r.0) { consumed = n }, r.1)

  itch_loop_frame :
      (fuel offset : ℕ) (bodies : List (List ℕ)) (stats : Stats) (s : S)
      → All IsBody bodies
      → length (itch_frame bodies) < fuel
      → itch_loop on_message fuel offset (itch_frame bodies) stats s
        ≡ some (consuming (offset + length (itch_frame bodies)) (deliver bodies stats s))
  unfolding itch_loop
  itch_loop_frame zero offset bodies stats s h f = absurd (omega arith)
  itch_loop_frame (suc fuel) offset [] stats s h f =
      ap (λ n. some (consuming n (stats, s))) (omega arith)
  itch_loop_frame (suc fuel) offset (body ∷ bodies) stats s h f =
      rw
        (
          is_length,
          more,
          take_all body (itch_frame bodies) (length body) refl,
          drop_all body (itch_frame bodies) (length body) refl,
        )
        (itch_loop_frame fuel (offset + 2 + length body) bodies (count (on_message s body).0 stats)
            (on_message s body).1 h.1 (omega (arith, size))
          ∙ ap (λ n. some (consuming n (deliver (body ∷ bodies) stats s))) (omega (arith, size)))
    where
      size : length (body ++ itch_frame bodies) ≡ length body + length (itch_frame bodies)
      size = length-append body (itch_frame bodies)

      is_length : itch_read_be16 (length body / 256) (length body % 256) ≡ length body
      is_length = let (lo, hi) = h.0 in omega arith

      more : (length body == 0 || ltb (length (body ++ itch_frame bodies)) (length body)) ≡ false
      more = let (lo, hi) = h.0 in ground (arith, size)

  -- A frame of messages of 1 to 65535 bytes, each after its big-endian length, is split into
  -- exactly those messages: the handler sees each in order, every answer is counted, and the whole
  -- frame is consumed.
  pub split_itch_frame_messages :
      (bodies : List (List ℕ)) (s : S)
      → All IsBody bodies
      → split_itch_frame on_message s (some (itch_frame bodies))
        ≡ some (consuming (length (itch_frame bodies)) (deliver bodies stats_init s))
  unfolding split_itch_frame
  split_itch_frame_messages bodies s h =
      itch_loop_frame (suc (length (itch_frame bodies))) 0 bodies stats_init s h (omega arith)
      ∙ ap (λ n. some (consuming n (deliver bodies stats_init s))) (omega arith)

  -- What a run of the loop over `n` bytes from `offset` adds to the counters.
  record Runs (n offset : ℕ) (before : Stats) (o : Option (Stats × S)) : Type 0 where
    result : Stats × S
    returns : o ≡ some result
    within : result.0.consumed ≤ offset + n
    counts :
        3 * (result.0.saved + result.0.skipped) + offset
        ≤ 3 * (before.saved + before.skipped) + result.0.consumed

  count_one :
      (b : Bool) (stats : Stats)
      → (count b stats).saved + (count b stats).skipped ≡ stats.saved + stats.skipped + 1
  count_one true stats = omega arith
  count_one false stats = omega arith

  itch_loop-Runs :
      (fuel offset : ℕ) (rest : List ℕ) (stats : Stats) (s : S)
      → length rest < fuel
      → Runs (length rest) offset stats (itch_loop on_message fuel offset rest stats s)
  unfolding itch_loop
  itch_loop-Runs zero offset rest stats s h = absurd (omega arith)
  itch_loop-Runs (suc fuel) offset [] stats s h = record {
    result = (record stats { consumed = offset }, s);
    returns = refl;
    within = omega arith;
    counts = omega arith;
  }
  itch_loop-Runs (suc fuel) offset (x ∷ []) stats s h = record {
    result = (record stats { consumed = offset }, s);
    returns = refl;
    within = omega arith;
    counts = omega arith;
  }
  itch_loop-Runs (suc fuel) offset (high ∷ low ∷ rest) stats s h =
      elim (Bool-cases (n == 0 || ltb (length rest) n)) [
        | inl e ↦ rw e (record {
          result = (record stats { consumed = offset + 2 }, s);
          returns = refl;
          within = omega arith;
          counts = omega arith;
        })
        | inr e ↦
            let ih =
              itch_loop-Runs fuel (offset + 2 + n) (drop n rest) (count r.0 stats) r.1
                (omega (arith, length-drop n rest)) in
            let room : (1 ≤ n) × (n ≤ length rest) = (ground (arith, e), ground (arith, e)) in
            rw e (record {
              result = ih.result;
              returns = ih.returns;
              within = omega (arith, ih.within, length-drop n rest, room.1);
              counts = omega (arith, ih.counts, count_one r.0 stats, room.0);
            })
      ]
    where
      n : ℕ
      n = itch_read_be16 high low

      r : Bool × S
      r = on_message s (take n rest)

  -- On any frame and with any handler `split_itch_frame` returns, has consumed no more than the
  -- frame, and has counted at most one message for three bytes consumed.
  pub split_itch_frame_bounded :
      (frame : List ℕ) (s : S)
      → (r : Stats × S) × (split_itch_frame on_message s (some frame) ≡ some r)
        × (r.0.consumed ≤ length frame)
        × (3 * (r.0.saved + r.0.skipped) ≤ r.0.consumed)
  unfolding split_itch_frame
  split_itch_frame_bounded frame s =
      let run = itch_loop-Runs (suc (length frame)) 0 frame stats_init s (omega arith) in
      (run.result, run.returns, omega (arith, run.within), omega (arith, run.counts))
