-- ===== src/Mem/Batches.antt =====
-- src/mem.rs: the loop over batches of pages makes progress and reaches the end of the range.
use neohook.Base.{
  ℕ, zero, suc, ◌+◌, ◌-◌, ◌*◌, ◌/◌, ◌^◌, ◌<◌, ◌≤◌, ◌≡◌, sym, subst, inl, inr, Bool, true, false,
  ltb, if_true, if_false, Bool-cases, arith,
}
use neohook.Base.Bits.{bit_and_align}
use neohook.Mem.{page_of, batch_end, unless_stopped, page_batches, page_size}

pub page_of_lem : (addr : ℕ) → addr < 2 ^ 64 → page_of addr ≡ addr / page_size * page_size
unfolding page_of
page_of_lem addr fits = bit_and_align 12 addr (omega arith) fits

pub batch_end_after :
    (chunk end_of : ℕ) → chunk < end_of → end_of < 2 ^ 64 → chunk < batch_end chunk end_of
unfolding batch_end
batch_end_after chunk end_of lt fits = ground (arith, page_of_lem chunk (omega arith))

pub batch_end_within : (chunk end_of : ℕ) → batch_end chunk end_of ≤ end_of
unfolding batch_end
batch_end_within chunk end_of = omega arith

-- `P` holds at this place after a round that goes on, and `Q` after one that stops the loop.
unfoldable pub Stage : {S : Type 0} → (ℕ → S → Type 0) → (S → Type 0) → ℕ → Bool × S → Type 0
Stage P Q place (true, s) = P place s
Stage P Q place (false, s) = Q s

module _ {S : Type 0} (P : ℕ → S → Type 0) (Q : S → Type 0) (f : ℕ → ℕ → S → Bool × S) (end_of : ℕ)
    (fits : end_of < 2 ^ 64)
    (step : (chunk next : ℕ) (s : S)
      → chunk < next
      → next ≤ end_of
      → P chunk s
      → Stage P Q next (f chunk (next - chunk) s)) where
  unless_stopped-Stage :
      (fuel next : ℕ) (r : Bool × S)
      → ((s : S) → P next s → Stage P Q end_of (page_batches f fuel next end_of s))
      → Stage P Q next r
      → Stage P Q end_of (unless_stopped r (page_batches f fuel next end_of))
  unfolding Stage unless_stopped
  unless_stopped-Stage fuel next (true, s) later p = later s p
  unless_stopped-Stage fuel next (false, s) later q = q

  at_end : (chunk : ℕ) (s : S) → chunk ≡ end_of → P chunk s → Stage P Q end_of (true, s)
  unfolding Stage
  at_end chunk s e p = subst (λ n. P n s) e p

  -- With fuel for a byte a round, the loop stops at the end of the range or where a round says so.
  pub page_batches-Stage :
      (fuel chunk : ℕ) (s : S)
      → end_of ≤ chunk + fuel
      → chunk ≤ end_of
      → P chunk s
      → Stage P Q end_of (page_batches f fuel chunk end_of s)
  unfolding page_batches
  page_batches-Stage zero chunk s enough le p = at_end chunk s (omega arith) p
  page_batches-Stage (suc fuel) chunk s enough le p = elim (Bool-cases (ltb chunk end_of)) [
    | inr past ↦
        subst (Stage P Q end_of) (sym (if_false _ _ past)) (at_end chunk s (ground arith) p)
    | inl inside ↦
        let next = batch_end chunk end_of in
        let lt = batch_end_after chunk end_of (ground arith) fits in
        subst (Stage P Q end_of) (sym (if_true _ _ inside)) (
          unless_stopped-Stage fuel next (f chunk (next - chunk) s)
            (λ t q.
              page_batches-Stage fuel next t (omega (arith, lt)) (batch_end_within chunk end_of) q)
            (step chunk next s lt (batch_end_within chunk end_of) p))
  ]
