-- ===== src/Tests/Transfer.antt =====
-- A scatter-gather transfer that can be run, and tasks of one page block on the DPUs.
use meta_pb.Common.{
  ℕ, ◌+◌, ◌-◌, ◌*◌, ◌/◌, ◌%◌, ◌<◌, ◌≡◌, ◌≢◌, refl, sym, ap, ap₂, if_true, if_false, ◌∙◌, Option,
  none, some, arith, if◌then◌else◌, leb, ltb, ◌&&◌,
}
use meta_pb.Operator.Memory.{Memory, word_index, parallel}
use meta_pb.Operator.Memory.Writers.{Off, IsFilled, parallel_inside, parallel_outside}
use meta_pb.Operator.Transfer.{GetBlock, IsPaged, Separate, Mrams, SgXfer, SgLaws}
use meta_pb.Tests.Schedules.{countdown, countdown-IsSchedule}

-- A page of a block, if there is one, in place of the words there.
copy_in : Option (ℕ × ℕ) → Memory → ℕ → Memory → Memory
copy_in none source from target = target
copy_in (some (address, bytes)) source from target = λ a.
    if leb (word_index address) a && ltb a (word_index address + 1024)
    then source (from + (a - word_index address))
    else target a

-- A word of a block, if there is one.
copy_out : Option (ℕ × ℕ) → ℕ → Memory → ℕ → ℕ
copy_out none i host old = old
copy_out (some (address, bytes)) i host old = host (word_index address + i)

to_dpu : GetBlock → ℕ → ℕ → Memory → Mrams → Mrams
to_dpu blocks offset length host mrams d a =
    let i = a - word_index offset in
    if leb (word_index offset) a && ltb i (length / 4)
    then copy_out (blocks d (i / 1024)) (i % 1024) host (mrams d a)
    else mrams d a

-- Page `k` is block `k / 2530` of DPU `k % 2530`.
put_page : GetBlock → ℕ → Mrams → ℕ → Memory → Memory
put_page blocks offset mrams k host =
    copy_in (blocks (k % 2530) (k / 2530)) (mrams (k % 2530))
      (word_index offset + 1024 * (k / 2530)) host

from_dpu : GetBlock → ℕ → ℕ → Mrams → Memory → Memory
from_dpu blocks offset length mrams host =
    parallel (countdown (2530 * (length / 4096))) (put_page blocks offset mrams) host

pub word_copy : SgXfer
word_copy = record { to_dpu = to_dpu; from_dpu = from_dpu }

copy_in-IsFilled :
    (address bytes from : ℕ) (source target : Memory)
    → IsFilled
        (word_index address)
        1024
        (λ i. source (from + i))
        target
        (copy_in (some (address, bytes)) source from target)
unfolding copy_in
copy_in-IsFilled address bytes from source target = record {
  inside = λ i h. ground arith;
  outside = λ a h. ground arith;
}

module _ (blocks : GetBlock) (offset length n : ℕ) (address : ℕ → ℕ → ℕ) (mrams : Mrams)
    (host : Memory) (paged : IsPaged blocks length n address) (separate : Separate n address) where
  slot : ℕ → ℕ
  slot k = word_index (address (k % 2530) (k / 2530))

  value : Memory → ℕ → ℕ → ℕ
  value m k i = mrams (k % 2530) (word_index offset + 1024 * (k / 2530) + i)

  page_fills :
      (k : ℕ)
      → k < 2530 * n
      → (m : Memory) → IsFilled (slot k) 1024 (value m k) m (put_page blocks offset mrams k m)
  unfolding put_page slot value
  page_fills k h m =
      rw (paged.block (k % 2530) (k / 2530) (omega arith) (omega (arith, h)))
        (copy_in-IsFilled _ _ _ (mrams (k % 2530)) m)

  pages_apart :
      (k k' i : ℕ)
      → k < 2530 * n
      → k' < 2530 * n
      → k ≢ k'
      → i < 1024
      → Off (slot k) 1024 (slot k' + i)
  unfolding slot
  pages_apart k k' i p q ne h =
      separate (k % 2530) (k / 2530) (k' % 2530) (k' / 2530) i (omega arith) (omega (arith, p))
        (omega arith) (omega (arith, q)) (omega (arith, ne)) h

  page_count : length / 4096 ≡ n
  page_count = omega (arith, paged.whole)

  from_page :
      (d b i : ℕ)
      → d < 2530
      → b < n
      → i < 1024
      → from_dpu blocks offset length mrams host (word_index (address d b) + i)
        ≡ mrams d (word_index offset + 1024 * b + i)
  unfolding from_dpu slot value
  from_page d b i p q h =
      let dpu : (b * 2530 + d) % 2530 ≡ d = omega (arith, p) in
      let block : (b * 2530 + d) / 2530 ≡ b = omega (arith, p) in
      ap₂ (λ c k. parallel (countdown (2530 * c)) (put_page blocks offset mrams) host (k + i))
        page_count (ap₂ (λ d' b'. word_index (address d' b')) (sym dpu) (sym block))
      ∙ parallel_inside (2530 * n) 1024 slot value (put_page blocks offset mrams) page_fills
          pages_apart (λ m m' same k i' l r. refl) countdown countdown-IsSchedule host
          (b * 2530 + d) i (omega (arith, p, q)) h
      ∙ ap₂ (λ d' b'. mrams d' (word_index offset + 1024 * b' + i)) dpu block

  from_rest :
      (a : ℕ)
      → ((d b : ℕ) → d < 2530 → b < n → Off (word_index (address d b)) 1024 a)
      → from_dpu blocks offset length mrams host a ≡ host a
  unfolding from_dpu slot value
  from_rest a off =
      ap (λ c. parallel (countdown (2530 * c)) (put_page blocks offset mrams) host a) page_count
      ∙ parallel_outside (2530 * n) 1024 slot value (put_page blocks offset mrams) page_fills
          pages_apart (λ m m' same k i' l r. refl) countdown countdown-IsSchedule host a
          (λ k l. off (k % 2530) (k / 2530) (omega arith) (omega (arith, l)))

to_page :
    (blocks : GetBlock) (offset length n : ℕ) (address : ℕ → ℕ → ℕ) (host : Memory) (mrams : Mrams)
    → IsPaged blocks length n address
    → (d b i : ℕ) → d < 2530
    → b < n
    → i < 1024
    → to_dpu blocks offset length host mrams d (word_index offset + 1024 * b + i)
      ≡ host (word_index (address d b) + i)
unfolding to_dpu copy_out
to_page blocks offset length n address host mrams paged d b i p q h =
    let place : word_index offset + 1024 * b + i - word_index offset ≡ 1024 * b + i = omega arith in
    let block : (1024 * b + i) / 1024 ≡ b = omega (arith, h) in
    let item : (1024 * b + i) % 1024 ≡ i = omega (arith, h) in
    if_true
      (leb (word_index offset) (word_index offset + 1024 * b + i)
        && ltb (word_index offset + 1024 * b + i - word_index offset) (length / 4))
      (copy_out (blocks d ((word_index offset + 1024 * b + i - word_index offset) / 1024))
        ((word_index offset + 1024 * b + i - word_index offset) % 1024) host
        (mrams d (word_index offset + 1024 * b + i)))
      (mrams d (word_index offset + 1024 * b + i)) (ground (arith, place, paged.whole, h, q))
    ∙ rw (place, block, item, paged.block d b p q) refl

to_rest :
    (blocks : GetBlock) (offset length n : ℕ) (address : ℕ → ℕ → ℕ) (host : Memory) (mrams : Mrams)
    → IsPaged blocks length n address
    → (d a : ℕ) → d < 2530
    → Off (word_index offset) (1024 * n) a
    → to_dpu blocks offset length host mrams d a ≡ mrams d a
unfolding to_dpu
to_rest blocks offset length n address host mrams paged d a p off =
    if_false (leb (word_index offset) a && ltb (a - word_index offset) (length / 4))
      (copy_out (blocks d ((a - word_index offset) / 1024)) ((a - word_index offset) % 1024) host
        (mrams d a))
      (mrams d a) (ground (arith, paged.whole, off))

pub word_copy-SgLaws : SgLaws word_copy
unfolding word_copy
word_copy-SgLaws = record {
  to_page = to_page;
  to_rest = to_rest;
  from_page = from_page;
  from_rest = from_rest;
}
