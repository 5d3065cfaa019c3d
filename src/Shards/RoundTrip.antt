-- ===== src/Shards/RoundTrip.antt =====
-- The name that is made for a shard is read back.
use meitte.Base.{
  ℕ, ◌+◌, ◌-◌, ◌/◌, ◌%◌, ◌<◌, ◌≡◌, refl, true, false, List, ◌++◌, some, arith, ltb, length,
  length-append, take-append-length, drop-append-length,
}
use meitte.Shards.Names.{
  is_digit, five_value, five_digits, shard_tail, classify, tail_len, split_count_from_path,
  shard_suffix, make_shard_path,
}

digit_ok : (x : ℕ) → is_digit (48 + x % 10) ≡ true
digit_ok x = ground arith

five_digits_ok :
    (n : ℕ)
    → five_digits
        (48 + n / 10000 % 10)
        (48 + n / 1000 % 10)
        (48 + n / 100 % 10)
        (48 + n / 10 % 10)
        (48 + n % 10)
      ≡ true
five_digits_ok n =
    rw
      (digit_ok (n / 10000), digit_ok (n / 1000), digit_ok (n / 100), digit_ok (n / 10), digit_ok n)
      refl

five_value_ok :
    (n : ℕ)
    → n < 100000
    → five_value
        (48 + n / 10000 % 10)
        (48 + n / 1000 % 10)
        (48 + n / 100 % 10)
        (48 + n / 10 % 10)
        (48 + n % 10)
      ≡ n
five_value_ok n h = omega arith

-- The two numbers of a printed suffix.
shard_tail-shard_suffix :
    (shard count : ℕ)
    → shard < 100000
    → count < 100000
    → shard_tail (shard_suffix shard count) ≡ some (shard, count)
unfolding shard_tail
shard_tail-shard_suffix shard count h k =
    rw (five_digits_ok shard, five_digits_ok count, five_value_ok shard h, five_value_ok count k)
      refl

-- The path that is made for a shard of a count, both below 100000, is read back as these two
-- numbers: a single file where the count is at most 1, the first of the count behind the same
-- prefix where the shard is 1, and otherwise a later shard.
pub split_count_from_path-make_shard_path :
    (prefix : List ℕ) (shard count : ℕ)
    → shard < 100000
    → count < 100000
    → split_count_from_path (make_shard_path prefix shard count)
      ≡ classify prefix (some (shard, count))
unfolding split_count_from_path make_shard_path
split_count_from_path-make_shard_path prefix shard count h k =
    let path = prefix ++ shard_suffix shard count in
    let len : length path ≡ length prefix + 20 = length-append prefix (shard_suffix shard count) in
    let long : ltb (length path) (tail_len + 1) ≡ false = ground (arith, len) in
    let at : length path - tail_len - 1 ≡ length prefix = omega (arith, len) in
    rw
      (
        long,
        at,
        take-append-length prefix (shard_suffix shard count),
        drop-append-length prefix (shard_suffix shard count),
        shard_tail-shard_suffix shard count h k,
      )
      refl
