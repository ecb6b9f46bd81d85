-- ===== src/Http/Text.antt =====
-- StringUtils.h: the bytes of a buffer chain as one string.
use nozomi.Common.{
  [], ℕ, ◌+◌, ◌-◌, ◌%◌, ◌^◌, ◌<◌, ◌≤◌, Str, List, ◌∷◌, ◌++◌, Result, ok, err, out_of_range, ◌>>=◌,
  ◌≡◌, ltb, refl, ap, ◌∙◌, length-append, append-nil, append_assoc, leb, if◌then◌else◌, length,
  take, drop, flatten, arith, true,
}
use nozomi.Libs.{Libs}

-- `std::string::insert(pos, data, len)`
insert : ℕ → Str → Str → Result Str
insert pos text s =
    if leb pos (length s) then ok (take pos s ++ text ++ drop pos s) else err out_of_range

-- `int` to `size_t`: the sign is extended. The argument is the bit pattern of the `int`.
to_size : ℕ → ℕ
to_size i = if ltb i (2 ^ 31) then i else i + (2 ^ 64 - 2 ^ 32)

-- The loop over the chain; `offset` is an `int`, here as a bit pattern.
append_chunks : List Str → Str → ℕ → Result Str
append_chunks [] ret offset = ok ret
append_chunks (buf ∷ rest) ret offset = do
  ret' ← insert (to_size offset) buf ret
  append_chunks rest ret' ((to_size offset + length buf) % 2 ^ 32)

module _ (L : Libs) where
  unfoldable pub to_string : L.IOBuf → Result Str
  unfolding append_chunks insert to_size
  to_string buffer = append_chunks (L.chunks buffer) [] 0

take_all : (s : Str) → take (length s) s ≡ s
take_all [] = refl
take_all (c ∷ s) = ap (λ r. c ∷ r) (take_all s)

drop_all : (s : Str) → drop (length s) s ≡ []
drop_all [] = refl
drop_all (c ∷ s) = drop_all s

leb_refl : (n : ℕ) → leb n n ≡ true
leb_refl n = ground arith

to_size_small : (i : ℕ) → i < 2 ^ 31 → to_size i ≡ i
unfolding to_size
to_size_small i h = ground arith

insert_at_end : (text s : Str) → insert (length s) text s ≡ ok (s ++ text)
unfolding insert
insert_at_end text s = rw (leb_refl (length s)) (rw (take_all s, drop_all s, append-nil))

next_offset : (a b n : ℕ) → a + b < 2 ^ 31 → n ≡ a + b → (a + b) % 2 ^ 32 ≡ n
next_offset a b n h e = omega arith

append_chunks-flatten :
    (bufs : List Str) (ret : Str)
    → length ret + length (flatten bufs) < 2 ^ 31
    → append_chunks bufs ret (length ret) ≡ ok (ret ++ flatten bufs)
unfolding append_chunks
append_chunks-flatten [] ret h = rw append-nil
append_chunks-flatten (buf ∷ rest) ret h =
    rw (to_size_small (length ret) (omega arith), insert_at_end buf ret)
      (rw
        (next_offset (length ret) (length buf) _ (omega (arith, length-append buf (flatten rest)))
          (length-append ret buf))
        (append_chunks-flatten rest (ret ++ buf)
            (omega (arith, length-append buf (flatten rest), length-append ret buf))
          ∙ (rw append_assoc)))

overflowing :
    (n : ℕ) (first second : Str) (f : Str → Result Str) (ret : Str)
    → ret ≡ first
    → n ≡ length first
    → 2 ^ 31 ≤ n
    → n < 2 ^ 32
    → (insert (to_size ((to_size 0 + n) % 2 ^ 32)) second ret >>= f) ≡ err out_of_range
unfolding insert to_size
overflowing n first second f ret e k low high = rw e (ground arith)

module _ (L : Libs) where
  -- A chain whose total size fits in an `int` is read whole and in order, without an exception.
  pub to_string-flatten :
      (b : L.IOBuf)
      → length (flatten (L.chunks b)) < 2 ^ 31
      → to_string L b ≡ ok (flatten (L.chunks b))
  unfolding to_string
  to_string-flatten b h = append_chunks-flatten (L.chunks b) [] (omega arith)

  -- When the first buffer of a chain fills 2 GiB or more (and less than 4), and another follows, the
  -- `int` offset turns negative, and the second `insert` throws `out_of_range`.
  pub to_string_overflow :
      (b : L.IOBuf) (first second : Str) (rest : List Str)
      → L.chunks b ≡ first ∷ second ∷ rest
      → 2 ^ 31 ≤ length first
      → length first < 2 ^ 32
      → to_string L b ≡ err out_of_range
  unfolding to_string
  to_string_overflow b first second rest e low high =
      rw e
        (overflowing (length first) first second _ (first ++ []) (append-nil first) refl low high)
