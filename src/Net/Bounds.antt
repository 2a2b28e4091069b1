-- ===== src/Net/Bounds.antt =====
-- The buffers of the request builders are large enough, but for one.
use libytdl.Base.{
  ℕ, ◌+◌, ◌^◌, ◌<◌, ◌≤◌, ◌≡◌, refl, true, [], ◌∷◌, some, arith, length, Bytes, inl, inr, NoNul,
  codes, decimal, no_nul, no_nul-NoNul, concat-NoNul, length-concat, snprintf_fits, precision-NoNul,
  length-precision, decimal-NoNul, length-decimal, Bool-cases, ◌==◌,
}
use libytdl.Buffer.{Buf}
use libytdl.Net.Request.{
  user_agent, print_into, Slice, slice, range_text, media_chunk_text, request_media_chunk,
  media_text, request_media, segment_text, request_segment, generic_text, request_generic,
  agent_line, accept_end,
}

-- The text stands in the buffer unshortened, and `len` is its length.
abbrev pub Holds : Buf → Bytes → Type 0
Holds b text = (b.base ≡ some text) × (b.len ≡ length text) × (length text < b.size)

pub print_into-Holds :
    (size : ℕ) (text : Bytes)
    → NoNul text
    → length text < size
    → Holds (print_into true size text) text
unfolding print_into
print_into-Holds size text n l = rw (snprintf_fits size text n l) (refl, refl, l)

pub user_agent-NoNul : NoNul user_agent
unfolding user_agent no_nul
user_agent-NoNul = no_nul-NoNul user_agent refl

pub length-user_agent : length user_agent ≡ 114
unfolding user_agent
length-user_agent = refl

range_text-NoNul : (s e : ℕ) → NoNul (range_text s e)
unfolding range_text no_nul
range_text-NoNul s e = elim (Bool-cases (e == 0)) [
  | inl h ↦ rw h (concat-NoNul _ (decimal-NoNul s, (no_nul-NoNul (codes "-") refl, tt)))
  | inr h ↦
      rw h
        (concat-NoNul _ (decimal-NoNul s, (no_nul-NoNul (codes "-") refl, (decimal-NoNul e, tt))))
]

length-range_text : (s e : ℕ) → length (range_text s e) ≤ 41
unfolding range_text
length-range_text s e = elim (Bool-cases (e == 0)) [
  | inl h ↦ rw h (omega (arith, length-concat (decimal s ∷ codes "-" ∷ []), length-decimal s))
  | inr h ↦ rw h (
      omega (
        arith,
        length-concat (decimal s ∷ codes "-" ∷ decimal e ∷ []),
        length-decimal s,
        length-decimal e,
      ))
]

slice-NoNul : (s : Slice) → NoNul (slice s)
slice-NoNul s = precision-NoNul s.size s.bytes

length-slice : (s : Slice) → s.size < 2 ^ 31 → length (slice s) ≤ s.size
length-slice s h = length-precision s.size s.bytes h

module _ (path query host : Slice) (hp : path.size < 2 ^ 31) (hq : query.size < 2 ^ 31)
    (hh : host.size < 2 ^ 31) where
  media_chunk_text-NoNul : (s e : ℕ) → NoNul (media_chunk_text path query host s e)
  unfolding media_chunk_text no_nul
  media_chunk_text-NoNul s e = concat-NoNul _ (
    no_nul-NoNul (codes "GET ") refl,
    (
      slice-NoNul path,
      (
        no_nul-NoNul (codes "?") refl,
        (
          slice-NoNul query,
          (
            no_nul-NoNul (codes " HTTP/1.1\r\nHost: ") refl,
            (
              slice-NoNul host,
              (
                no_nul-NoNul agent_line refl,
                (
                  user_agent-NoNul,
                  (
                    no_nul-NoNul (codes "\r\nRange: bytes=") refl,
                    (range_text-NoNul s e, (no_nul-NoNul accept_end refl, tt)),
                  ),
                ),
              ),
            ),
          ),
        ),
      ),
    ),
  )

  length-media_chunk_text :
      (s e : ℕ)
      → length (media_chunk_text path query host s e) < 315 + path.size + host.size + query.size
  unfolding media_chunk_text
  length-media_chunk_text s e = rw length-concat (
      omega (
        arith,
        length-user_agent,
        length-range_text s e,
        length-slice path hp,
        length-slice query hq,
        length-slice host hh,
      ))

  -- A media chunk request is never cut off, for any 64-bit range.
  pub request_media_chunk-Holds :
      (s e : ℕ)
      → Holds (request_media_chunk true path query host s e) (media_chunk_text path query host s e)
  unfolding request_media_chunk
  request_media_chunk-Holds s e =
      print_into-Holds _ _ (media_chunk_text-NoNul s e)
        (omega (arith, length-media_chunk_text s e, hp, hq, hh))

  media_text-NoNul : NoNul (media_text path query host)
  unfolding media_text no_nul
  media_text-NoNul = concat-NoNul _ (
    no_nul-NoNul (codes "GET ") refl,
    (
      slice-NoNul path,
      (
        no_nul-NoNul (codes "?") refl,
        (
          slice-NoNul query,
          (
            no_nul-NoNul (codes " HTTP/1.1\r\nHost: ") refl,
            (
              slice-NoNul host,
              (
                no_nul-NoNul agent_line refl,
                (user_agent-NoNul, (no_nul-NoNul accept_end refl, tt)),
              ),
            ),
          ),
        ),
      ),
    ),
  )

  length-media_text : length (media_text path query host) < 205 + path.size + host.size + query.size
  unfolding media_text
  length-media_text = rw length-concat (
      omega (
        arith,
        length-user_agent,
        length-slice path hp,
        length-slice query hq,
        length-slice host hh,
      ))

  -- A media request is never cut off.
  pub request_media-Holds : Holds (request_media true path query host) (media_text path query host)
  unfolding request_media
  request_media-Holds =
      print_into-Holds _ _ media_text-NoNul (omega (arith, length-media_text, hp, hq, hh))

  segment_text-NoNul : NoNul (segment_text path query host)
  unfolding segment_text no_nul
  segment_text-NoNul = concat-NoNul _ (
    no_nul-NoNul (codes "GET ") refl,
    (
      slice-NoNul path,
      (
        slice-NoNul query,
        (
          no_nul-NoNul (codes " HTTP/1.1\r\nHost: ") refl,
          (
            slice-NoNul host,
            (no_nul-NoNul agent_line refl, (user_agent-NoNul, (no_nul-NoNul accept_end refl, tt))),
          ),
        ),
      ),
    ),
  )

  length-segment_text :
      length (segment_text path query host) < 200 + path.size + host.size + query.size
  unfolding segment_text
  length-segment_text = rw length-concat (
      omega (
        arith,
        length-user_agent,
        length-slice path hp,
        length-slice query hq,
        length-slice host hh,
      ))

  -- A segment request is never cut off.
  pub request_segment-Holds :
      Holds (request_segment true path query host) (segment_text path query host)
  unfolding request_segment
  request_segment-Holds =
      print_into-Holds _ _ segment_text-NoNul (omega (arith, length-segment_text, hp, hq, hh))

module _ (path host : Slice) (hp : path.size < 2 ^ 31) (hh : host.size < 2 ^ 31) where
  generic_text-NoNul : NoNul (generic_text path host)
  unfolding generic_text no_nul
  generic_text-NoNul = concat-NoNul _ (
    no_nul-NoNul (codes "GET ") refl,
    (
      slice-NoNul path,
      (
        no_nul-NoNul (codes " HTTP/1.1\r\nHost: ") refl,
        (
          slice-NoNul host,
          (no_nul-NoNul agent_line refl, (user_agent-NoNul, (no_nul-NoNul accept_end refl, tt))),
        ),
      ),
    ),
  )

  length-generic_text : length (generic_text path host) < 200 + path.size + host.size
  unfolding generic_text
  length-generic_text =
      rw length-concat
        (omega (arith, length-user_agent, length-slice path hp, length-slice host hh))

  -- A generic request is never cut off.
  pub request_generic-Holds : Holds (request_generic true path host) (generic_text path host)
  unfolding request_generic
  request_generic-Holds =
      print_into-Holds _ _ generic_text-NoNul (omega (arith, length-generic_text, hp, hh))
