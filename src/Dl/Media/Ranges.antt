-- ===== src/Dl/Media/Ranges.antt =====
-- The requests of a chunked download.
use libytdl.Base.{
  ℕ, suc, zero, ◌+◌, ◌*◌, ◌/◌, ◌^◌, ◌≤◌, ◌<◌, ◌≡◌, refl, sym, ap, subst, true, false, List, [], ◌∷◌,
  ◌++◌, map, ◌∙◌, arith, append_assoc, if◌then◌else◌, leb, leb→le, leb→gt, Bool-cases, inl, inr,
  length, Bytes,
}
use libytdl.Buffer.{contents}
use libytdl.Dl.Media.{
  MediaCtx, chunk_complete, chunk_final_complete, Call, on_complete, chunk_size, call_if,
  chunk_request, next_chunk, chunk_complete_cb, chunk_final_complete_cb, message_complete,
  connected_cb,
}

-- What is asked for after the range that ended at `last`, for a resource of `size` bytes: an end of 0
-- stands for an open range. The fuel bounds the number of ranges.
unfoldable pub chunk_ranges : ℕ → ℕ → ℕ → List (ℕ × ℕ)
chunk_ranges zero last size = []
chunk_ranges (suc f) last size =
    let rest = chunk_ranges f (last + chunk_size) size in
    if leb size (last + chunk_size)
    then (last + 1, 0) ∷ []
    else (last + 1, last + chunk_size) ∷ rest

-- All that the session asks for: the first range and those of `next_chunk`.
abbrev pub session_ranges : ℕ → List (ℕ × ℕ)
session_ranges size = (0, chunk_size) ∷ chunk_ranges (size / chunk_size + 1) chunk_size size

-- The state after `n` responses in full.
unfoldable pub respond : ℕ → MediaCtx → MediaCtx
respond zero ctx = ctx
respond (suc n) ctx = respond n (message_complete true ctx)

-- The requests for a list of ranges.
abbrev pub requests : MediaCtx → List (ℕ × ℕ) → List Bytes
requests ctx = map λ r. contents (chunk_request true ctx r.0 r.1)

-- A chunked session in which the client is told nothing between the chunks.
pub record Streams (ctx : MediaCtx) : Type 0 where
  pub chunked : ctx.is_chunked ≡ true
  pub unpaused : ctx.pause_between_chunks ≡ false
  pub silent : ctx.has_on_chunk_complete ≡ false
  pub listened : ctx.has_on_complete ≡ true
  pub fresh : ctx.on_message_complete ≡ chunk_complete
  pub fits : ctx.format_content_length < 2 ^ 63

abbrev asked_open : MediaCtx → MediaCtx
asked_open ctx = record ctx {
  on_message_complete = chunk_final_complete;
  written = ctx.written ++ contents (chunk_request true ctx (ctx.last_chunk_end + 1) 0) ∷ [];
}

abbrev asked_chunk : MediaCtx → MediaCtx
asked_chunk ctx = record ctx {
  last_chunk_end = ctx.last_chunk_end + chunk_size;
  written =
      ctx.written
      ++ contents
          (chunk_request true ctx (ctx.last_chunk_end + 1) (ctx.last_chunk_end + chunk_size))
        ∷ [];
}

next_chunk-asked_open :
    (ctx : MediaCtx)
    → ctx.last_chunk_end < ctx.format_content_length
    → ctx.format_content_length < 2 ^ 63
    → ctx.format_content_length ≤ ctx.last_chunk_end + chunk_size
    → next_chunk true ctx ≡ asked_open ctx
unfolding next_chunk
next_chunk-asked_open ctx h fits last = ground arith

next_chunk-asked_chunk :
    (ctx : MediaCtx)
    → ctx.format_content_length < 2 ^ 63
    → ctx.last_chunk_end + chunk_size < ctx.format_content_length
    → next_chunk true ctx ≡ asked_chunk ctx
unfolding next_chunk
next_chunk-asked_chunk ctx fits more = ground arith

message_complete-next_chunk :
    (ctx : MediaCtx) → Streams ctx → message_complete true ctx ≡ next_chunk true ctx
unfolding message_complete chunk_complete_cb
message_complete-next_chunk ctx v = ground arith

-- The requests for `rs` have been written since `ctx`, and nobody was told anything.
abbrev pub Asked : MediaCtx → List (ℕ × ℕ) → MediaCtx → Type 0
Asked ctx rs c =
    (c.written ≡ ctx.written ++ requests ctx rs)
    × (c.on_message_complete ≡ chunk_final_complete)
    × (c.calls ≡ ctx.calls)
    × (c.has_on_complete ≡ true)

Asked-asked_chunk :
    (ctx : MediaCtx) (rs : List (ℕ × ℕ)) (c : MediaCtx)
    → Asked (asked_chunk ctx) rs c
    → Asked ctx ((ctx.last_chunk_end + 1, ctx.last_chunk_end + chunk_size) ∷ rs) c
unfolding chunk_request
Asked-asked_chunk ctx rs c (w, h, l, o) =
    (w ∙ append_assoc ctx.written _ (requests ctx rs), h, l, o)

respond-Asked :
    (f : ℕ) (ctx : MediaCtx)
    → Streams ctx
    → ctx.last_chunk_end < ctx.format_content_length
    → ctx.format_content_length ≤ ctx.last_chunk_end + f * chunk_size
    → let rs = chunk_ranges f ctx.last_chunk_end ctx.format_content_length in
      Asked ctx rs (respond (length rs) ctx)
unfolding chunk_ranges respond
respond-Asked zero ctx v h fuel = absurd (omega arith)
respond-Asked (suc f) ctx v h fuel =
    elim (Bool-cases (leb ctx.format_content_length (ctx.last_chunk_end + chunk_size))) [
      | inl e ↦ rw e (
          rw
            (message_complete-next_chunk ctx v
              ∙ next_chunk-asked_open ctx h v.fits
                  (leb→le ctx.format_content_length (ctx.last_chunk_end + chunk_size) e))
            (refl, refl, refl, v.listened))
      | inr e ↦
          let more : ctx.last_chunk_end + chunk_size < ctx.format_content_length =
            leb→gt ctx.format_content_length (ctx.last_chunk_end + chunk_size) e in
          let rs = chunk_ranges f (ctx.last_chunk_end + chunk_size) ctx.format_content_length in
          rw e (
            Asked-asked_chunk ctx rs (respond (length rs) (message_complete true ctx)) (
              subst (λ c. Asked (asked_chunk ctx) rs (respond (length rs) c))
                (sym (message_complete-next_chunk ctx v ∙ next_chunk-asked_chunk ctx v.fits more))
                (respond-Asked f (asked_chunk ctx)
                  (record {
                    chunked = v.chunked;
                    unpaused = v.unpaused;
                    silent = v.silent;
                    listened = v.listened;
                    fresh = v.fresh;
                    fits = v.fits;
                  })
                  more (omega arith))))
    ]

connected-asked :
    (ctx : MediaCtx)
    → Streams ctx
    → chunk_size < ctx.format_content_length
    → connected_cb true ctx ≡ record ctx {
      last_chunk_end = chunk_size;
      written = ctx.written ++ contents (chunk_request true ctx 0 chunk_size) ∷ [];
    }
unfolding connected_cb
connected-asked ctx v h = ground arith

final-on_complete :
    (ctx : MediaCtx)
    → ctx.on_message_complete ≡ chunk_final_complete
    → ctx.has_on_complete ≡ true
    → message_complete true ctx ≡ record ctx { calls = ctx.calls ++ on_complete ∷ [] }
unfolding message_complete chunk_final_complete_cb call_if
final-on_complete ctx h o = ground arith

respond-suc : (n : ℕ) (ctx : MediaCtx) → respond (suc n) ctx ≡ message_complete true (respond n ctx)
unfolding respond
respond-suc zero ctx = refl
respond-suc (suc n) ctx = respond-suc n (message_complete true ctx)

-- For a chunked session that does not pause between the chunks, whose user gave `on_complete` and no
-- `on_chunk_complete`, with a fresh handler, over a resource of more than one chunk and less than 2^63
-- bytes: the client writes exactly the requests for `session_ranges`, one for each response, and calls
-- `on_complete` once, when the last of them is answered, and nothing else.
pub session-written :
    (ctx : MediaCtx)
    → Streams ctx
    → chunk_size < ctx.format_content_length
    → let rs = session_ranges ctx.format_content_length in
      let c = respond (length rs) (connected_cb true ctx) in
      (c.written ≡ ctx.written ++ requests ctx rs) × (c.calls ≡ ctx.calls ++ on_complete ∷ [])
session-written ctx v h =
    let size = ctx.format_content_length in
    let rs = chunk_ranges (size / chunk_size + 1) chunk_size size in
    let first : MediaCtx = record ctx {
      last_chunk_end = chunk_size;
      written = ctx.written ++ contents (chunk_request true ctx 0 chunk_size) ∷ [];
    } in
    let asked : Asked first rs (respond (length rs) first) =
      respond-Asked (size / chunk_size + 1) first
        (record {
          chunked = v.chunked;
          unpaused = v.unpaused;
          silent = v.silent;
          listened = v.listened;
          fresh = v.fresh;
          fits = v.fits;
        })
        h (omega arith) in
    rw (connected-asked ctx v h) (
      rw (respond-suc (length rs) first) (
        rw (final-on_complete (respond (length rs) first) asked.1 asked.3) (
          unfold chunk_request in
          (
            asked.0 ∙ append_assoc ctx.written _ _,
            ap (λ (l : List Call). l ++ on_complete ∷ []) asked.2,
          ))))
