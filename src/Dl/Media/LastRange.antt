-- ===== src/Dl/Media/LastRange.antt =====
-- The last request of a chunked download may ask for nothing.
use mathlib.Core.List.{map-append}
use libytdl.Base.{
  ℕ, suc, zero, ◌+◌, ◌*◌, ◌/◌, ◌<◌, ◌≡◌, sym, ap, ◌∙◌, arith, true, List, [], ◌∷◌, ◌++◌,
  append_assoc, leb, length, Bytes, Bool-cases, inl, inr, leb→le,
}
use libytdl.Buffer.{contents}
use libytdl.Dl.Media.{MediaCtx, chunk_size, chunk_request, connected_cb}
use libytdl.Dl.Media.Ranges.{
  chunk_ranges, session_ranges, Streams, requests, respond, session-written,
}

chunk_ranges_snoc :
    (f last i size : ℕ)
    → i < f
    → size ≡ last + i * chunk_size + 1
    → (p : List (ℕ × ℕ)) × (chunk_ranges f last size ≡ p ++ (size, 0) ∷ [])
unfolding chunk_ranges
chunk_ranges_snoc zero last i size h e = absurd (omega arith)
chunk_ranges_snoc (suc f) last zero size h e = ([], ground arith)
chunk_ranges_snoc (suc f) last (suc i) size h e =
    let (p, q) = chunk_ranges_snoc f (last + chunk_size) i size (omega arith) (omega arith) in
    (
      (last + 1, last + chunk_size) ∷ p,
      elim (Bool-cases (leb size (last + chunk_size))) [
        | inl t ↦ absurd (omega (arith, leb→le size (last + chunk_size) t))
        | inr t ↦ rw (t, q)
      ],
    )

-- If the resource is one byte longer than a number of chunks, the last request asks for the bytes
-- from its end on, of which there are none.
pub session_last_empty :
    (ctx : MediaCtx) (k : ℕ)
    → Streams ctx
    → 0 < k
    → ctx.format_content_length ≡ k * chunk_size + 1
    → (q : List Bytes) × ((respond
          (length (session_ranges ctx.format_content_length))
          (connected_cb true ctx)).written
        ≡ q ++ contents (chunk_request true ctx ctx.format_content_length 0) ∷ [])
session_last_empty ctx zero v h e = absurd (omega arith)
session_last_empty ctx (suc i) v h e =
    let size = ctx.format_content_length in
    let (p, q) =
      chunk_ranges_snoc (size / chunk_size + 1) chunk_size i size (omega arith) (omega arith) in
    (
      ctx.written ++ requests ctx ((0, chunk_size) ∷ p),
      (session-written ctx v (omega arith)).0
          ∙ ap (λ (l : List Bytes). ctx.written ++ l)
              (ap (requests ctx) (ap (λ (r : List (ℕ × ℕ)). (0, chunk_size) ∷ r) q)
                ∙ map-append (λ (r : ℕ × ℕ). contents (chunk_request true ctx r.0 r.1))
                    ((0, chunk_size) ∷ p) ((size, 0) ∷ []))
          ∙ sym (append_assoc ctx.written (requests ctx ((0, chunk_size) ∷ p)) _),
    )
