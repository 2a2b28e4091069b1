-- ===== src/Buffer.antt =====
-- src/buffer.c and include/ytdl/buffer.h: the growable byte buffer. Whether an allocation succeeds
-- is an argument. Of the memory behind `base` the model keeps the bytes that were written.
pub mod Append
use libytdl.Base.{
  ℕ, ◌+◌, Bool, true, Option, none, some, [], ◌++◌, if◌then◌else◌, ltb, length, take, Bytes,
}

pub record Buf : Type 0 where
  pub base : Option Bytes
  pub len : ℕ
  pub size : ℕ

-- The bytes behind `base`; NULL has none.
abbrev pub contents : Buf → Bytes
contents b = elim b.base [ none ↦ [] | some s ↦ s ]

-- `ytdl_buf_alloc`.
unfoldable pub alloc : Bool → ℕ → Buf
alloc succeeds size = record { base = if succeeds then some [] else none; len = 0; size = size }

-- `ytdl_buf_realloc`.
unfoldable pub realloc : Bool → Buf → ℕ → Buf
realloc succeeds b size = record b {
  base = if succeeds then some (take size (contents b)) else none;
  size = size;
}

-- `ytdl_buf_grow`; `scale` is the product with the factor, a double, truncated to a size.
unfoldable pub grow : (ℕ → ℕ) → Bool → Buf → Buf
grow scale succeeds b = record b {
  size = scale b.size;
  base = if succeeds then some (take (scale b.size) (contents b)) else none;
}

-- `ytdl_buf_free`; a second call finds NULL and frees nothing.
unfoldable pub free : Buf → Buf
free b = record b { base = none }

-- What the body callbacks of src/dl.c do with each piece of a response: `ytdl__watch_body_cb`,
-- `yt__player_body_cb` and `ytdl__dash_manifest_cb`. The allocation succeeds.
unfoldable pub append : Bytes → Buf → Buf
unfolding realloc
append at b =
    let room = if ltb b.size (b.len + length at) then realloc true b (b.len + length at) else b in
    record room { base = some (take b.len (contents room) ++ at); len = b.len + length at }
