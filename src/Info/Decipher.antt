-- ===== src/Info/Decipher.antt =====
-- The actions on a signature in `ytdl_info_get_format_url2` of src/info.c. The buffer is a list of
-- bytes that holds a NUL; an access outside of it is `none`. The arguments are not negative.
pub mod Shift
pub mod Text
use libytdl.Base.{
  ℕ, zero, suc, ◌+◌, ◌-◌, ◌%◌, ◌^◌, List, [], ◌∷◌, ◌++◌, Option, none, some, if◌then◌else◌, ltb,
  ◌==◌, ◌>>=◌, length, get_elem?, set, drop, Bytes, c_str,
}
use libytdl.Sig.{Action}
use libytdl.Info.Reverse.{strrev}

unfoldable pub store : Bytes → ℕ → ℕ → Option Bytes
store buf i c = if ltb i (length buf) then some (set buf i c) else none

-- The first character goes to the place that is given, which need not be within the text.
unfoldable pub swap_in : ℕ → Bytes → Option Bytes
swap_in n buf =
    let len = length (c_str buf) in
    if len == 0
    then none
    else (get_elem? buf 0 >>= λ first.
        get_elem? buf (n % len) >>= λ c. store buf 0 c >>= λ b. store b n first)

-- The loop of the removal: `k` rounds from the place `x` on.
unfoldable pub copy_down : ℕ → ℕ → ℕ → Bytes → Option Bytes
copy_down n x zero buf = some buf
copy_down n x (suc k) buf =
    get_elem? buf (n + x) >>= λ c. store buf x c >>= λ b. copy_down n (suc x) k b

unfoldable pub drop_in : ℕ → Bytes → Option Bytes
drop_in n buf = copy_down n 0 ((length (c_str buf) + 2 ^ 64 - n + 1) % 2 ^ 64) buf

-- The reversal leaves what is behind the text.
unfoldable pub reverse_in : Bytes → Option Bytes
reverse_in buf = some (strrev (c_str buf) ++ drop (length (c_str buf)) buf)

unfoldable pub act : Action → ℕ → Bytes → Option Bytes
act Action.reverse n buf = reverse_in buf
act Action.swap n buf = swap_in n buf
act Action.splice n buf = drop_in n buf
act Action.slice n buf = drop_in n buf

unfoldable pub decipher : List (Action × ℕ) → Bytes → Option Bytes
decipher [] buf = some buf
decipher ((a, n) ∷ more) buf = act a n buf >>= λ b. decipher more b
